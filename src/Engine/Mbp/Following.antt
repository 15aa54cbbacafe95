-- ===== src/Engine/Mbp/Following.antt =====
-- engine/mbp.go: what a tracker holds at any point of its run.
use edge_feed_spec.Base.{
  ℕ, suc, ◌+◌, ◌^◌, ◌≤◌, ◌<◌, ◌≡◌, sym, ap, subst, ◌∙◌, [], ◌∷◌, ◌++◌, true, false, All, arith,
  Bool, if_true, if_false, nat_eq, pair_eq,
}
use edge_feed_spec.Base.Int.{int_eq}
use edge_feed_spec.Base.Maps.{Distinct}
use edge_feed_spec.Engine.MbpBook.{MbpBook}
use edge_feed_spec.Engine.Mbp.{Instr, record_entry}
use edge_feed_spec.Engine.Mbp.Publisher.{Publisher, ladder, entry, entry_number, span, SameLevels}
use edge_feed_spec.Engine.Mbp.Journal.{UpTo, span-end, Contents, Contents-drop}
use edge_feed_spec.Engine.Mbp.Follow.{Blank, full}

-- What a tracker without doubt has: its base is the publisher's ladder, and the journal is all the
-- deltas since.
pub record Trusted (p : Publisher) (t : Instr) : Type 0 where
  pub many : ℕ
  pub distinct : Distinct t.base
  pub base : SameLevels t.base (ladder p t.base_k).levels
  pub journal : t.journal ≡ span p t.base_k many
  pub reaches : t.last_seq_set ≡ true → t.base_k + many ≡ t.last_seq

pub record Follows (p : Publisher) (t : Instr) (hole : ℕ) : Type 0 where
  pub contents : t.last_seq_set ≡ true → Contents p t.journal hole t.last_seq
  pub small : t.last_seq_set ≡ true → t.last_seq + 1 < 2 ^ 32
  pub unset : t.last_seq_set ≡ false → (t.journal ≡ []) × (t.dropped_max ≡ 0)
  pub dropped : t.dropped_max ≤ hole
  pub trusted : t.gapped ≡ false → t.overflow ≡ false → t.base_set ≡ true → Trusted p t

module _ (p : Publisher) where
  pub Blank-Follows : (t : Instr) → Blank t → Follows p t 0
  Blank-Follows t b = record {
    contents = λ h. absurd (ground (arith, b.unset, h));
    small = λ h. absurd (ground (arith, b.unset, h));
    unset = λ _. (b.no_journal, b.nothing_dropped);
    dropped = omega (arith, b.nothing_dropped);
    trusted = λ _ _ h. absurd (ground (arith, b.no_base, h));
  }

  -- A delta that is discarded, whether or not it costs the trust.
  pub discarded :
      (t : Instr) (hole : ℕ) (g : Bool)
      → (g ≡ false → t.gapped ≡ false)
      → Follows p t hole
      → Follows p (record t { saw_snapshot_since_delta = false; gapped = g }) hole
  discarded t hole g h f = record {
    contents = f.contents;
    small = f.small;
    unset = f.unset;
    dropped = f.dropped;
    trusted = λ e o b.
        let tr : Trusted p t = f.trusted (h e) o b in
        record {
          many = tr.many;
          distinct = tr.distinct;
          base = tr.base;
          journal = tr.journal;
          reaches = tr.reaches;
        };
  }

  -- The tracker that the delta `n` leaves before it is recorded.
  abbrev pub advanced : Instr → MbpBook → Bool → ℕ → ℕ → Instr
  advanced t b g epoch n = record t {
    book = b;
    last_seq = n;
    last_seq_set = true;
    gapped = g;
    saw_snapshot_since_delta = false;
    capture_epoch = epoch;
  }

  -- A delta past the bound of the journal.
  pub recorded_full :
      (t : Instr) (b : MbpBook) (g : Bool) (epoch n : ℕ)
      → full t ≡ true
      → n + 1 < 2 ^ 32
      → All (UpTo n) t.journal
      → t.dropped_max ≤ n
      → Follows p (record_entry (advanced t b g epoch n) (entry p n)) n
  unfolding record_entry
  recorded_full t b g epoch n is_full small a d =
      subst (λ x. Follows p x n) (sym (if_true _ _ _ is_full))
        (record {
          contents = λ _. Contents-drop p t.journal n a;
          small = λ _. small;
          unset = λ h. cc;
          dropped = ground (arith, entry_number n (p.ops n), d);
          trusted = λ _ h _. cc;
        })

  -- The delta after the last, or after a gap, or the first one.
  pub recorded :
      (t : Instr) (b : MbpBook) (g : Bool) (epoch n hole : ℕ)
      → full t ≡ false
      → n + 1 < 2 ^ 32
      → t.dropped_max ≤ hole
      → Contents p (t.journal ++ (entry p n ∷ [])) hole n
      → (g ≡ false
          → t.overflow ≡ false
          → t.base_set ≡ true
          → (Trusted p
              (record (advanced t b g epoch n) { journal = t.journal ++ (entry p n ∷ []) })))
      → Follows p (record_entry (advanced t b g epoch n) (entry p n)) hole
  unfolding record_entry
  recorded t b g epoch n hole room small d c tr =
      subst (λ x. Follows p x hole) (sym (if_false _ _ _ room))
        (record {
          contents = λ _. c;
          small = λ _. small;
          unset = λ h. cc;
          dropped = d;
          trusted = tr;
        })

  pub Trusted-next :
      (t : Instr) (b : MbpBook) (g : Bool) (epoch : ℕ)
      → t.last_seq_set ≡ true
      → Trusted p t
      → Trusted p (record (advanced t b g epoch (suc t.last_seq)) {
        journal = t.journal ++ (entry p (suc t.last_seq) ∷ []);
      })
  Trusted-next t b g epoch set tr = record {
    many = suc tr.many;
    distinct = tr.distinct;
    base = tr.base;
    journal =
        ap (λ j. j ++ (entry p (suc t.last_seq) ∷ [])) tr.journal
        ∙ ap (λ i. span p t.base_k tr.many ++ (entry p (suc i) ∷ [])) (sym (tr.reaches set))
        ∙ span-end p t.base_k tr.many;
    reaches = λ _. omega (arith, tr.reaches set);
  }

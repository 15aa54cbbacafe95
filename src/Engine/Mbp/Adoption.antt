-- ===== src/Engine/Mbp/Adoption.antt =====
-- engine/mbp.go: the adoption of a group, and the whole run of a tracker.
use edge_feed_spec.Base.{
  ℕ, ◌+◌, ◌-◌, ◌≤◌, ◌<◌, ◌≡◌, refl, ap, ◌∙◌, ◌⊎◌, List, [], true, false, if◌then◌else◌, ltb,
  filter_by, arith, Bool-cases, inl, inr, nat_eq, pair_eq,
}
use edge_feed_spec.Base.Int.{int_eq}
use edge_feed_spec.Engine.Mbp.{Instr, JournalEntry, OpenSnap}
use edge_feed_spec.Engine.Mbp.Finish.{adopt, rebase}
use edge_feed_spec.Engine.Mbp.Publisher.{Publisher, span}
use edge_feed_spec.Engine.Mbp.Journal.{past, Contents-filter, filter_journal}
use edge_feed_spec.Engine.Mbp.Follow.{IsTrue, Run, started, first_delta, delta, group}
use edge_feed_spec.Engine.Mbp.Following.{Follows, Blank-Follows}
use edge_feed_spec.Engine.Mbp.Runs.{first-Follows, delta-Follows}

module _ (p : Publisher) (t : Instr) (hole : ℕ) (f : Follows p t hole) (o : OpenSnap)
    (true_group : IsTrue p o) where
  abbrev k : ℕ
  k = o.last_k

  abbrev kept : List JournalEntry
  kept = filter_by (past k) t.journal

  -- The entries that the adoption keeps, past the hole: the deltas after the group.
  kept_set : t.last_seq_set ≡ true → hole ≤ k → kept ≡ span p k (t.last_seq - k)
  kept_set set h = filter_journal p t.journal hole t.last_seq k (f.contents set) h

  kept_unset : t.last_seq_set ≡ false → kept ≡ []
  kept_unset unset = ap (filter_by (past k)) (f.unset unset).0

  kept_ahead : hole ≤ k → ltb t.last_seq k ≡ true → kept ≡ []
  unfolding span
  kept_ahead h ahead = elim (Bool-cases t.last_seq_set) [
    | inl set ↦ kept_set set h ∙ ap (span p k) none_left
    | inr unset ↦ kept_unset unset
  ]
    where
      none_left : t.last_seq - k ≡ 0
      none_left = ground arith

  -- A group captured at the hole or after it.
  after_hole : hole ≤ k → ltb k t.dropped_max ≡ false → Follows p (adopt t o) k
  unfolding adopt rebase span
  after_hole h sub = elim (Bool-cases (ltb t.last_seq k)) [
    | inl ahead ↦
        rw (sub, ahead)
          (record {
            contents = λ _. record {
              older = [];
              many = 0;
              are_older = tt;
              split = kept_ahead h ahead;
              reaches = omega arith;
            };
            small = λ _. true_group.small;
            unset = λ u. cc;
            dropped = omega arith;
            trusted = λ _ _ _. record {
              many = 0;
              distinct = true_group.distinct;
              base = true_group.levels;
              journal = kept_ahead h ahead;
              reaches = λ _. omega arith;
            };
          })
    | inr behind ↦
        rw (sub, behind)
          (record {
            contents = λ set. record {
              older = [];
              many = t.last_seq - k;
              are_older = tt;
              split = kept_set set h;
              reaches = reaches_last behind;
            };
            small = f.small;
            unset = λ u. (kept_unset u, refl);
            dropped = omega arith;
            trusted = λ _ _ _. elim (Bool-cases t.last_seq_set) [
              | inl set ↦ record {
                many = t.last_seq - k;
                distinct = true_group.distinct;
                base = true_group.levels;
                journal = kept_set set h;
                reaches = λ _. reaches_last behind;
              }
              | inr unset ↦ record {
                many = 0;
                distinct = true_group.distinct;
                base = true_group.levels;
                journal = kept_unset unset;
                reaches = λ set. absurd (ground (arith, unset, set));
              }
            ];
          })
  ]
    where
      reaches_last : ltb t.last_seq k ≡ false → k + (t.last_seq - k) ≡ t.last_seq
      reaches_last behind = ground arith

  -- A group captured before a delta that the journal had no room for.
  before_drop : ltb k t.dropped_max ≡ true → Follows p (adopt t o) hole
  unfolding adopt rebase
  before_drop sub =
      rw (sub, behind)
        (record {
          contents =
              λ set. Contents-filter p t.journal hole t.last_seq k (f.contents set) before_hole;
          small = f.small;
          unset = λ u. absurd (dropped_none u);
          dropped = f.dropped;
          trusted = λ _ e _. cc;
        })
    where
      before_hole : k ≤ hole
      before_hole = ground (arith, f.dropped)

      dropped_none : t.last_seq_set ≡ false → ⊥
      dropped_none u = ground (arith, (f.unset u).1)

      behind : ltb t.last_seq k ≡ false
      behind = elim (Bool-cases t.last_seq_set) [
        | inl set ↦ ground (arith, (f.contents set).reaches, before_hole)
        | inr unset ↦ absurd (dropped_none unset)
      ]

  group-Follows :
      (hole ≤ k) ⊎ (k < t.dropped_max)
      → Follows p (adopt t o) (if ltb k t.dropped_max then hole else k)
  group-Follows adoptable = elim (Bool-cases (ltb k t.dropped_max)) [
    | inl sub ↦ rw sub (before_drop sub)
    | inr sub ↦
        rw sub (after_hole (elim adoptable [ inl h ↦ h | inr h ↦ absurd (ground arith) ]) sub)
  ]

pub Run-Follows : (p : Publisher) (t : Instr) (hole : ℕ) → Run p t hole → Follows p t hole
Run-Follows p t hole (started b) = Blank-Follows p t b
Run-Follows p t hole (first_delta {t = t0} {hole = h0} epoch key n seq r unset small joins) =
    first-Follows p t0 h0 (Run-Follows p t0 h0 r) epoch key seq n unset small joins
Run-Follows p t hole (delta {t = t0} {hole = h0} epoch key n seq r set small) =
    delta-Follows p t0 h0 (Run-Follows p t0 h0 r) epoch key seq set n small
Run-Follows p t hole (group {t = t0} {hole = h0} o r g adoptable) =
    group-Follows p t0 h0 (Run-Follows p t0 h0 r) o g adoptable

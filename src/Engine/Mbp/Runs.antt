-- ===== src/Engine/Mbp/Runs.antt =====
-- engine/mbp.go: each arrival of a run keeps what the tracker holds.
use edge_feed_spec.Base.{
  ℕ, suc, ◌+◌, ◌-◌, ◌^◌, ◌≤◌, ◌<◌, ◌≡◌, refl, sym, subst, [], ◌∷◌, ◌++◌, true, false, if◌then◌else◌,
  leb, All, arith, Bool-cases, inl, inr, Bool, if_true, if_false, nat_eq, pair_eq,
}
use edge_feed_spec.Base.Int.{int_eq}
use edge_feed_spec.Engine.MbpBook.{MbpBook}
use edge_feed_spec.Engine.Mbp.{InstrKey, Instr, max_mbp_journal, record_entry, apply_entry}
use edge_feed_spec.Engine.Mbp.Sequence.{check_mbp_seq}
use edge_feed_spec.Engine.Mbp.Deltas.{apply_delta}
use edge_feed_spec.Engine.Mbp.Publisher.{Publisher, entry, span}
use edge_feed_spec.Engine.Mbp.Arrivals.{
  restarts, check_mbp_seq_first, check_mbp_seq_restart, check_mbp_seq_late, check_mbp_seq_next,
  check_mbp_seq_gap,
}
use edge_feed_spec.Engine.Mbp.Journal.{
  UpTo, UpTo-weaken, Contents, Contents-UpTo, Contents-next, Contents-jump,
}
use edge_feed_spec.Engine.Mbp.Follow.{full, hole_after}
use edge_feed_spec.Engine.Mbp.Following.{
  Trusted, Follows, discarded, advanced, recorded_full, recorded, Trusted-next,
}

module _ (p : Publisher) (t : Instr) (hole : ℕ) (f : Follows p t hole) (epoch : ℕ) (k : InstrKey)
    (seq : ℕ) where
  abbrev After : ℕ → ℕ → Type 0
  After n h = Follows p (apply_delta (check_mbp_seq epoch t k n seq) (entry p n)) h

  abbrev book_after : ℕ → MbpBook
  book_after n = apply_entry t.book (entry p n)

  abbrev taken_in : Bool → ℕ → Instr
  taken_in g n = record_entry (advanced p t (book_after n) g epoch n) (entry p n)

  pub first-Follows :
      (n : ℕ)
      → t.last_seq_set ≡ false
      → n + 2 < 2 ^ 32
      → (t.base_set ≡ true → n ≡ t.base_k)
      → After (suc n) n
  unfolding apply_delta span max_mbp_journal
  first-Follows n unset small joins = rw (check_mbp_seq_first epoch t k (suc n) seq unset) (
      recorded p t (book_after (suc n)) t.gapped epoch (suc n) n (rw empty refl)
        (omega (arith, small)) (omega (arith, (f.unset unset).1))
        (Contents-jump p t.journal n (rw empty tt))
        (λ g o b.
          let tr : Trusted p t = f.trusted g o b in
          record {
            many = 1;
            distinct = tr.distinct;
            base = tr.base;
            journal = rw (empty, sym (joins b)) refl;
            reaches = λ _. omega (arith, joins b);
          }))
    where
      empty : t.journal ≡ []
      empty = (f.unset unset).0

  module _ (set : t.last_seq_set ≡ true) (n : ℕ) (small : n + 1 < 2 ^ 32) where
    late-Follows : n ≤ t.last_seq → After n hole
    unfolding apply_delta
    late-Follows late = elim (Bool-cases (restarts t n)) [
      | inl again ↦
          rw (check_mbp_seq_restart epoch t k n seq set again) (discarded p t hole true (λ h. cc) f)
      | inr over ↦
          rw (check_mbp_seq_late epoch t k n seq set (f.small set) over late)
            (discarded p t hole t.gapped (λ h. h) f)
    ]

    onward : t.last_seq < n → restarts t n ≡ false
    onward later = ground (arith, later)

    journal-UpTo : All (UpTo t.last_seq) t.journal
    journal-UpTo = Contents-UpTo p t.journal hole t.last_seq (f.contents set)

    hole-le-last : hole ≤ t.last_seq
    hole-le-last = omega (arith, (f.contents set).reaches)

    next-Follows : n ≡ t.last_seq + 1 → After n (if full t then n else hole)
    unfolding apply_delta
    next-Follows dense =
        rw (check_mbp_seq_next epoch t k n seq set (f.small set) (onward (omega arith)) dense)
          (elim (Bool-cases (full t)) [
            | inl is_full ↦
                subst (λ h. Follows p (taken_in t.gapped n) h) (sym (if_true n hole _ is_full))
                  (recorded_full p t (book_after n) t.gapped epoch n is_full small
                    (UpTo-weaken t.last_seq n t.journal (omega arith) journal-UpTo)
                    (omega (arith, f.dropped, hole-le-last)))
            | inr room ↦
                subst (λ h. Follows p (taken_in t.gapped n) h) (sym (if_false n hole _ room))
                  (recorded p t (book_after n) t.gapped epoch n hole room small f.dropped
                    (subst (λ i. Contents p (t.journal ++ (entry p i ∷ [])) hole i) (sym is_suc)
                      (Contents-next p t.journal hole t.last_seq (f.contents set)))
                    (λ g o b.
                      subst
                        (λ i. Trusted p (record (advanced p t (book_after n) t.gapped epoch i) {
                          journal = t.journal ++ (entry p i ∷ []);
                        }))
                        (sym is_suc)
                        (Trusted-next p t (book_after n) t.gapped epoch set (f.trusted g o b))))
          ])
      where
        is_suc : n ≡ suc t.last_seq
        is_suc = omega arith

    gap-Follows : t.last_seq + 1 < n → After n (if full t then n else n - 1)
    unfolding apply_delta
    gap-Follows jump =
        rw (check_mbp_seq_gap epoch t k n seq set (f.small set) (onward (omega arith)) jump)
          (elim (Bool-cases (full t)) [
            | inl is_full ↦
                subst (λ h. Follows p (taken_in true n) h) (sym (if_true n (n - 1) _ is_full))
                  (recorded_full p t (book_after n) true epoch n is_full small
                    (UpTo-weaken t.last_seq n t.journal (omega arith) journal-UpTo)
                    (omega (arith, f.dropped, hole-le-last)))
            | inr room ↦
                subst (λ h. Follows p (taken_in true n) h) (sym (if_false n (n - 1) _ room))
                  (recorded p t (book_after n) true epoch n (n - 1) room small
                    (omega (arith, f.dropped, hole-le-last))
                    (subst (λ i. Contents p (t.journal ++ (entry p i ∷ [])) (n - 1) i) is_suc
                      (Contents-jump p t.journal (n - 1)
                        (UpTo-weaken t.last_seq (n - 1) t.journal (omega arith) journal-UpTo)))
                    (λ g _ _. cc))
          ])
      where
        is_suc : suc (n - 1) ≡ n
        is_suc = omega arith

    pub delta-Follows : After n (hole_after t hole n)
    unfolding hole_after
    delta-Follows = elim (Bool-cases (leb n t.last_seq)) [
      | inl late ↦ rw late (late-Follows (ground arith))
      | inr later ↦ elim (Bool-cases (leb n (t.last_seq + 1))) [
        | inl dense ↦ rw (later, dense) (next-Follows (ground arith))
        | inr jump ↦ rw (later, jump) (gap-Follows (ground arith))
      ]
    ]

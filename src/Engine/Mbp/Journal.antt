-- ===== src/Engine/Mbp/Journal.antt =====
-- engine/mbp.go: the journal of a tracker against the deltas of the publisher.
use edge_feed_spec.Base.{
  ℕ, zero, suc, ◌+◌, ◌-◌, ◌≤◌, ◌≡◌, refl, sym, ap, ap₂, ◌∙◌, List, [], ◌∷◌, ◌++◌, true, ltb,
  filter_by, All, All-append, arith, Bool-cases, inl, inr, append_assoc, append-nil, Bool, if_false,
}
use edge_feed_spec.Engine.Mbp.{JournalEntry}
use edge_feed_spec.Engine.Mbp.Publisher.{Publisher, entry, entry_number, span}

abbrev pub UpTo : ℕ → JournalEntry → Type 0
UpTo n e = e.per_seq ≤ n

abbrev pub past : ℕ → JournalEntry → Bool
past k e = ltb k e.per_seq

pub UpTo-weaken : (m n : ℕ) (es : List JournalEntry) → m ≤ n → All (UpTo m) es → All (UpTo n) es
UpTo-weaken m n [] h a = tt
UpTo-weaken m n (e ∷ es) h a = (omega (arith, a.0, h), UpTo-weaken m n es h a.1)

filter_by-append :
    (t : JournalEntry → Bool) (xs ys : List JournalEntry)
    → filter_by t (xs ++ ys) ≡ filter_by t xs ++ filter_by t ys
filter_by-append t [] ys = refl
filter_by-append t (x ∷ xs) ys = ground (arith, filter_by-append t xs ys)

filter_older : (k : ℕ) (es : List JournalEntry) → All (UpTo k) es → filter_by (past k) es ≡ []
filter_older k [] a = refl
filter_older k (e ∷ es) a = ground (arith, a.0, filter_older k es a.1)

filter-UpTo :
    (n : ℕ) (t : JournalEntry → Bool) (es : List JournalEntry)
    → All (UpTo n) es
    → All (UpTo n) (filter_by t es)
filter-UpTo n t [] a = tt
filter-UpTo n t (e ∷ es) a = ground (arith, a.0, filter-UpTo n t es a.1)

module _ (p : Publisher) where
  pub span-end : (n m : ℕ) → span p n m ++ (entry p (suc (n + m)) ∷ []) ≡ span p n (suc m)
  unfolding span
  span-end n zero = ap (λ i. entry p (suc i) ∷ []) same
    where
      same : n + 0 ≡ n
      same = omega arith
  span-end n (suc m) =
      ap (λ es. entry p (suc n) ∷ es)
        (ap (λ i. span p (suc n) m ++ (entry p (suc i) ∷ [])) same ∙ span-end (suc n) m)
    where
      same : n + suc m ≡ suc n + m
      same = omega arith

  pub span-UpTo : (n m : ℕ) → All (UpTo (n + m)) (span p n m)
  unfolding span
  span-UpTo n zero = tt
  span-UpTo n (suc m) = (
    omega (arith, entry_number (suc n) (p.ops (suc n))),
    UpTo-weaken (suc n + m) (n + suc m) (span p (suc n) m) (omega arith) (span-UpTo (suc n) m),
  )

  filter_span_all : (k n m : ℕ) → k ≤ n → filter_by (past k) (span p n m) ≡ span p n m
  unfolding span
  filter_span_all k n zero h = refl
  filter_span_all k n (suc m) h =
      ground (
        arith,
        entry_number (suc n) (p.ops (suc n)),
        filter_span_all k (suc n) m (omega (arith, h)),
      )

  filter_span : (k n m : ℕ) → n ≤ k → filter_by (past k) (span p n m) ≡ span p k (n + m - k)
  unfolding span
  filter_span k n zero h = ap (span p k) none_left
    where
      none_left : 0 ≡ n + 0 - k
      none_left = omega arith
  filter_span k n (suc m) h = elim (Bool-cases (ltb k (suc n))) [
    | inl here ↦
        filter_span_all k n (suc m) (near here)
        ∙ ap (λ i. span p i (suc m)) (same here)
        ∙ ap (span p k) (left here)
    | inr later ↦
        if_false _ _ _ (ap (λ i. ltb k i) (entry_number (suc n) (p.ops (suc n))) ∙ later)
        ∙ filter_span k (suc n) m (ground arith)
        ∙ ap (span p k) fewer
  ]
    where
      near : ltb k (suc n) ≡ true → k ≤ n
      near here = ground arith

      same : ltb k (suc n) ≡ true → n ≡ k
      same here = ground arith

      left : ltb k (suc n) ≡ true → suc m ≡ n + suc m - k
      left here = ground arith

      fewer : suc n + m - k ≡ n + suc m - k
      fewer = omega arith

  -- The journal is the deltas after the hole, up to the last number, behind entries up to the hole.
  pub record Contents (journal : List JournalEntry) (hole last : ℕ) : Type 0 where
    pub older : List JournalEntry
    pub many : ℕ
    pub are_older : All (UpTo hole) older
    pub split : journal ≡ older ++ span p hole many
    pub reaches : hole + many ≡ last

  pub Contents-UpTo :
      (journal : List JournalEntry) (hole last : ℕ)
      → Contents journal hole last
      → All (UpTo last) journal
  Contents-UpTo journal hole last c = rw c.split (
      All-append (UpTo last) c.older (span p hole c.many)
        (UpTo-weaken hole last c.older (omega (arith, c.reaches)) c.are_older)
        (UpTo-weaken (hole + c.many) last (span p hole c.many) (omega (arith, c.reaches))
          (span-UpTo hole c.many)))

  -- The next delta, recorded.
  pub Contents-next :
      (journal : List JournalEntry) (hole last : ℕ)
      → Contents journal hole last
      → Contents (journal ++ (entry p (suc last) ∷ [])) hole (suc last)
  Contents-next journal hole last c = record {
    older = c.older;
    many = suc c.many;
    are_older = c.are_older;
    split =
        ap (λ j. j ++ (entry p (suc last) ∷ [])) c.split
        ∙ append_assoc c.older (span p hole c.many) (entry p (suc last) ∷ [])
        ∙ ap (λ i. c.older ++ (span p hole c.many ++ (entry p (suc i) ∷ []))) (sym c.reaches)
        ∙ ap (λ es. c.older ++ es) (span-end hole c.many);
    reaches = omega (arith, c.reaches);
  }

  -- A later delta, recorded behind the journal.
  pub Contents-jump :
      (journal : List JournalEntry) (n : ℕ)
      → All (UpTo n) journal
      → Contents (journal ++ (entry p (suc n) ∷ [])) n (suc n)
  unfolding span
  Contents-jump journal n a = record {
    older = journal;
    many = 1;
    are_older = a;
    split = refl;
    reaches = omega arith;
  }

  -- A delta that was not recorded.
  pub Contents-drop :
      (journal : List JournalEntry) (n : ℕ) → All (UpTo n) journal → Contents journal n n
  unfolding span
  Contents-drop journal n a = record {
    older = journal;
    many = 0;
    are_older = a;
    split = sym (append-nil journal);
    reaches = omega arith;
  }

  -- The entries past a number from the hole on: the deltas after it.
  pub filter_journal :
      (journal : List JournalEntry) (hole last k : ℕ)
      → Contents journal hole last
      → hole ≤ k
      → filter_by (past k) journal ≡ span p k (last - k)
  filter_journal journal hole last k c h =
      ap (filter_by (past k)) c.split
      ∙ filter_by-append (past k) c.older (span p hole c.many)
      ∙ ap₂ (λ a b. a ++ b) (filter_older k c.older (UpTo-weaken hole k c.older h c.are_older))
          (filter_span k hole c.many h)
      ∙ ap (λ i. span p k (i - k)) c.reaches

  -- The entries past a number before the hole keep all the deltas after the hole.
  pub Contents-filter :
      (journal : List JournalEntry) (hole last k : ℕ)
      → Contents journal hole last
      → k ≤ hole
      → Contents (filter_by (past k) journal) hole last
  Contents-filter journal hole last k c h = record {
    older = filter_by (past k) c.older;
    many = c.many;
    are_older = filter-UpTo hole (past k) c.older c.are_older;
    split =
        ap (filter_by (past k)) c.split
        ∙ filter_by-append (past k) c.older (span p hole c.many)
        ∙ ap (λ es. filter_by (past k) c.older ++ es) (filter_span_all k hole c.many h);
    reaches = c.reaches;
  }

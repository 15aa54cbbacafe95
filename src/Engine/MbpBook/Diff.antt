-- ===== src/Engine/MbpBook/Diff.antt =====
-- The difference of two ladders.
use edge_feed_spec.Base.{
  ℕ, ◌≡◌, ◌≢◌, ◌↔◌, Eq, sym, refl, ◌∙◌, inl, inr, List, [], ◌∷◌, ◌++◌, none, some, arith,
  Bool-cases, Option-cases, nat_eq, pair_eq,
}
use edge_feed_spec.Base.Int.{int_eq}
use edge_feed_spec.Base.Maps.{lookup, Distinct}
use edge_feed_spec.Engine.MbpBook.{LevelKey, Levels, diff_book, diff_snap, diff_mbp_levels}

abbrev level_eq : Eq LevelKey
level_eq = pair_eq

diff_book-agrees :
    (m snap : Levels) (k : LevelKey) (q : ℕ)
    → diff_book m snap ≡ []
    → lookup k m ≡ some q
    → lookup k snap ≡ some q
unfolding diff_book lookup
diff_book-agrees [] snap k q h e = cc
diff_book-agrees ((j, w) ∷ m) snap k q h e = elim (Bool-cases (level_eq.beq j k)) [
  | inl same ↦ ground (arith, (level_eq.beq_iff j k).0 same)
  | inr other ↦ diff_book-agrees m snap k q (ground arith) (ground arith)
]

diff_snap-covered :
    (m book : Levels) (k : LevelKey) (q : ℕ)
    → diff_snap m book ≡ []
    → lookup k m ≡ some q
    → lookup k book ≢ none
unfolding diff_snap lookup
diff_snap-covered [] book k q h e = cc
diff_snap-covered ((j, w) ∷ m) book k q h e = elim (Bool-cases (level_eq.beq j k)) [
  | inl same ↦ ground (arith, (level_eq.beq_iff j k).0 same)
  | inr other ↦ diff_snap-covered m book k q (ground arith) (ground arith)
]

-- The entries of a distinct map are what lookup finds, also when the head is taken off.
lookup_tail :
    (j : LevelKey) (w : ℕ) (m : Levels) (k : LevelKey) (q : ℕ)
    → lookup j m ≡ none
    → lookup k m ≡ some q
    → lookup k ((j, w) ∷ m) ≡ some q
unfolding lookup
lookup_tail j w m k q d e = elim (Bool-cases (level_eq.beq j k)) [
  | inl same ↦ ground (arith, (level_eq.beq_iff j k).0 same)
  | inr other ↦ ground arith
]

lookup_head : (j : LevelKey) (w : ℕ) (m : Levels) → lookup j ((j, w) ∷ m) ≡ some w
unfolding lookup
lookup_head j w m = rw ((level_eq.beq_iff j j).1 refl) refl

diff_book_nil :
    (m snap : Levels)
    → Distinct m
    → ((k : LevelKey) (q : ℕ) → lookup k m ≡ some q → lookup k snap ≡ some q)
    → diff_book m snap ≡ []
unfolding diff_book
diff_book_nil [] snap d h = refl
diff_book_nil ((j, w) ∷ m) snap d h = ground (
  arith,
  h j w (lookup_head j w m),
  diff_book_nil m snap d.1 (λ k q e. h k q (lookup_tail j w m k q d.0 e)),
)

diff_snap_nil :
    (m book : Levels)
    → Distinct m
    → ((k : LevelKey) (q : ℕ) → lookup k m ≡ some q → lookup k book ≡ some q)
    → diff_snap m book ≡ []
unfolding diff_snap
diff_snap_nil [] book d h = refl
diff_snap_nil ((j, w) ∷ m) book d h = ground (
  arith,
  h j w (lookup_head j w m),
  diff_snap_nil m book d.1 (λ k q e. h k q (lookup_tail j w m k q d.0 e)),
)

append_nil_parts {ℓ} : {A : Type ℓ} (xs ys : List A) → xs ++ ys ≡ [] → (xs ≡ []) × (ys ≡ [])
append_nil_parts [] ys h = (refl, h)
append_nil_parts (x ∷ xs) ys h = cc

-- The reported difference of two ladders with one entry for each key is empty exactly if they hold
-- the same quantity, or none, at every side and price.
pub diff-eq-nil_iff :
    (book snap : Levels)
    → Distinct book
    → Distinct snap
    → (diff_mbp_levels book snap ≡ []) ↔ ((k : LevelKey) → lookup k book ≡ lookup k snap)
unfolding diff_mbp_levels
diff-eq-nil_iff book snap db ds = (agree, same)
  where
    agree :
        diff_book book snap ++ diff_snap snap book ≡ []
        → (k : LevelKey) → lookup k book ≡ lookup k snap
    agree h = λ k.
        let (h1, h2) = append_nil_parts (diff_book book snap) (diff_snap snap book) h in
        elim (Option-cases (lookup k book)) [
          | inr (q, e) ↦ e ∙ sym (diff_book-agrees book snap k q h1 e)
          | inl e ↦ elim (Option-cases (lookup k snap)) [
            | inl e' ↦ e ∙ sym e'
            | inr (s, e') ↦ absurd (diff_snap-covered snap book k s h2 e' e)
          ]
        ]

    same :
        ((k : LevelKey) → lookup k book ≡ lookup k snap)
        → diff_book book snap ++ diff_snap snap book ≡ []
    same h =
        rw
          (
            diff_book_nil book snap db (λ k q e. sym (h k) ∙ e),
            diff_snap_nil snap book ds (λ k q e. h k ∙ e),
          )
          refl

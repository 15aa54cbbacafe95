-- ===== src/Base/Slices.antt =====
-- Lemmas on `take`, `drop` and `get_elem?` at an offset.
use Prim.Native.Nat.{ℕ, zero, suc, ◌+◌, ◌≤◌}
use mathlib.Core.Path.{◌≡◌, refl, ap}
use mathlib.Core.List.{List, [], ◌∷◌, ◌++◌}
use native.Mathlib.Omega.{arith}
use edge_feed_spec.Base.Lists.{length, get_elem?, take, drop}

suc_add : (k i : ℕ) → suc k + i ≡ suc (k + i)
suc_add k i = omega arith

module _ {ℓ} {A : Type ℓ} where
  pub get_elem?-add : (xs : List A) (k i : ℕ) → get_elem? xs (k + i) ≡ get_elem? (drop k xs) i
  get_elem?-add xs zero i = ground arith
  get_elem?-add [] (suc k) i = refl
  get_elem?-add (x ∷ xs) (suc k) i = ground (arith, get_elem?-add xs k i)

  pub drop-nil : (n : ℕ) → ◌≡◌ {A = List A} (drop n []) []
  drop-nil zero = refl
  drop-nil (suc n) = refl

  pub drop-add : (xs : List A) (k i : ℕ) → drop (k + i) xs ≡ drop i (drop k xs)
  drop-add xs zero i = ground arith
  drop-add [] (suc k) i = ground (arith, drop-nil (suc k + i), drop-nil i)
  drop-add (x ∷ xs) (suc k) i = rw (suc_add k i) (drop-add xs k i)

  pub take-append-drop : (n : ℕ) (xs : List A) → take n xs ++ drop n xs ≡ xs
  take-append-drop zero xs = refl
  take-append-drop (suc n) [] = refl
  take-append-drop (suc n) (x ∷ xs) = rw (take-append-drop n xs)

  pub length-take_of_le : (n : ℕ) (xs : List A) → n ≤ length xs → length (take n xs) ≡ n
  length-take_of_le zero xs h = refl
  length-take_of_le (suc n) [] h = absurd (omega arith)
  length-take_of_le (suc n) (x ∷ xs) h = ap suc (length-take_of_le n xs (omega arith))

  pub take-append : (xs ys : List A) (n : ℕ) → n ≡ length xs → take n (xs ++ ys) ≡ xs
  take-append [] ys n h = ground arith
  take-append (x ∷ xs) ys zero h = absurd (omega arith)
  take-append (x ∷ xs) ys (suc n) h = ap (◌∷◌ x) (take-append xs ys n (omega arith))

  pub drop-append : (xs ys : List A) (n : ℕ) → n ≡ length xs → drop n (xs ++ ys) ≡ ys
  drop-append [] ys n h = ground arith
  drop-append (x ∷ xs) ys zero h = absurd (omega arith)
  drop-append (x ∷ xs) ys (suc n) h = drop-append xs ys n (omega arith)

  -- The first four elements of a list that has them.
  pub four_of :
      (d : List A)
      → 4 ≤ length d
      → (a : A) × (b : A) × (c : A) × (e : A) × (rest : List A) × (d ≡ a ∷ b ∷ c ∷ e ∷ rest)
  four_of (a ∷ b ∷ c ∷ e ∷ rest) h = (a, b, c, e, rest, refl)
  four_of [] h = absurd (omega arith)
  four_of (a ∷ []) h = absurd (omega arith)
  four_of (a ∷ b ∷ []) h = absurd (omega arith)
  four_of (a ∷ b ∷ c ∷ []) h = absurd (omega arith)

  pub take-append-ge :
      (xs ys : List A) (n k : ℕ) → n ≡ length xs + k → take n (xs ++ ys) ≡ xs ++ take k ys
  take-append-ge [] ys n k h = ap (λ (j : ℕ). take j ys) (omega arith)
  take-append-ge (x ∷ xs) ys zero k h = absurd (omega arith)
  take-append-ge (x ∷ xs) ys (suc n) k h = ap (◌∷◌ x) (take-append-ge xs ys n k (omega arith))

-- ===== src/Base/Exec.antt =====
-- The outcome of Go code that indexes slices and loops: a value, a run-time panic, or a loop
-- that the model's fuel did not let finish.
use Prim.Native.Nat.{ℕ}
use mathlib.Core.Path.{◌≡◌, refl, sym, subst}
use mathlib.Core.List.{List}
use mathlib.Core.Option.{Option, none, some}
use edge_feed_spec.Base.Lists.{get_elem?}

pub data Exec {ℓ} (A : Type ℓ) : Type ℓ where
  done : A → Exec A
  panic : Exec A
  out_of_fuel : Exec A

infixl 5 ◌>>=◌
abbrev pub ◌>>=◌ {ℓ κ} : {A : Type ℓ} {B : Type κ} → Exec A → (A → Exec B) → Exec B
done a >>= f = f a
panic >>= f = panic
out_of_fuel >>= f = out_of_fuel

-- `s[i]`: an index out of range panics.
abbrev pub or_panic {ℓ} : {A : Type ℓ} → Option A → Exec A
or_panic none = panic
or_panic (some a) = done a

unfoldable pub index {ℓ} : {A : Type ℓ} → List A → ℕ → Exec A
index xs i = or_panic (get_elem? xs i)

-- Total correctness: the code returns, and what it returns satisfies `P`.
abbrev pub Finishes {ℓ} : {A : Type ℓ} → Exec A → (A → Type 0) → Type 0
Finishes (done a) P = P a
Finishes panic P = ⊥
Finishes out_of_fuel P = ⊥

module _ {ℓ κ} {A : Type ℓ} {B : Type κ} where
  pub >>=-Finishes :
      (m : Exec A) (f : A → Exec B) (P : A → Type 0) (Q : B → Type 0)
      → Finishes m P
      → ((a : A) → P a → Finishes (f a) Q)
      → Finishes (m >>= f) Q
  >>=-Finishes (done a) f P Q h k = k a h
  >>=-Finishes panic f P Q h k = h
  >>=-Finishes out_of_fuel f P Q h k = h

module _ {ℓ} {A : Type ℓ} where
  -- The value that finishing code returns.
  pub Finishes-value : (m : Exec A) (P : A → Type 0) → Finishes m P → (a : A) × (m ≡ done a) × P a
  Finishes-value (done a) P h = (a, refl, h)
  Finishes-value panic P h = absurd h
  Finishes-value out_of_fuel P h = absurd h

  pub Finishes_of : (m : Exec A) (P : A → Type 0) (a : A) → m ≡ done a → P a → Finishes m P
  Finishes_of m P a e p = subst (λ x. Finishes x P) (sym e) p

  pub Finishes_at : (m : Exec A) (P : A → Type 0) (a : A) → m ≡ done a → Finishes m P → P a
  Finishes_at m P a e p = subst (λ x. Finishes x P) e p

  pub Finishes-map :
      (m : Exec A) (P Q : A → Type 0) → Finishes m P → ((a : A) → P a → Q a) → Finishes m Q
  Finishes-map (done a) P Q h k = k a h
  Finishes-map panic P Q h k = h
  Finishes-map out_of_fuel P Q h k = h

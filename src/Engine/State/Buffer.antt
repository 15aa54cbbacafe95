-- ===== src/Engine/State/Buffer.antt =====
-- engine/state.go, `portBuffer`: pushes on the reorder buffer and the pop past the window.
use edge_feed_spec.Base.{
  ℕ, suc, ◌+◌, ◌≤◌, ◌≡◌, refl, List, [], ◌∷◌, ◌++◌, Bool, true, false, ltb, if◌then◌else◌, length,
  All, arith, Bool-cases, inl, inr,
}
use edge_feed_spec.Engine.State.{BufferItem, PortBuffer, less, heap_push, pop_over}

-- `y` does not go before `x`.
abbrev pub Before : BufferItem → BufferItem → Type 0
Before x y = less y x ≡ false

abbrev pub Sorted : PortBuffer → Type 0
Sorted [] = Unit {0}
Sorted (x ∷ xs) = All (Before x) xs × Sorted xs

-- How many items pass a test.
abbrev pub count : (BufferItem → Bool) → List BufferItem → ℕ
count p [] = 0
count p (x ∷ xs) = let rest = count p xs in if p x then suc rest else rest

pub count-append :
    (p : BufferItem → Bool) (xs ys : List BufferItem) → count p (xs ++ ys) ≡ count p xs + count p ys
count-append p [] ys = omega arith
count-append p (x ∷ xs) ys = ground (arith, count-append p xs ys)

pub length-heap_push :
    (b : BufferItem) (xs : PortBuffer) → length (heap_push b xs) ≡ suc (length xs)
unfolding heap_push
length-heap_push b [] = refl
length-heap_push b (x ∷ xs) = ground (arith, length-heap_push b xs)

pub count-heap_push :
    (p : BufferItem → Bool) (b : BufferItem) (xs : PortBuffer)
    → count p (heap_push b xs) ≡ count p (b ∷ xs)
unfolding heap_push
count-heap_push p b [] = refl
count-heap_push p b (x ∷ xs) = ground (arith, count-heap_push p b xs)

pub All-heap_push :
    (P : BufferItem → Type 0) (b : BufferItem) (xs : PortBuffer)
    → P b
    → All P xs
    → All P (heap_push b xs)
unfolding heap_push
All-heap_push P b [] h hs = (h, tt)
All-heap_push P b (x ∷ xs) h hs = elim (Bool-cases (less b x)) [
  | inl e ↦ rw e (h, hs)
  | inr e ↦ rw e (hs.0, All-heap_push P b xs h hs.1)
]

Before-trans : (x y z : BufferItem) → Before x y → Before y z → Before x z
unfolding less
Before-trans x y z h k = ground arith

less-Before : (x y : BufferItem) → less x y ≡ true → Before x y
unfolding less
less-Before x y h = ground arith

All-Before :
    (x y : BufferItem) (zs : PortBuffer) → Before x y → All (Before y) zs → All (Before x) zs
All-Before x y [] h k = tt
All-Before x y (z ∷ zs) h k = (Before-trans x y z h k.0, All-Before x y zs h k.1)

pub heap_push-Sorted : (b : BufferItem) (xs : PortBuffer) → Sorted xs → Sorted (heap_push b xs)
unfolding heap_push
heap_push-Sorted b [] s = (tt, tt)
heap_push-Sorted b (x ∷ xs) s = elim (Bool-cases (less b x)) [
  | inl e ↦ rw e ((less-Before b x e, All-Before b x xs (less-Before b x e) s.0), s)
  | inr e ↦ rw e (All-heap_push (Before x) b xs e s.0, heap_push-Sorted b xs s.1)
]

-- What the pop past the window does: at most one item comes out, none goes before it, and none is
-- lost.
pub record Popped (window : ℕ) (xs : PortBuffer) (r : List BufferItem × PortBuffer) : Type 0 where
  pub kept_few : length r.1 ≤ window
  pub kept_sorted : Sorted r.1
  pub first : All (λ x. All (Before x) r.1) r.0
  pub few : length r.0 ≤ 1
  pub none_lost : (p : BufferItem → Bool) → count p r.0 + count p r.1 ≡ count p xs

pub pop_over-Popped :
    (xs : PortBuffer) (window : ℕ)
    → Sorted xs
    → length xs ≤ suc window
    → Popped window xs (pop_over xs window)
unfolding pop_over
pop_over-Popped [] window s h = record {
  kept_few = omega arith;
  kept_sorted = tt;
  first = tt;
  few = omega arith;
  none_lost = λ p. refl;
}
pop_over-Popped (x ∷ xs) window s h = elim (Bool-cases (ltb window (length (x ∷ xs)))) [
  | inl e ↦ rw e (record {
    kept_few = omega arith;
    kept_sorted = s.1;
    first = (s.0, tt);
    few = omega arith;
    none_lost = λ p. ground arith;
  })
  | inr e ↦ rw e (record {
    kept_few = ground arith;
    kept_sorted = s;
    first = tt;
    few = omega arith;
    none_lost = λ p. omega arith;
  })
]

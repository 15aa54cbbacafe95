-- ===== src/Base/Maps.antt =====
-- A Go map as an association list: `m[k]`, `m[k] = v`, `delete(m, k)` and `len(m)`.
use Prim.Native.Nat.{suc}
use mathlib.Core.Path.{◌≡◌, refl}
use mathlib.Core.Logic.{◌⊎◌, inl, inr}
use mathlib.Core.List.{List, [], ◌∷◌}
use mathlib.Core.Bool.{Bool}
use mathlib.Core.Option.{Option, none, some}
use native.Mathlib.Omega.{arith}
use edge_feed_spec.Base.Tests.{if◌then◌else◌, Eq, Bool-cases}
use edge_feed_spec.Base.Lists.{length, filter_by}

module _ {ℓ κ} {K : Type ℓ} {V : Type κ} ⦃e : Eq K⦄ where
  unfoldable pub lookup : K → List (K × V) → Option V
  lookup k [] = none
  lookup k ((j, v) ∷ m) = if e.beq j k then some v else lookup k m

  unfoldable pub put : K → V → List (K × V) → List (K × V)
  put k v [] = (k, v) ∷ []
  put k v ((j, w) ∷ m) = if e.beq j k then (k, v) ∷ m else (j, w) ∷ put k v m

  unfoldable pub delete : K → List (K × V) → List (K × V)
  delete k [] = []
  delete k ((j, w) ∷ m) = let rest = delete k m in if e.beq j k then rest else (j, w) ∷ rest

  -- Every key stands once.
  abbrev pub Distinct : List (K × V) → Type κ
  Distinct [] = Unit {κ}
  Distinct ((j, w) ∷ m) = (lookup j m ≡ none) × Distinct m

  pub lookup-put :
      (k : K) (v : V) (j : K) (m : List (K × V))
      → lookup j (put k v m) ≡ (if e.beq k j then some v else lookup j m)
  unfolding lookup put
  lookup-put k v j [] = refl
  lookup-put k v j ((i, w) ∷ m) =
      ground (arith, e.beq_iff k j, e.beq_iff i k, e.beq_iff i j, lookup-put k v j m)

  pub lookup-delete :
      (k j : K) (m : List (K × V))
      → lookup j (delete k m) ≡ (if e.beq k j then none else lookup j m)
  unfolding lookup delete
  lookup-delete k j [] = ground arith
  lookup-delete k j ((i, w) ∷ m) =
      ground (arith, e.beq_iff k j, e.beq_iff i k, e.beq_iff i j, lookup-delete k j m)

  pub put-Distinct : (k : K) (v : V) (m : List (K × V)) → Distinct m → Distinct (put k v m)
  unfolding put lookup
  put-Distinct k v [] d = ground arith
  put-Distinct k v ((j, w) ∷ m) d =
      ground (arith, e.beq_iff j k, e.beq_iff k j, lookup-put k v j m, put-Distinct k v m d.1)

  pub delete-Distinct : (k : K) (m : List (K × V)) → Distinct m → Distinct (delete k m)
  unfolding delete
  delete-Distinct k [] d = d
  delete-Distinct k ((j, w) ∷ m) d = ground (arith, lookup-delete k j m, delete-Distinct k m d.1)

  pub length-put :
      (k : K) (v : V) (m : List (K × V))
      → ((lookup k m ≡ none) × (length (put k v m) ≡ suc (length m)))
        ⊎ ((w : V) × (lookup k m ≡ some w) × (length (put k v m) ≡ length m))
  unfolding lookup put
  length-put k v [] = ground arith
  length-put k v ((j, w) ∷ m) = ground (arith, length-put k v m)

  delete_absent : (k : K) (m : List (K × V)) → lookup k m ≡ none → delete k m ≡ m
  unfolding lookup delete
  delete_absent k [] h = refl
  delete_absent k ((j, w) ∷ m) h = ground (arith, delete_absent k m)

  pub length-delete :
      (k : K) (m : List (K × V))
      → Distinct m
      → ((lookup k m ≡ none) × (delete k m ≡ m))
        ⊎ ((w : V) × (lookup k m ≡ some w) × (suc (length (delete k m)) ≡ length m))
  unfolding lookup delete
  length-delete k [] d = ground arith
  length-delete k ((j, w) ∷ m) d =
      ground (arith, e.beq_iff j k, delete_absent k m, length-delete k m d.1)

  -- A loop over the map that deletes the keys that fail a test.
  pub lookup-filter_by :
      (p : K → Bool) (k : K) (m : List (K × V))
      → lookup k (filter_by (λ x. p x.0) m) ≡ (if p k then lookup k m else none)
  unfolding lookup
  lookup-filter_by p k [] = ground arith
  lookup-filter_by p k ((j, w) ∷ m) = elim (Bool-cases (e.beq j k)) [
    | inl same ↦ ground (arith, (e.beq_iff j k).0 same, lookup-filter_by p k m)
    | inr other ↦ ground (arith, lookup-filter_by p k m)
  ]

  pub filter_by-Distinct :
      (p : K → Bool) (m : List (K × V)) → Distinct m → Distinct (filter_by (λ x. p x.0) m)
  filter_by-Distinct p [] d = d
  filter_by-Distinct p ((j, w) ∷ m) d =
      ground (arith, lookup-filter_by p j m, filter_by-Distinct p m d.1)

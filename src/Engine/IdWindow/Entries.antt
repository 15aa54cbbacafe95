-- ===== src/Engine/IdWindow/Entries.antt =====
-- Queue entries against the members: order, coverage, and counting.
use edge_feed_spec.Base.{
  ℕ, ◌≤◌, ◌<◌, ◌≡◌, ◌↔◌, refl, ap, sym, ◌∙◌, ◌⊎◌, inl, inr, List, [], ◌∷◌, ◌++◌, none, some, Bool,
  true, ◌==◌, ◌&&◌, ==_iff, length, filter_by, nat_eq, arith, Bool-cases, if◌then◌else◌,
}
use edge_feed_spec.Base.Maps.{
  lookup, delete, Distinct, lookup-delete, length-delete, delete-Distinct,
}
use edge_feed_spec.Engine.IdWindow.{Entry, is_current}

-- The numbers rise from above `lo` to at most `hi`.
abbrev pub Rising : ℕ → List Entry → ℕ → Type 0
Rising lo [] hi = lo ≤ hi
Rising lo (e ∷ es) hi = (lo < e.n) × Rising e.n es hi

abbrev pub Holds : ℕ → ℕ → List Entry → Type 0
Holds id n [] = ⊥
Holds id n (e ∷ es) = ((e.id ≡ id) × (e.n ≡ n)) ⊎ Holds id n es

-- Every member's number stands in the queue.
abbrev pub Covered : List (ℕ × ℕ) → List Entry → Type 0
Covered members es = (id n : ℕ) → lookup id members ≡ some n → Holds id n es

pub Rising-append :
    (lo : ℕ) (es : List Entry) (hi id n : ℕ)
    → Rising lo es hi
    → hi < n
    → Rising lo (es ++ (record { id = id; n = n } ∷ [])) n
Rising-append lo [] hi id n r h = (omega arith, omega arith)
Rising-append lo (e ∷ es) hi id n r h = (r.0, Rising-append e.n es hi id n r.1 h)

Rising-weaken :
    (lo lo' : ℕ) (es : List Entry) (hi : ℕ) → lo' ≤ lo → Rising lo es hi → Rising lo' es hi
Rising-weaken lo lo' [] hi h r = omega arith
Rising-weaken lo lo' (e ∷ es) hi h r = (omega arith, r.1)

Rising-le : (lo : ℕ) (es : List Entry) (hi : ℕ) → Rising lo es hi → lo ≤ hi
Rising-le lo [] hi r = r
Rising-le lo (e ∷ es) hi r = omega (arith, Rising-le e.n es hi r.1)

pub Rising-lt : (lo : ℕ) (es : List Entry) (hi : ℕ) → Rising lo es hi → 1 ≤ length es → lo < hi
Rising-lt lo [] hi r h = absurd (omega arith)
Rising-lt lo (e ∷ es) hi r h = omega (arith, Rising-le e.n es hi r.1)

pub Rising-lower : (lo : ℕ) (es : List Entry) (hi : ℕ) → Rising lo es hi → Rising 0 es hi
Rising-lower lo es hi r = Rising-weaken lo 0 es hi (omega arith) r

pub Rising-filter_by :
    (p : Entry → Bool) (lo : ℕ) (es : List Entry) (hi : ℕ)
    → Rising lo es hi
    → Rising lo (filter_by p es) hi
Rising-filter_by p lo [] hi r = r
Rising-filter_by p lo (e ∷ es) hi r = elim (Bool-cases (p e)) [
  | inl h ↦ rw h (r.0, Rising-filter_by p e.n es hi r.1)
  | inr h ↦ rw h (Rising-weaken e.n lo _ hi (omega arith) (Rising-filter_by p e.n es hi r.1))
]

pub Holds-gt : (lo id n : ℕ) (es : List Entry) (hi : ℕ) → Rising lo es hi → Holds id n es → lo < n
Holds-gt lo id n (e ∷ es) hi r (inl h) = omega arith
Holds-gt lo id n (e ∷ es) hi r (inr h) = omega (arith, Holds-gt e.n id n es hi r.1 h)
Holds-gt lo id n [] hi r h = absurd h

pub Holds-le : (lo id n : ℕ) (es : List Entry) (hi : ℕ) → Rising lo es hi → Holds id n es → n ≤ hi
Holds-le lo id n (e ∷ es) hi r (inl h) = omega (arith, Rising-le e.n es hi r.1)
Holds-le lo id n (e ∷ es) hi r (inr h) = Holds-le e.n id n es hi r.1 h
Holds-le lo id n [] hi r h = absurd h

pub Holds-append : (id n : ℕ) (es fs : List Entry) → Holds id n es → Holds id n (es ++ fs)
Holds-append id n (e ∷ es) fs (inl h) = inl h
Holds-append id n (e ∷ es) fs (inr h) = inr (Holds-append id n es fs h)
Holds-append id n [] fs h = absurd h

pub Holds-last : (id n : ℕ) (es : List Entry) → Holds id n (es ++ (record { id = id; n = n } ∷ []))
Holds-last id n [] = inl (refl, refl)
Holds-last id n (e ∷ es) = inr (Holds-last id n es)

-- Filtering keeps the entries that pass.
pub Holds-filter_by :
    (p : Entry → Bool) (id n : ℕ) (es : List Entry)
    → p (record { id = id; n = n }) ≡ true
    → Holds id n es
    → Holds id n (filter_by p es)
Holds-filter_by p id n (e ∷ es) h (inl q) =
    let e-eq : e ≡ record { id = id; n = n } = ground arith in rw (ap p e-eq ∙ h) (inl q)
Holds-filter_by p id n (e ∷ es) h (inr q) = elim (Bool-cases (p e)) [
  | inl b ↦ rw b (inr (Holds-filter_by p id n es h q))
  | inr b ↦ rw b (Holds-filter_by p id n es h q)
]
Holds-filter_by p id n [] h q = absurd q

pub is_current_iff :
    (members : List (ℕ × ℕ)) (e : Entry)
    → (is_current members e ≡ true) ↔ (lookup e.id members ≡ some e.n)
unfolding is_current
is_current_iff members e = (λ h. ground arith, λ h. ground arith)

-- The members once the entry at the head is dropped.
abbrev pub without : List (ℕ × ℕ) → Entry → List (ℕ × ℕ)
without members e = if is_current members e then delete e.id members else members

pub Covered-without :
    (members : List (ℕ × ℕ)) (e : Entry) (es : List Entry)
    → Covered members (e ∷ es)
    → Covered (without members e) es
Covered-without members e es c =
    λ id n h. ground (arith, c id n, lookup-delete e.id id members, is_current_iff members e)

pub without-Distinct :
    (members : List (ℕ × ℕ)) (e : Entry) → Distinct members → Distinct (without members e)
without-Distinct members e d = ground (arith, delete-Distinct e.id members d)

pub lookup-without :
    (members : List (ℕ × ℕ)) (e : Entry) (j : ℕ)
    → lookup j (without members e)
      ≡ (if is_current members e && (e.id == j) then none else lookup j members)
lookup-without members e j = ground (arith, lookup-delete e.id j members)

-- A later entry is current after the drop exactly if it was before.
is_current-without :
    (members : List (ℕ × ℕ)) (e f : Entry)
    → e.n < f.n
    → is_current (without members e) f ≡ is_current members f
unfolding is_current
is_current-without members e f h =
    ground (arith, lookup-delete e.id f.id members, is_current_iff members e)

filter_by-without :
    (members : List (ℕ × ℕ)) (e : Entry) (lo : ℕ) (es : List Entry) (hi : ℕ)
    → e.n ≤ lo
    → Rising lo es hi
    → filter_by (is_current (without members e)) es ≡ filter_by (is_current members) es
filter_by-without members e lo [] hi h r = refl
filter_by-without members e lo (f ∷ es) hi h r =
    rw
      (
        is_current-without members e f (omega arith),
        filter_by-without members e f.n es hi (omega arith) r.1,
      )
      refl

empty_of_uncovered : (members : List (ℕ × ℕ)) → Covered members [] → length members ≡ 0
empty_of_uncovered [] c = refl
empty_of_uncovered ((j, w) ∷ m) c = absurd (c j w (unfold lookup in rw ((==_iff j j).1 refl) refl))

-- The current entries of the queue are as many as the members.
pub length-filter_by-current :
    (members : List (ℕ × ℕ)) (lo : ℕ) (es : List Entry) (hi : ℕ)
    → Distinct members
    → Covered members es
    → Rising lo es hi
    → length (filter_by (is_current members) es) ≡ length members
length-filter_by-current members lo [] hi d c r = sym (empty_of_uncovered members c)
length-filter_by-current members lo (e ∷ es) hi d c r = ground (
  arith,
  is_current_iff members e,
  length-delete e.id members d,
  filter_by-without members e e.n es hi (omega arith) r.1,
  length-filter_by-current (without members e) e.n es hi (without-Distinct members e d)
      (Covered-without members e es c) r.1,
)

-- ===== src/Engine/Dedup/Ring.antt =====
-- engine/state.go, `recordHash`: the ring of keys against the map of hashes.
use edge_feed_spec.Base.{
  ℕ, zero, suc, ◌+◌, ◌%◌, ◌≤◌, ◌<◌, ◌≡◌, refl, sym, ap, ◌∙◌, List, [], ◌∷◌, none, some, Bool, false,
  ◌&&◌, ltb, ◌==◌, if◌then◌else◌, length, set, get_elem?, length-set, nat_eq, pair_eq, arith,
  Bool-cases, inl, inr, ◌⊎◌, ltb-false, ltb→lt, pair_beq_iff,
}
use native.Mathlib.Nat.{mod-lt, mod-eq_of_lt}
use edge_feed_spec.Base.Maps.{
  lookup, put, delete, Distinct, lookup-put, lookup-delete, put-Distinct, delete-Distinct,
  length-put, length-delete,
}
use edge_feed_spec.Base.Exec.{index, Finishes, >>=-Finishes}
use edge_feed_spec.Engine.State.{PortTracker, EraSeq}
use edge_feed_spec.Engine.Dedup.{evict_slot, record_hash}

get_elem?-set {ℓ} :
    {A : Type ℓ} (xs : List A) (i : ℕ) (v : A) (j : ℕ)
    → i < length xs
    → get_elem? (set xs i v) j ≡ (if i == j then some v else get_elem? xs j)
get_elem?-set [] i v j h = absurd (omega arith)
get_elem?-set (x ∷ xs) zero v zero h = refl
get_elem?-set (x ∷ xs) zero v (suc j) h = ground arith
get_elem?-set (x ∷ xs) (suc i) v zero h = ground arith
get_elem?-set (x ∷ xs) (suc i) v (suc j) h = get_elem?-set xs i v j (omega arith) ∙ ground arith

get_elem?-inside {ℓ} :
    {A : Type ℓ} (xs : List A) (i : ℕ) → i < length xs → (a : A) × (get_elem? xs i ≡ some a)
get_elem?-inside [] i h = absurd (omega arith)
get_elem?-inside (x ∷ xs) zero h = (x, refl)
get_elem?-inside (x ∷ xs) (suc i) h = get_elem?-inside xs i (omega arith)

pub record IsRing (t : PortTracker) : Type 0 where
  pub some_slot : 0 < t.hash_ring_cap
  pub allocated : length t.hash_ring ≡ t.hash_ring_cap
  pub size_fits : t.hash_ring_size ≤ t.hash_ring_cap
  pub pos_fits : t.hash_ring_pos < t.hash_ring_cap
  pub filling : (t.hash_ring_size ≡ t.hash_ring_cap) ⊎ (t.hash_ring_pos ≡ t.hash_ring_size)
  pub distinct : Distinct t.payload_hashes
  pub as_many : length t.payload_hashes ≡ t.hash_ring_size
  pub present :
      (i : ℕ) (key : EraSeq)
      → i < t.hash_ring_size
      → get_elem? t.hash_ring i ≡ some key
      → (h : ℕ) × (lookup key t.payload_hashes ≡ some h)
  pub apart :
      (i j : ℕ) (key : EraSeq)
      → i < t.hash_ring_size
      → j < t.hash_ring_size
      → get_elem? t.hash_ring i ≡ some key
      → get_elem? t.hash_ring j ≡ some key
      → i ≡ j

-- The ring after the slot at its position is freed.
record IsFreed (t t' : PortTracker) (key : EraSeq) : Type 0 where
  same_ring : t'.hash_ring ≡ t.hash_ring
  same_cap : t'.hash_ring_cap ≡ t.hash_ring_cap
  same_pos : t'.hash_ring_pos ≡ t.hash_ring_pos
  same_last : t'.last_seq ≡ t.last_seq
  size_fits : t'.hash_ring_size ≤ t.hash_ring_cap
  pos_inside : t.hash_ring_pos < t'.hash_ring_size
  filling : (t'.hash_ring_size ≡ t.hash_ring_cap) ⊎ (t.hash_ring_pos + 1 ≡ t'.hash_ring_size)
  distinct : Distinct t'.payload_hashes
  one_less : length t'.payload_hashes + 1 ≡ t'.hash_ring_size
  still_new : lookup key t'.payload_hashes ≡ none
  present :
      (i : ℕ) (k : EraSeq)
      → i < t'.hash_ring_size
      → get_elem? t.hash_ring i ≡ some k
      → (i ≡ t.hash_ring_pos) ⊎ ((h : ℕ) × (lookup k t'.payload_hashes ≡ some h))
  apart :
      (i j : ℕ) (k : EraSeq)
      → i < t'.hash_ring_size
      → j < t'.hash_ring_size
      → get_elem? t.hash_ring i ≡ some k
      → get_elem? t.hash_ring j ≡ some k
      → (i ≡ t.hash_ring_pos) ⊎ (j ≡ t.hash_ring_pos) ⊎ (i ≡ j)

abbrev is_key : EraSeq → EraSeq → Bool
is_key a b = (a.0 == b.0) && (a.1 == b.1)

-- The tracker after the key is written to the freed slot.
abbrev write_key : PortTracker → EraSeq → ℕ → PortTracker
write_key t key h = record t {
  hash_ring = set t.hash_ring t.hash_ring_pos key;
  hash_ring_pos = (t.hash_ring_pos + 1) % t.hash_ring_cap;
  payload_hashes = put key h t.payload_hashes;
}

module _ (t : PortTracker) (key : EraSeq) (v : IsRing t)
    (new : lookup key t.payload_hashes ≡ none) where
  full-IsFreed :
      (old : EraSeq)
      → get_elem? t.hash_ring t.hash_ring_pos ≡ some old
      → t.hash_ring_cap ≤ t.hash_ring_size
      → IsFreed t (record t { payload_hashes = delete old t.payload_hashes }) key
  full-IsFreed old e full =
      let (_, held) = v.present t.hash_ring_pos old (omega (arith, v.pos_fits)) e in
      record {
        same_ring = refl;
        same_cap = refl;
        same_pos = refl;
        same_last = refl;
        size_fits = v.size_fits;
        pos_inside = omega (arith, v.pos_fits);
        filling = inl (omega (arith, v.size_fits));
        distinct = delete-Distinct old t.payload_hashes v.distinct;
        one_less = ground (arith, length-delete old t.payload_hashes v.distinct, v.as_many);
        still_new = ground (arith, lookup-delete old key t.payload_hashes);
        present = λ i k h e1. elim (Bool-cases (is_key old k)) [
          | inl same ↦ inl (
              v.apart i t.hash_ring_pos k h (omega (arith, v.pos_fits)) e1
                (e ∙ ap some ((pair_beq_iff old k).0 same)))
          | inr other ↦
              let (w, found) = v.present i k h e1 in
              inr (w, lookup-delete old k t.payload_hashes ∙ rw other found)
        ];
        apart = λ i j k h1 h2 e1 e2. inr (inr (v.apart i j k h1 h2 e1 e2));
      }

  evict_slot-IsFreed : Finishes (evict_slot t) (λ t'. IsFreed t t' key)
  unfolding evict_slot index
  evict_slot-IsFreed = elim (Bool-cases (ltb t.hash_ring_size t.hash_ring_cap)) [
    | inl room ↦ rw room (record {
      same_ring = refl;
      same_cap = refl;
      same_pos = refl;
      same_last = refl;
      size_fits = ground arith;
      pos_inside = ground (arith, v.filling);
      filling = ground (arith, v.filling);
      distinct = v.distinct;
      one_less = omega (arith, v.as_many);
      still_new = new;
      present = λ i k h e. elim (Bool-cases (ltb i t.hash_ring_size)) [
        | inl below ↦ inr (v.present i k (ltb→lt _ _ below) e)
        | inr last ↦ inl (ground (arith, v.filling))
      ];
      apart = λ i j k h1 h2 e1 e2.
          elim (Bool-cases (ltb i t.hash_ring_size && ltb j t.hash_ring_size)) [
            | inl both ↦ inr (inr (v.apart i j k (ground arith) (ground arith) e1 e2))
            | inr last ↦ ground (arith, v.filling)
          ];
    })
    | inr full ↦
        let (old, e) =
          get_elem?-inside t.hash_ring t.hash_ring_pos (omega (arith, v.allocated, v.pos_fits)) in
        rw (full, e) (full-IsFreed old e (ltb-false _ _ full))
  ]

  slot :
      (t' : PortTracker) (i : ℕ) (k : EraSeq)
      → IsFreed t t' key
      → get_elem? (set t'.hash_ring t'.hash_ring_pos key) i ≡ some k
      → (if t.hash_ring_pos == i then some key else get_elem? t.hash_ring i) ≡ some k
  slot t' i k f e =
      sym (get_elem?-set t.hash_ring t.hash_ring_pos key i (omega (arith, v.allocated, v.pos_fits)))
      ∙ rw⁻¹ (f.same_ring, f.same_pos) e

  slot-cases :
      (t' : PortTracker) (i : ℕ) (k : EraSeq)
      → IsFreed t t' key
      → get_elem? (set t'.hash_ring t'.hash_ring_pos key) i ≡ some k
      → ((i ≡ t.hash_ring_pos) × (k ≡ key))
        ⊎ ((((t.hash_ring_pos == i) ≡ false)) × (get_elem? t.hash_ring i ≡ some k))
  slot-cases t' i k f e = elim (Bool-cases (t.hash_ring_pos == i)) [
    | inl here ↦ inl (ground (arith, slot t' i k f e))
    | inr other ↦ inr (other, ground (arith, slot t' i k f e))
  ]

  slot_present :
      (t' : PortTracker) (h i : ℕ) (k : EraSeq)
      → IsFreed t t' key
      → i < t'.hash_ring_size
      → get_elem? (set t'.hash_ring t'.hash_ring_pos key) i ≡ some k
      → (w : ℕ) × (lookup k (put key h t'.payload_hashes) ≡ some w)
  slot_present t' h i k f b e = elim (Bool-cases (is_key key k)) [
    | inl same ↦ (h, lookup-put key h k t'.payload_hashes ∙ rw same refl)
    | inr other ↦ elim (slot-cases t' i k f e) [
      | inl (_, same) ↦ ground (arith, (pair_beq_iff key k).1 (sym same))
      | inr (apart, found) ↦ elim (f.present i k b found) [
        | inl here ↦ ground (arith, here)
        | inr (w, held) ↦ (w, lookup-put key h k t'.payload_hashes ∙ rw other held)
      ]
    ]
  ]

  slot_apart :
      (t' : PortTracker) (i j : ℕ) (k : EraSeq)
      → IsFreed t t' key
      → i < t'.hash_ring_size
      → j < t'.hash_ring_size
      → ((i ≡ t.hash_ring_pos) × (k ≡ key))
        ⊎ (((t.hash_ring_pos == i) ≡ false) × (get_elem? t.hash_ring i ≡ some k))
      → ((j ≡ t.hash_ring_pos) × (k ≡ key))
        ⊎ (((t.hash_ring_pos == j) ≡ false) × (get_elem? t.hash_ring j ≡ some k))
      → i ≡ j
  slot_apart t' i j k f b1 b2 (inl (p, _)) (inl (q, _)) = p ∙ sym q
  slot_apart t' i j k f b1 b2 (inl (p, same)) (inr (q, found)) =
      ground (arith, f.present j k b2 found, f.still_new, ap (λ x. lookup x t'.payload_hashes) same)
  slot_apart t' i j k f b1 b2 (inr (q, found)) (inl (p, same)) =
      ground (arith, f.present i k b1 found, f.still_new, ap (λ x. lookup x t'.payload_hashes) same)
  slot_apart t' i j k f b1 b2 (inr (p, e1)) (inr (q, e2)) =
      ground (arith, f.apart i j k b1 b2 e1 e2)

  length-written :
      (t' : PortTracker)
      → IsFreed t t' key
      → length (set t'.hash_ring t'.hash_ring_pos key) ≡ t'.hash_ring_cap
  length-written t' f =
      let e : length t'.hash_ring ≡ length t.hash_ring = ap length f.same_ring in
      omega (arith, length-set t'.hash_ring t'.hash_ring_pos key, v.allocated, f.same_cap)

  written : (t' : PortTracker) (h : ℕ) → IsFreed t t' key → IsRing (write_key t' key h)
  written t' h f = record {
    some_slot = omega (arith, f.same_cap, v.some_slot);
    allocated = omega (arith, length-written t' f);
    size_fits = omega (arith, f.same_cap, f.size_fits);
    pos_fits = mod-lt (t'.hash_ring_pos + 1) (omega (arith, f.same_cap, v.some_slot));
    filling = elim (Bool-cases (ltb t'.hash_ring_size t'.hash_ring_cap)) [
      | inr full ↦ inl (omega (arith, ltb-false _ _ full, f.size_fits, f.same_cap))
      | inl room ↦
          let next : t'.hash_ring_pos + 1 ≡ t'.hash_ring_size =
            ground (arith, f.filling, f.same_pos, f.same_cap) in
          inr (mod-eq_of_lt (omega (arith, ltb→lt _ _ room)) ∙ next)
    ];
    distinct = put-Distinct key h t'.payload_hashes f.distinct;
    as_many = ground (arith, length-put key h t'.payload_hashes, f.one_less, f.still_new);
    present = λ i k b e. slot_present t' h i k f b e;
    apart = λ i j k b1 b2 e1 e2.
        slot_apart t' i j k f b1 b2 (slot-cases t' i k f e1) (slot-cases t' j k f e2);
  }

  -- What `record_hash` does with a new key: the ring stays valid, the key is stored.
  pub record_hash-IsRing :
      (h : ℕ)
      → Finishes
          (record_hash t key h)
          (λ t'. IsRing t' × (lookup key t'.payload_hashes ≡ some h) × (t'.last_seq ≡ t.last_seq))
  unfolding record_hash
  record_hash-IsRing h =
      >>=-Finishes (evict_slot t) _ (λ t'. IsFreed t t' key) _ evict_slot-IsFreed
        (λ t' f. (
          written t' h f,
          lookup-put key h key t'.payload_hashes ∙ rw ((pair_beq_iff key key).1 refl) refl,
          f.same_last,
        ))

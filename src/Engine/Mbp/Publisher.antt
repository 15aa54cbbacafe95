-- ===== src/Engine/Mbp/Publisher.antt =====
-- The deltas that a publisher numbers for an instrument, and the ladder after each.
use edge_feed_spec.Base.{
  ℕ, zero, suc, ◌+◌, ◌≤◌, ◌≡◌, refl, sym, ap, ◌∙◌, List, [], ◌∷◌, true, false, ltb, arith,
  Bool-cases, inl, inr, nat_eq, pair_eq, ◌==◌,
}
use edge_feed_spec.Base.Int.{pos, int_eq}
use edge_feed_spec.Base.Maps.{lookup, Distinct, put-Distinct, delete-Distinct, filter_by-Distinct}
use edge_feed_spec.Engine.MbpBook.{
  MbpBook, LevelKey, Levels, apply_level_update, apply_book_clear, kept_by_clear,
}
use edge_feed_spec.Engine.MbpBook.Updates.{LadderOp, updates, clears, step, after, lookup-step}
use edge_feed_spec.Engine.Mbp.{JournalEntry, apply_entry, replay}

-- `ops n` is the delta with the number `n`, from 1 on.
pub record Publisher : Type 0 where
  pub opening : MbpBook
  pub ops : ℕ → LadderOp

unfoldable pub ladder : Publisher → ℕ → MbpBook
ladder p zero = p.opening
ladder p (suc n) = step (ladder p n) (p.ops (suc n))

unfoldable pub entry_of : ℕ → LadderOp → JournalEntry
entry_of n (updates side price qty) = record {
  per_seq = n;
  clear = false;
  side = side;
  scope = 0;
  price = price;
  qty = qty;
  from_price = pos 0;
}
entry_of n (clears side scope price) = record {
  per_seq = n;
  clear = true;
  side = side;
  scope = scope;
  price = pos 0;
  qty = 0;
  from_price = price;
}

abbrev pub entry : Publisher → ℕ → JournalEntry
entry p n = entry_of n (p.ops n)

-- The `m` deltas after the number `n`.
unfoldable pub span : Publisher → ℕ → ℕ → List JournalEntry
span p n zero = []
span p n (suc m) = entry p (suc n) ∷ span p (suc n) m

-- The same quantity, or none, at every side and price.
abbrev pub SameLevels : Levels → Levels → Type 0
SameLevels a b = (k : LevelKey) → lookup k a ≡ lookup k b

pub entry_number : (n : ℕ) (op : LadderOp) → (entry_of n op).per_seq ≡ n
unfolding entry_of
entry_number n (updates side price qty) = refl
entry_number n (clears side scope price) = refl

pub apply_entry_of :
    (n : ℕ) (op : LadderOp) (b : MbpBook) → apply_entry b (entry_of n op) ≡ step b op
unfolding entry_of apply_entry step
apply_entry_of n (updates side price qty) b = refl
apply_entry_of n (clears side scope price) b = refl

step_same :
    (a b : MbpBook) (op : LadderOp)
    → SameLevels a.levels b.levels
    → SameLevels (step a op).levels (step b op).levels
step_same a b op h k = lookup-step a op k ∙ ap (after op k) (h k) ∙ sym (lookup-step b op k)

apply_entry-Distinct :
    (b : MbpBook) (e : JournalEntry) → Distinct b.levels → Distinct (apply_entry b e).levels
unfolding apply_entry apply_level_update apply_book_clear
apply_entry-Distinct b e d = elim (Bool-cases e.clear) [
  | inl c ↦ rw c (filter_by-Distinct (kept_by_clear e.side e.scope e.from_price) b.levels d)
  | inr c ↦ elim (Bool-cases (e.qty == 0)) [
    | inl z ↦ rw (c, z) (delete-Distinct (e.side, e.price) b.levels d)
    | inr z ↦ rw (c, z) (put-Distinct (e.side, e.price) e.qty b.levels d)
  ]
]

pub replay-Distinct :
    (k : ℕ) (es : List JournalEntry) (b : MbpBook)
    → Distinct b.levels
    → Distinct (replay k es b).levels
unfolding replay
replay-Distinct k [] b d = d
replay-Distinct k (e ∷ es) b d = elim (Bool-cases (ltb k e.per_seq)) [
  | inl past ↦ rw past d
  | inr here ↦ rw here (replay-Distinct k es (apply_entry b e) (apply_entry-Distinct b e d))
]

-- A replay over deltas without a hole, from the ladder before the first of them, gives the ladder
-- after any of them.
pub replay-span :
    (p : Publisher) (m n k : ℕ) (b : MbpBook)
    → SameLevels b.levels (ladder p n).levels
    → n ≤ k
    → k ≤ n + m
    → SameLevels (replay k (span p n m) b).levels (ladder p k).levels
unfolding replay span ladder lookup apply_entry
replay-span p zero n k b h lo hi = λ key. h key ∙ ap (λ i. lookup key (ladder p i).levels) same
  where
    same : n ≡ k
    same = omega arith
replay-span p (suc m) n k b h lo hi = elim (Bool-cases (ltb k (suc n))) [
  | inl past ↦ λ key.
      rw (entry_number (suc n) (p.ops (suc n)), past)
        (h key ∙ ap (λ i. lookup key (ladder p i).levels) (at_start past))
  | inr here ↦ λ key.
      rw (entry_number (suc n) (p.ops (suc n)), here, apply_entry_of (suc n) (p.ops (suc n)) b)
        (replay-span p m (suc n) k (step b (p.ops (suc n)))
          (step_same b (ladder p n) (p.ops (suc n)) h) (ground arith) (omega arith) key)
]
  where
    at_start : ltb k (suc n) ≡ true → n ≡ k
    at_start past = ground arith

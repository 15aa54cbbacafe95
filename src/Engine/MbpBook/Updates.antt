-- ===== src/Engine/MbpBook/Updates.antt =====
-- What a level update and a bulk clear do to each level.
use edge_feed_spec.Base.{
  ℕ, ◌≡◌, ◌<◌, ◌∙◌, [], ◌∷◌, Option, none, some, Bool, not, ◌&&◌, ◌||◌, ◌==◌, filter_by,
  if◌then◌else◌, nat_eq, pair_eq, arith, Bool-cases, inl, inr, All,
}
use edge_feed_spec.Base.Int.{ℤ, ltb_ℤ, eqb_ℤ, int_eq}
use edge_feed_spec.Base.Maps.{
  lookup, put, delete, Distinct, lookup-put, lookup-delete, put-Distinct, delete-Distinct,
  lookup-filter_by, filter_by-Distinct,
}
use edge_feed_spec.Engine.MbpBook.{
  MbpBook, LevelKey, Levels, apply_level_update, apply_book_clear, kept_by_clear, side_both,
  side_bid, scope_from_price,
}

-- A level holds a positive quantity, and each side and price has one level at most.
abbrev HasQuantity : LevelKey × ℕ → Type 0
HasQuantity e = 0 < e.1

pub record IsLadder (b : MbpBook) : Type 0 where
  pub distinct : Distinct b.levels
  pub positive : All HasQuantity b.levels

put-positive :
    (k : LevelKey) (q : ℕ) (m : Levels) → 0 < q → All HasQuantity m → All HasQuantity (put k q m)
unfolding put
put-positive k q [] h p = (h, tt)
put-positive k q ((j, w) ∷ m) h p = ground (arith, put-positive k q m h p.1)

delete-positive : (k : LevelKey) (m : Levels) → All HasQuantity m → All HasQuantity (delete k m)
unfolding delete
delete-positive k [] p = p
delete-positive k ((j, w) ∷ m) p = ground (arith, delete-positive k m p.1)

filter_by-positive :
    (t : LevelKey × ℕ → Bool) (m : Levels) → All HasQuantity m → All HasQuantity (filter_by t m)
filter_by-positive t [] p = p
filter_by-positive t (e ∷ m) p = ground (arith, filter_by-positive t m p.1)

-- The messages that change the ladder.
pub data LadderOp : Type 0 where
  updates : ℕ → ℤ → ℕ → LadderOp
  clears : ℕ → ℕ → ℤ → LadderOp

unfoldable pub step : MbpBook → LadderOp → MbpBook
step b (updates side price qty) = apply_level_update b side price qty
step b (clears side scope price) = apply_book_clear b side scope price

-- Every message keeps one positive level at most for each side and price.
pub step-IsLadder : (b : MbpBook) (op : LadderOp) → IsLadder b → IsLadder (step b op)
unfolding step apply_level_update apply_book_clear
step-IsLadder b (updates side price qty) v = elim (Bool-cases (qty == 0)) [
  | inl e ↦ rw e (record {
    distinct = delete-Distinct (side, price) b.levels v.distinct;
    positive = delete-positive (side, price) b.levels v.positive;
  })
  | inr e ↦ rw e (record {
    distinct = put-Distinct (side, price) qty b.levels v.distinct;
    positive = put-positive (side, price) qty b.levels (ground arith) v.positive;
  })
]
step-IsLadder b (clears side scope price) v = record {
  distinct = filter_by-Distinct (kept_by_clear side scope price) b.levels v.distinct;
  positive = filter_by-positive _ b.levels v.positive;
}

-- What rests at a level after a message: an update states the level whatever was there before, with
-- quantity 0 for its absence, and touches no other; a clear removes the levels of its side, or of
-- both, and with the scope from a price only those from that price outward.
abbrev pub after : LadderOp → LevelKey → Option ℕ → Option ℕ
after (updates side price qty) k old =
    if (side == k.0) && eqb_ℤ price k.1 then (if qty == 0 then none else some qty) else old
after (clears side scope price) k old =
    let on_side = (side == side_both) || (k.0 == side) in
    let inward = if k.0 == side_bid then ltb_ℤ price k.1 else ltb_ℤ k.1 price in
    if on_side && not ((scope == scope_from_price) && inward) then none else old

-- A message leaves at each side and price what `after` states of it: an update the quantity it
-- names, or no level for a zero quantity, at its own key only; a clear no level on its side, or only
-- the levels strictly inward of its price.
pub lookup-step :
    (b : MbpBook) (op : LadderOp) (k : LevelKey)
    → lookup k (step b op).levels ≡ after op k (lookup k b.levels)
unfolding step apply_level_update apply_book_clear kept_by_clear
lookup-step b (updates side price qty) k =
    ground (arith, lookup-put (side, price) qty k b.levels, lookup-delete (side, price) k b.levels)
lookup-step b (clears side scope price) k =
    lookup-filter_by (kept_by_clear side scope price) k b.levels ∙ ground arith

-- ===== src/Engine/MbpBook.antt =====
-- engine/mbp_book.go: the price-keyed book of one instrument on the market-by-price feed. A loop
-- over a Go map visits the levels in some order: here the list's.
pub mod Updates
pub mod Inside
pub mod Diff
use edge_feed_spec.Base.{
  ℕ, List, [], ◌∷◌, ◌++◌, Option, none, some, Bool, true, false, not, ◌&&◌, ◌||◌, ◌==◌,
  if◌then◌else◌, filter_by, nat_eq, pair_eq,
}
use edge_feed_spec.Base.Int.{ℤ, pos, ltb_ℤ, int_eq}
use edge_feed_spec.Base.Maps.{lookup, put, delete}

abbrev pub side_bid : ℕ
side_bid = 0

abbrev pub side_ask : ℕ
side_ask = 1

abbrev pub side_both : ℕ
side_both = 2

abbrev pub scope_whole_side : ℕ
scope_whole_side = 0

abbrev pub scope_from_price : ℕ
scope_from_price = 1

-- A side and a price.
abbrev pub LevelKey : Type 0
LevelKey = ℕ × ℤ

abbrev pub Levels : Type 0
Levels = List (LevelKey × ℕ)

-- `depth_bound` is absent until a snapshot states one; no rule reads it yet.
pub record MbpBook : Type 0 where
  pub levels : Levels
  pub depth_bound : Option ℕ

unfoldable pub new_mbp_book : MbpBook
new_mbp_book = record { levels = []; depth_bound = none }

unfoldable pub apply_level_update : MbpBook → ℕ → ℤ → ℕ → MbpBook
apply_level_update b side price qty =
    if qty == 0
    then record b { levels = delete (side, price) b.levels }
    else record b { levels = put (side, price) qty b.levels }

-- Whether the loop of `applyBookClear` continues past a level without deleting it.
unfoldable pub kept_by_clear : ℕ → ℕ → ℤ → LevelKey → Bool
kept_by_clear clear_side scope from_price k =
    if not (clear_side == side_both) && not (k.0 == clear_side)
    then true
    else if scope == scope_from_price
    then (if k.0 == side_bid then ltb_ℤ from_price k.1 else ltb_ℤ k.1 from_price)
    else false

unfoldable pub apply_book_clear : MbpBook → ℕ → ℕ → ℤ → MbpBook
apply_book_clear b clear_side scope from_price = record b {
  levels = filter_by (λ e. kept_by_clear clear_side scope from_price e.0) b.levels;
}

pub record Quotes : Type 0 where
  pub bid : ℤ
  pub has_bid : Bool
  pub ask : ℤ
  pub has_ask : Bool

-- One round of the loop of `inside`.
unfoldable pub see_level : Quotes → LevelKey → Quotes
see_level q k =
    if k.0 == side_bid
    then (if not q.has_bid || ltb_ℤ q.bid k.1 then record q { bid = k.1; has_bid = true } else q)
    else (if not q.has_ask || ltb_ℤ k.1 q.ask then record q { ask = k.1; has_ask = true } else q)

unfoldable pub inside_loop : Quotes → Levels → Quotes
inside_loop q [] = q
inside_loop q (e ∷ es) = inside_loop (see_level q e.0) es

unfoldable pub inside : MbpBook → Quotes
inside b =
    inside_loop (record { bid = pos 0; has_bid = false; ask = pos 0; has_ask = false }) b.levels

unfoldable pub crossed : MbpBook → Bool
crossed b = let q = inside b in q.has_bid && q.has_ask && ltb_ℤ q.ask q.bid

pub record LevelDiff : Type 0 where
  pub key : LevelKey
  pub from_book : ℕ
  pub from_snap : ℕ

-- `m[k]` on a missing key is 0.
abbrev pub quantity : Option ℕ → ℕ
quantity none = 0
quantity (some q) = q

abbrev pub differs : Option ℕ → ℕ → Bool
differs none q = true
differs (some s) q = not (s == q)

-- The first loop of `diffMBPLevels`, over the book.
unfoldable pub diff_book : Levels → Levels → List LevelDiff
diff_book [] snap = []
diff_book ((k, q) ∷ book) snap =
    let rest = diff_book book snap in
    if differs (lookup k snap) q
    then record { key = k; from_book = q; from_snap = quantity (lookup k snap) } ∷ rest
    else rest

-- The second loop, over the snapshot.
unfoldable pub diff_snap : Levels → Levels → List LevelDiff
diff_snap [] book = []
diff_snap ((k, q) ∷ snap) book =
    let rest = diff_snap snap book in
    elim (lookup k book) [
      | none ↦ record { key = k; from_book = 0; from_snap = q } ∷ rest
      | some _ ↦ rest
    ]

unfoldable pub diff_mbp_levels : Levels → Levels → List LevelDiff
diff_mbp_levels book snap = diff_book book snap ++ diff_snap snap book

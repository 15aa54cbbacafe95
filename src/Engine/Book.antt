-- ===== src/Engine/Book.antt =====
-- engine/book.go: the live orders of one instrument on the market-by-order feed, and the books of
-- all instruments. A method that adds to an ID window returns in `Exec`, since the window's queue
-- is a slice.
pub mod Invariant
pub mod Isolation
pub mod Fills
pub mod Books
use Prim.Native.Nat.{bit_and}
use edge_feed_spec.Base.{
  ℕ, ◌+◌, ◌-◌, ◌^◌, List, [], ◌∷◌, Option, none, some, Bool, true, false, not, ◌&&◌, ◌||◌, ltb,
  ◌==◌, if◌then◌else◌, map, nat_eq,
}
use edge_feed_spec.Base.Exec.{Exec, done, ◌>>=◌}
use edge_feed_spec.Base.Int.{ℤ}
use edge_feed_spec.Base.Maps.{lookup, put, delete}
use edge_feed_spec.Engine.IdWindow.{IdWindow, new_window, has, may_have_evicted}
use edge_feed_spec.Engine.IdWindow

abbrev pub max_removed_ids : ℕ
max_removed_ids = 2 ^ 17

abbrev pub max_hidden_ids : ℕ
max_hidden_ids = 2 ^ 17

abbrev pub max_exec_trade_ids : ℕ
max_exec_trade_ids = 2 ^ 16

pub data BookError : Type 0 where
  overfill : BookError
  full_fill_disagree : BookError

pub record LiveOrder : Type 0 where
  pub side : ℕ
  pub source_id : ℕ
  pub price : ℤ
  pub remaining : ℕ
  pub order_flags : ℕ
  pub enter_ts : ℕ

pub record RestingOrder : Type 0 where
  pub side : ℕ
  pub price : ℤ
  pub remaining : ℕ
  pub order_flags : ℕ
  pub enter_ts : ℕ

pub record InstrBook : Type 0 where
  pub live : List (ℕ × LiveOrder)
  pub removed : IdWindow
  pub hidden_ids : IdWindow
  pub exec_trade_ids : IdWindow

unfoldable pub new_instr_book : InstrBook
new_instr_book = record {
  live = [];
  removed = new_window max_removed_ids;
  hidden_ids = new_window max_hidden_ids;
  exec_trade_ids = new_window max_exec_trade_ids;
}

unfoldable pub is_hidden : ℕ → Bool
is_hidden order_flags = not (bit_and order_flags 0x04 == 0)

unfoldable pub is_full_fill : ℕ → Bool
is_full_fill exec_flags = not (bit_and exec_flags 0x01 == 0)

unfoldable pub apply_order_add_full : InstrBook → ℕ → LiveOrder → Exec InstrBook
apply_order_add_full bk id o =
    if is_hidden o.order_flags
    then (do hidden ← IdWindow.add bk.hidden_ids id; done (record bk { hidden_ids = hidden }))
    else done (record bk { live = put id o bk.live; removed = IdWindow.remove bk.removed id })

-- `applyOrderAdd` leaves the source ID 0.
unfoldable pub apply_order_add : InstrBook → ℕ → LiveOrder → Exec InstrBook
unfolding apply_order_add_full
apply_order_add bk id o = apply_order_add_full bk id (record o { source_id = 0 })

-- `delete(bk.live, orderID)` and `bk.removed.add(orderID)`.
unfoldable pub retire : InstrBook → ℕ → Exec InstrBook
retire bk id = do
  removed ← IdWindow.add bk.removed id
  done (record bk { live = delete id bk.live; removed = removed })

abbrev returning : Option BookError → Exec InstrBook → Exec (InstrBook × Option BookError)
returning e m = do bk ← m; done (bk, e)

-- The execution of a live order that is not hidden.
unfoldable pub fill : InstrBook → ℕ → LiveOrder → ℕ → Bool → Exec (InstrBook × Option BookError)
fill bk id lo qty full =
    if ltb lo.remaining qty
    then returning (some overfill) (if full then retire bk id else done bk)
    else if full && not (qty == lo.remaining)
    then returning (some full_fill_disagree) (retire bk id)
    else if full || (lo.remaining - qty == 0)
    then returning none (retire bk id)
    else done
        (record bk { live = put id (record lo { remaining = lo.remaining - qty }) bk.live }, none)

unfoldable pub execute_absent : InstrBook → ℕ → Bool → Exec (InstrBook × Option BookError)
execute_absent bk id full =
    if has bk.hidden_ids id && full
    then (do removed ← IdWindow.add bk.removed id; done (record bk { removed = removed }, none))
    else done (bk, none)

unfoldable pub apply_order_execute : InstrBook → ℕ → ℕ → Bool → Exec (InstrBook × Option BookError)
apply_order_execute bk id qty full = elim (lookup id bk.live) [
  | none ↦ execute_absent bk id full
  | some lo ↦
      if is_hidden lo.order_flags
      then returning none (if full then retire bk id else done bk)
      else fill bk id lo qty full
]

unfoldable pub apply_order_cancel : InstrBook → ℕ → Exec InstrBook
apply_order_cancel bk id = elim (lookup id bk.live) [ none ↦ done bk | some _ ↦ retire bk id ]

abbrev resting : LiveOrder → RestingOrder
resting lo = record {
  side = lo.side;
  price = lo.price;
  remaining = lo.remaining;
  order_flags = lo.order_flags;
  enter_ts = lo.enter_ts;
}

unfoldable pub orders : InstrBook → List (ℕ × RestingOrder)
orders bk = map (λ e. (e.0, resting e.1)) bk.live

unfoldable pub may_have_forgotten : InstrBook → ℕ → Bool
may_have_forgotten bk id = may_have_evicted bk.removed id || may_have_evicted bk.hidden_ids id

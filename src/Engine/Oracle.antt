-- ===== src/Engine/Oracle.antt =====
-- engine/oracle.go: the snapshot of an instrument against the book that the deltas built. The
-- signature of a difference, a text of its sorted entries, is a parameter of the verdicts.
pub mod Books
pub mod Cycles
pub mod Examples
use edge_feed_spec.Base.{
  ℕ, ◌+◌, List, [], ◌∷◌, ◌++◌, Option, none, some, Bool, true, false, not, leb, ◌==◌, if◌then◌else◌,
  nat_eq, pair_eq, String,
}
use edge_feed_spec.Base.Int.{ℤ, pos, negsuc, eqb_ℤ}
use edge_feed_spec.Base.Strings.{str_eq}
use edge_feed_spec.Base.Maps.{lookup, put, delete}
use edge_feed_spec.Core.Finding.{
  Status, reason_superseded, reason_cold_start, reason_untrusted, reason_reorder, reason_loss,
  reason_pending,
}
use edge_feed_spec.Engine.Book.{RestingOrder, is_hidden}
use edge_feed_spec.Engine.Book.Books.{Key}

pub record SnapOrderRecord : Type 0 where
  pub side : ℕ
  pub order_flags : ℕ
  pub enter_ts : ℕ
  pub price : ℤ
  pub qty : ℕ

pub data DiffField : Type 0 where
  missing_in_delta : DiffField
  extra_in_delta : DiffField
  of_side : DiffField
  of_price : DiffField
  of_qty : DiffField
  of_flags : DiffField
  of_enter_ts : DiffField

pub record OracleDiff : Type 0 where
  pub order_id : ℕ
  pub field : DiffField

abbrev pub flag_if : Bool → ℕ → DiffField → List OracleDiff
flag_if b id f = if b then record { order_id = id; field = f } ∷ [] else []

-- The comparison of an order that both books hold, field by field.
unfoldable pub field_diffs : ℕ → SnapOrderRecord → RestingOrder → List OracleDiff
field_diffs id so d =
    flag_if (not (so.side == d.side)) id of_side
    ++ (flag_if (not (eqb_ℤ so.price d.price)) id of_price
        ++ ((if is_hidden d.order_flags
              then []
              else flag_if (not (so.qty == d.remaining)) id of_qty)
            ++ (flag_if (not (so.order_flags == d.order_flags)) id of_flags
                ++ flag_if (not (so.enter_ts == d.enter_ts)) id of_enter_ts)))

-- A round of the first loop of `diffBooks`.
unfoldable pub snap_order_diffs : List (ℕ × RestingOrder) → ℕ → SnapOrderRecord → List OracleDiff
snap_order_diffs delta id so =
    let compared : List OracleDiff = (elim (lookup id delta) [
      | none ↦ record { order_id = id; field = missing_in_delta } ∷ []
      | some d ↦ field_diffs id so d
    ]) in
    if is_hidden so.order_flags then [] else compared

-- A round of the second loop.
unfoldable pub delta_order_diffs : List (ℕ × SnapOrderRecord) → ℕ → RestingOrder → List OracleDiff
delta_order_diffs snap id d =
    let absent : List OracleDiff = (elim (lookup id snap) [
      | none ↦ record { order_id = id; field = extra_in_delta } ∷ []
      | some _ ↦ []
    ]) in
    if is_hidden d.order_flags then [] else absent

-- A loop over a map that appends what its rounds yield.
abbrev pub each_entry {ℓ} :
    {V : Type ℓ} → (ℕ → V → List OracleDiff) → List (ℕ × V) → List OracleDiff
each_entry f [] = []
each_entry f ((id, v) ∷ m) = f id v ++ each_entry f m

unfoldable pub diff_books : List (ℕ × SnapOrderRecord) → List (ℕ × RestingOrder) → List OracleDiff
diff_books snap delta =
    each_entry (snap_order_diffs delta) snap ++ each_entry (delta_order_diffs snap) delta

pub record OracleSuspect : Type 0 where
  pub signature : String
  pub count : ℕ

-- What `runOracleForGroup` reads of the engine for a completed group.
pub record GroupState : Type 0 where
  pub structural_violation : Bool
  pub has_refdata : Bool
  pub instrument_known : Bool
  pub book_trusted : Bool
  pub book_corrupted_by_dup : Bool
  pub mktdata_contiguous : Bool
  pub last_instr_seq : Option ℕ
  pub last_instr_seq_k : ℕ
  pub dirty : Bool

-- Gates 2 and 3.
abbrev seq_gate : GroupState → Option String
seq_gate g = elim g.last_instr_seq [
  | none ↦ some reason_cold_start
  | some s ↦
      if not (s == g.last_instr_seq_k)
      then some reason_pending
      else if g.dirty
      then some reason_loss
      else none
]

-- Why the books cannot be compared, if they cannot.
unfoldable pub oracle_gate : GroupState → Option String
oracle_gate g =
    let later = seq_gate g in
    if g.structural_violation
    then some reason_superseded
    else if not g.has_refdata
    then some reason_cold_start
    else if not g.instrument_known
    then some reason_cold_start
    else if not g.book_trusted
    then some reason_untrusted
    else if g.book_corrupted_by_dup
    then some reason_reorder
    else if not g.mktdata_contiguous
    then some reason_loss
    else later

abbrev pub Suspects : Type 0
Suspects = List (Key × OracleSuspect)

-- The suspect after one more mismatch with a signature; a missing one is made first.
unfoldable pub suspect_again : Option OracleSuspect → String → OracleSuspect
suspect_again none sig = record { signature = sig; count = 1 }
suspect_again (some s) sig =
    if str_eq s.signature sig
    then record s { count = s.count + 1 }
    else record { signature = sig; count = 1 }

-- The configured count, or 2 where it is not positive.
unfoldable pub confirm_cycles : ℤ → ℕ
confirm_cycles (pos n) = if n == 0 then 2 else n
confirm_cycles (negsuc n) = 2

-- The verdict of a group: the status of its finding and the reason of an unverifiable one.
pub record OracleVerdict : Type 0 where
  pub status : Status
  pub reason : String

abbrev verdict : Status → OracleVerdict
verdict s = record { status = s; reason = "" }

module _ (signature : List OracleDiff → String) where
  -- The books compared, once the gates are passed.
  unfoldable pub judge_diffs : ℤ → Suspects → Key → List OracleDiff → OracleVerdict × Suspects
  judge_diffs configured suspects key [] = (verdict Status.pass, delete key suspects)
  judge_diffs configured suspects key (d ∷ ds) =
      let s = suspect_again (lookup key suspects) (signature (d ∷ ds)) in
      let status =
        (if leb (confirm_cycles configured) s.count then Status.violation else Status.suspected) in
      (verdict status, put key s suspects)

  unfoldable pub run_oracle_for_group :
      ℤ
      → Suspects
      → Key
      → GroupState
      → List (ℕ × SnapOrderRecord)
      → List (ℕ × RestingOrder)
      → OracleVerdict × Suspects
  run_oracle_for_group configured suspects key g snap delta =
      let judged = judge_diffs configured suspects key (diff_books snap delta) in
      elim (oracle_gate g) [
        | none ↦ judged
        | some r ↦ (record { status = Status.unverifiable; reason = r }, delete key suspects)
      ]

-- ===== src/Engine/Mbp/Deltas.antt =====
-- engine/mbp.go: `checkMBP`, the deltas and resets of a market data frame.
use edge_feed_spec.Base.{
  ℕ, List, [], ◌∷◌, ◌++◌, none, some, Bool, true, false, not, ◌&&◌, String, if◌then◌else◌, ◌==◌,
  nat_eq, pair_eq,
}
use edge_feed_spec.Base.Int.{pos}
use edge_feed_spec.Base.Maps.{lookup, delete}
use edge_feed_spec.Core.Finding.{Status}
use edge_feed_spec.Wire.Header.{Message, Frame}
use edge_feed_spec.Wire.MessageType
use edge_feed_spec.Engine.Fields.Orders.{instr_reset_instrument_id}
use edge_feed_spec.Engine.Fields.Levels.{
  level_update_instrument_id, level_update_side, level_update_action, level_update_per_instr_seq,
  level_update_price, level_update_quantity, book_clear_instrument_id, book_clear_clear_side,
  book_clear_scope, book_clear_per_instr_seq, book_clear_from_price,
}
use edge_feed_spec.Engine.MbpBook.{new_mbp_book, side_both, scope_from_price}
use edge_feed_spec.Engine.Emit.{Emission}
use edge_feed_spec.Engine.Mbp.{
  InstrKey, Instr, JournalEntry, MbpState, OpenSnap, get, put_instr, record_entry, apply_entry,
}
use edge_feed_spec.Engine.Mbp.Sequence.{SeqResult, delta_finding, check_mbp_seq}

-- `mbpActionDelete`.
abbrev pub action_delete : ℕ
action_delete = 3

abbrev absolute_apply : String
absolute_apply = "MBP.DELTA.ABSOLUTE_APPLY"

abbrev pub level_entry : Message → JournalEntry
level_entry m = record {
  per_seq = level_update_per_instr_seq m;
  clear = false;
  side = level_update_side m;
  scope = 0;
  price = level_update_price m;
  qty = level_update_quantity m;
  from_price = pos 0;
}

abbrev pub clear_entry : Message → JournalEntry
clear_entry m = record {
  per_seq = book_clear_per_instr_seq m;
  clear = true;
  side = book_clear_clear_side m;
  scope = book_clear_scope m;
  price = pos 0;
  qty = 0;
  from_price = book_clear_from_price m;
}

-- A delta that the sequence check passed is applied to the live ladder and journalled.
unfoldable pub apply_delta : SeqResult → JournalEntry → Instr
apply_delta r e =
    let t = r.tracker in
    let applied : Instr = record t { book = apply_entry t.book e } in
    if r.accepted then record_entry applied e else t

-- A quantity and an action that contradict each other.
unfoldable pub action_findings : ℕ → InstrKey → Message → List Emission
action_findings seq k m =
    let empty = level_update_quantity m == 0 in
    let deletes = level_update_action m == action_delete in
    (if empty && not deletes
      then delta_finding absolute_apply Status.violation seq k "" ∷ []
      else [])
    ++ (if not empty && deletes
        then delta_finding absolute_apply Status.violation seq k "" ∷ []
        else [])

unfoldable pub level_update_message : ℕ → ℕ → ℕ → MbpState → Message → MbpState × List Emission
level_update_message epoch ch seq s m =
    let k : InstrKey = (ch, level_update_instrument_id m) in
    let r = check_mbp_seq epoch (get s k epoch) k (level_update_per_instr_seq m) seq in
    if not (m.msg_length == 48)
    then (s, [])
    else (put_instr s k (apply_delta r (level_entry m)), action_findings seq k m ++ r.emitted)

-- One price for both sides: the sequence still counts, the tracker is not trusted any more.
abbrev pub is_malformed_clear : Message → Bool
is_malformed_clear m =
    (book_clear_scope m == scope_from_price) && (book_clear_clear_side m == side_both)

unfoldable pub book_clear_message : ℕ → ℕ → ℕ → MbpState → Message → MbpState × List Emission
book_clear_message epoch ch seq s m =
    let k : InstrKey = (ch, book_clear_instrument_id m) in
    let r = check_mbp_seq epoch (get s k epoch) k (book_clear_per_instr_seq m) seq in
    if not (m.msg_length == 36)
    then (s, [])
    else if is_malformed_clear m
    then (
      put_instr s k (record r.tracker { gapped = true }),
      delta_finding absolute_apply Status.violation seq k "" ∷ r.emitted,
    )
    else (put_instr s k (apply_delta r (clear_entry m)), r.emitted)

unfoldable pub reset_instr : Instr → Instr
reset_instr t = record t {
  book = new_mbp_book;
  ready = false;
  gapped = false;
  last_seq_set = false;
  saw_snapshot_since_delta = false;
  base = [];
  base_set = false;
  journal = [];
  overflow = false;
  dropped_max = 0;
}

-- The group in flight of the channel, dropped when it is the instrument's.
unfoldable pub drop_group_of : ℕ → InstrKey → List (ℕ × OpenSnap) → List (ℕ × OpenSnap)
drop_group_of ch k groups = elim (lookup ch groups) [
  | none ↦ groups
  | some o ↦ if (o.key.0 == k.0) && (o.key.1 == k.1) then delete ch groups else groups
]

unfoldable pub instr_reset_message : ℕ → ℕ → MbpState → Message → MbpState × List Emission
instr_reset_message epoch ch s m =
    let k : InstrKey = (ch, instr_reset_instrument_id m) in
    let reset = put_instr s k (reset_instr (get s k epoch)) in
    if not (m.msg_length == 28)
    then (s, [])
    else (record reset { open_snap = drop_group_of ch k s.open_snap }, [])

-- A round of the loop of `checkMBP`.
unfoldable pub delta_message : ℕ → ℕ → ℕ → MbpState → Message → MbpState × List Emission
delta_message epoch ch seq s m =
    if m.type_id == MessageType.level_update
    then level_update_message epoch ch seq s m
    else if m.type_id == MessageType.book_clear
    then book_clear_message epoch ch seq s m
    else if m.type_id == MessageType.instr_reset
    then instr_reset_message epoch ch s m
    else (s, [])

unfoldable pub delta_messages : ℕ → ℕ → ℕ → MbpState → List Message → MbpState × List Emission
delta_messages epoch ch seq s [] = (s, [])
delta_messages epoch ch seq s (m ∷ ms) =
    let (s1, e1) = delta_message epoch ch seq s m in
    let (s2, e2) = delta_messages epoch ch seq s1 ms in (s2, e1 ++ e2)

unfoldable pub check_mbp : ℕ → MbpState → Frame → ℕ → MbpState × List Emission
check_mbp epoch s f ch = delta_messages epoch ch f.header.sequence s f.messages

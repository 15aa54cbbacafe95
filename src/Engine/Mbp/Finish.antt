-- ===== src/Engine/Mbp/Finish.antt =====
-- engine/mbp.go: `finishMBPSnapshot`, the end of a snapshot group: its structure, the
-- reconstruction oracle, and the adoption of the group as the new baseline.
use edge_feed_spec.Base.{
  ℕ, ◌-◌, ◌^◌, List, [], ◌∷◌, ◌++◌, Option, none, some, Bool, true, false, not, ◌&&◌, ◌||◌, String,
  if◌then◌else◌, ltb, leb, ◌==◌, filter_by, nat_eq, pair_eq,
}
use edge_feed_spec.Base.Maps.{lookup, delete}
use edge_feed_spec.Core.Finding.{
  Status, reason_loss, reason_overflow, reason_cold_start, reason_reorder, reason_pending,
}
use edge_feed_spec.Wire.Header.{Message, Frame}
use edge_feed_spec.Wire.MessageType
use edge_feed_spec.Engine.Fields.Orders.{
  snapshot_end_instrument_id, snapshot_end_anchor_seq, snapshot_end_snapshot_id,
}
use edge_feed_spec.Engine.MbpBook.{LevelDiff, diff_mbp_levels}
use edge_feed_spec.Engine.Emit.{Emission}
use edge_feed_spec.Engine.Mbp.{Instr, MbpState, OpenSnap, get, put_instr, state_as_of}
use edge_feed_spec.Engine.Mbp.Groups.{
  group_structure, group_finding, mbp_group_status, mbp_reason, mbp_orphan_status, note_frame,
  snapshot_begin_message, snapshot_level_message,
}

abbrev pub oracle : String
oracle = "MBP.SNAP.RECONSTRUCTED_BOOK_MATCHES_SNAPSHOT"

-- A finding of the structure rule when a test holds.
abbrev pub structure_if : Bool → Status → ℕ → ℕ → ℕ → List Emission
structure_if defect st seq ch instrument =
    if defect
    then group_finding group_structure st seq ch (some instrument) (mbp_reason st) ∷ []
    else []

-- The one shape in which the loss of an End and a Begin merges two groups.
unfoldable pub merge_shape : OpenSnap → Message → Bool
merge_shape o m =
    o.dirty
    && (not (snapshot_end_instrument_id m == o.key.1) && (snapshot_end_snapshot_id m == o.snap_id))

-- The group's own defect, or one that a merge can explain.
abbrev pub merged : Bool → Status → Status
merged b gated = if b then gated else Status.violation

-- The five tests of the End against the Begin, in order; the group is well-formed (`ok`) when
-- none of them emits.
unfoldable pub end_findings : Bool → ℕ → ℕ → OpenSnap → Message → List Emission
end_findings snap_dirty ch seq o m =
    let gated = mbp_group_status snap_dirty (some o) in
    let merge = merge_shape o m in
    let over = merged (merge && leb o.clean_count o.total) gated in
    let dup = merged (merge && (o.clean_dup_keys == 0)) gated in
    let end_instr = snapshot_end_instrument_id m in
    structure_if (not (end_instr == o.key.1)) gated seq ch end_instr
    ++ (structure_if (not (snapshot_end_anchor_seq m == o.anchor)) gated seq ch o.key.1
        ++ (structure_if (not (snapshot_end_snapshot_id m == o.snap_id)) gated seq ch o.key.1
            ++ (structure_if (not (o.count == o.total))
                  (if ltb o.count o.total then gated else over) seq ch o.key.1
                ++ structure_if (ltb 0 o.dup_keys) dup seq ch o.key.1)))

-- Why a group cannot be compared, in the order of the switch; nothing for the default branch.
unfoldable pub incomparable : Instr → ℕ → Option String
incomparable t k =
    if t.gapped
    then some reason_loss
    else if t.overflow
    then some reason_overflow
    else if not t.base_set
    then some reason_cold_start
    else if ltb k t.base_k
    then some reason_reorder
    else if not t.last_seq_set || ltb t.last_seq k
    then some reason_pending
    else none

abbrev pub is_nil {ℓ} : {A : Type ℓ} → List A → Bool
is_nil [] = true
is_nil (x ∷ xs) = false

-- The default branch of the switch.
abbrev pub diff_verdict : List LevelDiff → Status
diff_verdict [] = Status.pass
diff_verdict (d ∷ ds) = Status.violation

-- The status and the reason of the oracle's finding.
unfoldable pub oracle_verdict : Instr → OpenSnap → Status × String
oracle_verdict t o =
    let compared = diff_verdict (diff_mbp_levels (state_as_of t o.last_k) o.levels) in
    elim (incomparable t o.last_k) [
      | some reason ↦ (Status.unverifiable, reason)
      | none ↦ (compared, "")
    ]

-- The fields that the adoption of a group sets before the live ladder is rebuilt.
unfoldable pub rebase : Instr → OpenSnap → Instr
rebase t o =
    let overflow = ltb o.last_k t.dropped_max in
    record t {
      base = o.levels;
      base_k = o.last_k;
      base_set = true;
      journal = filter_by (λ e. ltb o.last_k e.per_seq) t.journal;
      overflow = overflow;
      dropped_max = if overflow then t.dropped_max else 0;
    }

unfoldable pub adopt : Instr → OpenSnap → Instr
adopt t o =
    let r = rebase t o in
    let ahead = ltb t.last_seq o.last_k in
    record r {
      book = record { levels = state_as_of r (2 ^ 32 - 1); depth_bound = some o.depth };
      ready = true;
      gapped = false;
      saw_snapshot_since_delta = true;
      last_seq = if ahead then o.last_k else t.last_seq;
      last_seq_set = if ahead then true else t.last_seq_set;
    }

-- What a well-formed group is graded.
unfoldable pub graded_group : ℕ → ℕ → Instr → OpenSnap → List Emission
graded_group ch seq t o =
    let v = oracle_verdict t o in
    group_finding group_structure Status.pass seq ch (some o.key.1) ""
    ∷ group_finding oracle v.0 seq ch (some o.key.1) v.1
    ∷ []

unfoldable pub finish_group :
    ℕ → Bool → ℕ → ℕ → MbpState → OpenSnap → Message → MbpState × List Emission
finish_group epoch snap_dirty ch seq s o m =
    let closed : MbpState = record s { open_snap = delete ch s.open_snap } in
    let found = end_findings snap_dirty ch seq o m in
    let t = get s o.key epoch in
    if is_nil found
    then (put_instr closed o.key (adopt t o), graded_group ch seq t o)
    else (closed, found)

unfoldable pub finish_mbp_snapshot :
    ℕ → Bool → ℕ → ℕ → MbpState → Message → MbpState × List Emission
finish_mbp_snapshot epoch snap_dirty ch seq s m =
    let orphan = mbp_orphan_status snap_dirty s ch in
    elim (lookup ch s.open_snap) [
      | none ↦ (
        s,
        group_finding group_structure orphan.0 seq ch (some (snapshot_end_instrument_id m)) orphan.1
            ∷ [],
      )
      | some o ↦ finish_group epoch snap_dirty ch seq s o m
    ]

-- A round of the loop of `checkMBPSnapshot`.
unfoldable pub snapshot_message : ℕ → Bool → ℕ → ℕ → MbpState → Message → MbpState × List Emission
snapshot_message epoch snap_dirty ch seq s m =
    if m.type_id == MessageType.snapshot_begin
    then snapshot_begin_message snap_dirty ch seq s m
    else if m.type_id == MessageType.snapshot_level
    then snapshot_level_message snap_dirty ch seq s m
    else if (m.type_id == MessageType.snapshot_end) && (m.msg_length == 20)
    then finish_mbp_snapshot epoch snap_dirty ch seq s m
    else (s, [])

unfoldable pub snapshot_messages :
    ℕ → Bool → ℕ → ℕ → MbpState → List Message → MbpState × List Emission
snapshot_messages epoch snap_dirty ch seq s [] = (s, [])
snapshot_messages epoch snap_dirty ch seq s (m ∷ ms) =
    let (s1, e1) = snapshot_message epoch snap_dirty ch seq s m in
    let (s2, e2) = snapshot_messages epoch snap_dirty ch seq s1 ms in (s2, e1 ++ e2)

unfoldable pub check_mbp_snapshot : ℕ → Bool → MbpState → Frame → ℕ → ℕ → MbpState × List Emission
check_mbp_snapshot epoch snap_dirty s f ch seq =
    snapshot_messages epoch snap_dirty ch seq (note_frame s ch seq) f.messages

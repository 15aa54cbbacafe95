-- ===== src/Engine/Mbp/Groups.antt =====
-- engine/mbp.go: `checkMBPSnapshot`, the snapshot groups of the snapshot port. Whether the channel's
-- snapshot series is dirty, which `gateDetectorSnap` asks of the trackers, is an argument.
use edge_feed_spec.Base.{
  ℕ, ◌+◌, ◌%◌, ◌^◌, List, [], ◌∷◌, Option, none, some, Bool, true, false, not, ◌&&◌, String,
  if◌then◌else◌, ltb, ◌==◌, nat_eq, pair_eq,
}
use edge_feed_spec.Base.Int.{int_eq}
use edge_feed_spec.Base.Maps.{lookup, put}
use edge_feed_spec.Core.Finding.{
  Status, same_status, snapshot, reason_loss, reason_cold_start, reason_truncated,
}
use edge_feed_spec.Wire.Header.{Message}
use edge_feed_spec.Engine.Fields.Orders.{
  snapshot_begin_instrument_id, snapshot_begin_anchor_seq, snapshot_begin_total_orders,
  snapshot_begin_snapshot_id, snapshot_begin_last_instrument_seq,
}
use edge_feed_spec.Engine.Fields.Levels.{
  snapshot_begin_depth_bound, snapshot_level_snapshot_id, snapshot_level_price,
  snapshot_level_quantity, snapshot_level_side,
}
use edge_feed_spec.Engine.MbpBook.{LevelKey}
use edge_feed_spec.Engine.Emit.{Emission}
use edge_feed_spec.Engine.Mbp.{InstrKey, MbpState, OpenSnap}

abbrev pub group_structure : String
group_structure = "MBP.SNAP.GROUP_STRUCTURE"

-- A finding on the snapshot port.
abbrev pub group_finding : String → Status → ℕ → ℕ → Option ℕ → String → Emission
group_finding rule st seq ch instrument reason = record {
  rule_id = rule;
  status = st;
  port = snapshot;
  seq = seq;
  channel_id = ch;
  instrument = instrument;
  reason = reason;
}

abbrev is_dirty : Option OpenSnap → Bool
is_dirty none = false
is_dirty (some o) = o.dirty

unfoldable pub mbp_group_status : Bool → Option OpenSnap → Status
mbp_group_status snap_dirty o =
    if is_dirty o
    then Status.unverifiable
    else if snap_dirty
    then Status.unverifiable
    else Status.violation

unfoldable pub mbp_reason : Status → String
mbp_reason st = if same_status st Status.unverifiable then reason_loss else ""

-- `m[ch]` of a map to bool is false on a missing key.
abbrev pub is_set : Option Bool → Bool
is_set none = false
is_set (some b) = b

unfoldable pub mbp_orphan_status : Bool → MbpState → ℕ → Status × String
mbp_orphan_status snap_dirty s ch =
    let st = mbp_group_status snap_dirty none in
    if not (is_set (lookup ch s.saw_begin))
    then (Status.unverifiable, reason_cold_start)
    else (st, mbp_reason st)

-- `open.lastSnapPortSeqSet && seq > open.lastSnapPortSeq+1`.
unfoldable pub skips : Option ℕ → ℕ → Bool
skips none seq = false
skips (some last) seq = ltb ((last + 1) % 2 ^ 64) seq

-- A gap of the snapshot port's sequence within the group.
unfoldable pub note_port_seq : OpenSnap → ℕ → OpenSnap
note_port_seq o seq =
    let seen : OpenSnap = record o { last_snap_port_seq = some seq } in
    if skips o.last_snap_port_seq seq && not o.dirty
    then record seen { dirty = true; clean_count = o.count; clean_dup_keys = o.dup_keys }
    else seen

unfoldable pub note_frame : MbpState → ℕ → ℕ → MbpState
note_frame s ch seq = elim (lookup ch s.open_snap) [
  | none ↦ s
  | some o ↦ record s { open_snap = put ch (note_port_seq o seq) s.open_snap }
]

abbrev pub opened_snap : InstrKey → ℕ → Message → OpenSnap
opened_snap k seq m = record {
  key = k;
  snap_id = snapshot_begin_snapshot_id m;
  anchor = snapshot_begin_anchor_seq m;
  total = snapshot_begin_total_orders m;
  last_k = snapshot_begin_last_instrument_seq m;
  depth = snapshot_begin_depth_bound m;
  levels = [];
  count = 0;
  dup_keys = 0;
  dirty = false;
  clean_count = 0;
  clean_dup_keys = 0;
  last_snap_port_seq = some seq;
}

-- A group of another instrument is still open.
unfoldable pub interleaving_findings : Bool → ℕ → ℕ → InstrKey → Option OpenSnap → List Emission
interleaving_findings snap_dirty ch seq k none = []
interleaving_findings snap_dirty ch seq k (some prev) =
    let st = mbp_group_status snap_dirty (some prev) in
    if not ((prev.key.0 == k.0) && (prev.key.1 == k.1))
    then group_finding group_structure st seq ch (some k.1) (mbp_reason st) ∷ []
    else []

unfoldable pub snapshot_begin_message : Bool → ℕ → ℕ → MbpState → Message → MbpState × List Emission
snapshot_begin_message snap_dirty ch seq s m =
    let k : InstrKey = (ch, snapshot_begin_instrument_id m) in
    if not (m.msg_length == 40) then (s, []) else (
      record s {
        saw_begin = put ch true s.saw_begin;
        open_snap = put ch (opened_snap k seq m) s.open_snap;
      },
      interleaving_findings snap_dirty ch seq k (lookup ch s.open_snap),
    )

abbrev pub has_level : Option ℕ → Bool
has_level none = false
has_level (some q) = true

-- A level counted into the group.
unfoldable pub add_level : OpenSnap → LevelKey → ℕ → OpenSnap
add_level o key qty = record o {
  dup_keys = if has_level (lookup key o.levels) then o.dup_keys + 1 else o.dup_keys;
  levels = put key qty o.levels;
  count = (o.count + 1) % 2 ^ 32;
}

abbrev pub level_key : Message → LevelKey
level_key m = (snapshot_level_side m, snapshot_level_price m)

-- The rest of the round, with the open group in hand.
unfoldable pub level_of_group :
    Bool → ℕ → ℕ → MbpState → OpenSnap → Message → MbpState × List Emission
level_of_group snap_dirty ch seq s o m =
    let st = mbp_group_status snap_dirty (some o) in
    let qty = snapshot_level_quantity m in
    if not (snapshot_level_snapshot_id m == o.snap_id)
    then (s, group_finding group_structure st seq ch (some o.key.1) (mbp_reason st) ∷ [])
    else (
      record s { open_snap = put ch (add_level o (level_key m) qty) s.open_snap },
      if qty == 0
          then group_finding group_structure Status.violation seq ch (some o.key.1) "" ∷ []
          else [],
    )

unfoldable pub snapshot_level_message : Bool → ℕ → ℕ → MbpState → Message → MbpState × List Emission
snapshot_level_message snap_dirty ch seq s m =
    let orphan = mbp_orphan_status snap_dirty s ch in
    if not (m.msg_length == 32) then (s, []) else elim (lookup ch s.open_snap) [
      | none ↦ (s, group_finding group_structure orphan.0 seq ch none orphan.1 ∷ [])
      | some o ↦ level_of_group snap_dirty ch seq s o m
    ]

-- `flushOpenMBPSnaps`.
unfoldable pub truncated_groups : List (ℕ × OpenSnap) → List Emission
truncated_groups [] = []
truncated_groups ((ch, o) ∷ groups) =
    group_finding group_structure Status.unverifiable 0 ch (some o.key.1) reason_truncated
    ∷ truncated_groups groups

unfoldable pub flush_open_mbp_snaps : MbpState → MbpState × List Emission
flush_open_mbp_snaps s = (record s { open_snap = [] }, truncated_groups s.open_snap)

-- ===== src/Engine/Mbo/Recovery.antt =====
-- engine/gate.go: what resets and snapshots do to the tracker of an instrument, and the gate of the
-- referential rules that reads it.
use edge_feed_spec.Base.{
  ℕ, List, [], ◌∷◌, none, some, Bool, true, false, not, ◌&&◌, ◌||◌, String, if◌then◌else◌, ltb,
  ◌==◌,
}
use edge_feed_spec.Core.Finding.{Status, snapshot, reason_reorder}
use edge_feed_spec.Engine.Emit.{Emission}
use edge_feed_spec.Engine.Mbo.{InstrTracker, new_tracker}
use edge_feed_spec.Engine.Mbo.Deltas.{DeltaPlace, instr_finding, next_u32}

-- The tracker that `onInstrumentReset` puts in place of the old one.
unfoldable pub reset_tracker : ℕ → InstrTracker
reset_tracker new_anchor_seq = record new_tracker {
  seen_reset = true;
  pending_reset_anchor = some new_anchor_seq;
  awaiting_recovery = true;
  awaiting_recovery_anchor = new_anchor_seq;
}

-- A finding on a frame of the snapshot port.
abbrev snap_finding : String → Status → DeltaPlace → String → Emission
snap_finding rule st at reason = record (instr_finding rule st at reason) { port = snapshot }

-- The numbers of a SnapshotBegin against the tracker; `pending` says that market data is held back.
unfoldable pub last_seq_findings : DeltaPlace → Bool → InstrTracker → ℕ → List Emission
last_seq_findings at pending t k = elim t.last_instr_seq [
  | none ↦ []
  | some last ↦
      if not (ltb last k)
      then []
      else if not at.gapless || (not at.gapless_snap || pending)
      then snap_finding "SNAP.LAST_INSTRUMENT_SEQ_CONSISTENT_WITH_DELTAS" Status.unverifiable at
          reason_reorder
        ∷ []
      else snap_finding "SNAP.LAST_INSTRUMENT_SEQ_CONSISTENT_WITH_DELTAS" Status.violation at ""
        ∷ []
]

-- A SnapshotBegin with the anchor and the last instrument number `k`.
unfoldable pub begin_recovery : InstrTracker → ℕ → ℕ → InstrTracker
begin_recovery t anchor_seq k = elim t.pending_reset_anchor [
  | none ↦ t
  | some pending ↦
      if anchor_seq == pending
      then record t { recovery_k = some k; pending_reset_anchor = none }
      else t
]

-- The reset rules when a snapshot group is complete; `dirty` says the group met a gap.
unfoldable pub complete_recovery :
    DeltaPlace → Bool → InstrTracker → ℕ → InstrTracker × List Emission
complete_recovery at dirty t anchor_seq =
    let st = (if not dirty && at.gapless then Status.violation else Status.unverifiable) in
    let matches =
      (if anchor_seq == t.awaiting_recovery_anchor
        then snap_finding "RESET.RECOVERY_SNAPSHOT_ANCHOR_MATCHES_RESET" Status.pass at ""
        else snap_finding "RESET.RECOVERY_SNAPSHOT_ANCHOR_MATCHES_RESET" st at "") in
    if t.awaiting_recovery
    then (
      record t { awaiting_recovery = false },
      snap_finding "RESET.SNAPSHOT_FOLLOWS" Status.pass at "" ∷ matches ∷ [],
    )
    else (t, [])

-- `gateConsumer`: `known` says that the reference data are there and define the instrument.
unfoldable pub gate_consumer : Bool → Bool → InstrTracker → ℕ → Bool
gate_consumer known gapless t n = elim t.last_instr_seq [
  | none ↦ false
  | some last ↦ known && (t.book_trusted && ((n == next_u32 last) && gapless))
]

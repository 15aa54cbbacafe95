-- ===== src/Engine/Mbo/Events.antt =====
-- engine/gate.go: everything that befalls the tracker of one instrument, in the order of the calls.
use edge_feed_spec.Base.{ℕ, ◌≡◌, ◌⊎◌, List, [], ◌∷◌, ◌++◌, Bool}
use edge_feed_spec.Engine.Emit.{Emission}
use edge_feed_spec.Engine.Mbo.{InstrTracker, new_tracker}
use edge_feed_spec.Engine.Mbo.Deltas.{DeltaPlace, apply_delta_seq}
use edge_feed_spec.Engine.Mbo.Recovery.{
  reset_tracker, last_seq_findings, begin_recovery, complete_recovery,
}

-- A delta as it arrives: its place, its number and the hash of its body.
pub record Arrival : Type 0 where
  pub place : DeltaPlace
  pub number : ℕ
  pub hash : ℕ

-- A delta; an InstrumentReset with its anchor; a SnapshotBegin with its place, whether
-- market data is held back, its anchor and number; the end of a complete snapshot group; a new era or a manifest that drops the instrument.
pub data TrackerEvent : Type 0 where
  delta : Arrival → TrackerEvent
  instrument_reset : ℕ → TrackerEvent
  snapshot_begun : DeltaPlace → Bool → ℕ → ℕ → TrackerEvent
  snapshot_completed : DeltaPlace → Bool → ℕ → TrackerEvent
  forgotten : TrackerEvent

unfoldable pub on_event : InstrTracker → TrackerEvent → InstrTracker × List Emission
on_event t (delta a) = apply_delta_seq a.place t a.number a.hash
on_event t (instrument_reset anchor) = (reset_tracker anchor, [])
on_event t (snapshot_begun at pending anchor k) =
    (begin_recovery t anchor k, last_seq_findings at pending t k)
on_event t (snapshot_completed at dirty anchor) = complete_recovery at dirty t anchor
on_event t forgotten = (new_tracker, [])

-- The tracker after the events, the first in the list last.
unfoldable pub met : List TrackerEvent → InstrTracker
met [] = new_tracker
met (e ∷ rest) = (on_event (met rest) e).0

-- The findings of the events.
unfoldable pub met_findings : List TrackerEvent → List Emission
met_findings [] = []
met_findings (e ∷ rest) = met_findings rest ++ (on_event (met rest) e).1

-- A delta numbered `n` is among the events since the last one that cleared the tracker.
unfoldable pub Arrived : ℕ → List TrackerEvent → Type 0
Arrived n [] = ⊥
Arrived n (delta a ∷ rest) = (a.number ≡ n) ⊎ Arrived n rest
Arrived n (instrument_reset anchor ∷ rest) = ⊥
Arrived n (snapshot_begun at pending anchor k ∷ rest) = Arrived n rest
Arrived n (snapshot_completed at dirty anchor ∷ rest) = Arrived n rest
Arrived n (forgotten ∷ rest) = ⊥

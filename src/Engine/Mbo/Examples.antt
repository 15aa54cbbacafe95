-- ===== src/Engine/Mbo/Examples.antt =====
-- engine/gate.go: runs of the tracker of an instrument on concrete deltas, resets and snapshots.
use edge_feed_spec.Base.{
  ℕ, ◌+◌, ◌-◌, ◌^◌, ◌≡◌, ◌≤◌, ◌<◌, refl, List, [], ◌∷◌, none, some, true, false, arith, All, length,
}
use edge_feed_spec.Core.Finding.{Status}
use edge_feed_spec.Engine.Mbo.{new_tracker, ring_record, ring_lookup, ring_search, new_ring}
use edge_feed_spec.Engine.Mbo.Deltas.{
  DeltaPlace, instr_finding, apply_delta_seq, seq_delta, first_delta_seq, later_delta_seq,
  judge_delta_seq, repeat_findings, premature_findings, recovery_findings, first_value_findings,
}
use edge_feed_spec.Engine.Mbo.Events.{
  TrackerEvent, delta, instrument_reset, snapshot_begun, snapshot_completed, on_event, met,
  met_findings, Arrived,
}
use edge_feed_spec.Engine.Mbo.Recovery.{
  reset_tracker, begin_recovery, last_seq_findings, complete_recovery, gate_consumer,
}
use edge_feed_spec.Engine.Mbo.Lossy.{IsBlameless, IsLossy, met_findings-IsBlameless}
use edge_feed_spec.Engine.Mbo.Trust.{gate_consumer-Arrived}
use edge_feed_spec.Engine.Mbo.Dense.{dense_run, dense_run-silent}

abbrev place : DeltaPlace
place = record {
  channel = 0;
  instr_id = 7;
  frame_seq = 40;
  gapless = true;
  gapless_snap = true;
  snap_port_bound = true;
}

abbrev numbered : ℕ → TrackerEvent
numbered n = delta (record { place = place; number = n; hash = 100 + n })

-- A delta, a reset, the recovery snapshot, and a new start that repeats its second delta.
abbrev restarted : List TrackerEvent
restarted = numbered 2 ∷ numbered 2 ∷ numbered 1 ∷ instrument_reset 30 ∷ numbered 1 ∷ []

restarted_passes : gate_consumer true true (met restarted) 3 ≡ true
unfolding gate_consumer met on_event apply_delta_seq seq_delta first_delta_seq later_delta_seq
    judge_delta_seq repeat_findings premature_findings recovery_findings first_value_findings
    ring_record ring_lookup ring_search new_ring new_tracker reset_tracker begin_recovery
    complete_recovery
restarted_passes = refl

-- A jump closes the gate.
jump_closes : gate_consumer true true (met (numbered 3 ∷ numbered 1 ∷ [])) 4 ≡ false
unfolding gate_consumer met on_event apply_delta_seq seq_delta first_delta_seq later_delta_seq
    judge_delta_seq repeat_findings premature_findings recovery_findings first_value_findings
    ring_record ring_lookup ring_search new_ring new_tracker reset_tracker begin_recovery
    complete_recovery
jump_closes = refl

-- After the recovery snapshot the numbers go on behind the snapshot's.
recovery_resumes :
    length (
      met_findings (
        numbered 10
        ∷ snapshot_completed place false 30
        ∷ snapshot_begun place false 30 9
        ∷ instrument_reset 30
        ∷ []))
    ≡ 3
unfolding met_findings met on_event last_seq_findings apply_delta_seq seq_delta first_delta_seq
    later_delta_seq judge_delta_seq repeat_findings premature_findings recovery_findings
    first_value_findings ring_record ring_lookup ring_search new_ring new_tracker reset_tracker
    begin_recovery complete_recovery
recovery_resumes = refl

-- A ring holds what was recorded.
ring_holds : (ring_lookup (ring_record new_ring 5 50) 5 ≡ some 50) × (ring_lookup new_ring 5 ≡ none)
unfolding ring_record ring_lookup ring_search new_ring
ring_holds = (refl, refl)

-- At the greatest number a repeated delta is reported as a jump.
top_repeat_jumps :
    (judge_delta_seq place new_tracker (2 ^ 32 - 1) 5 0).1
    ≡ instr_finding "DELTA.PERINSTR_DENSITY" Status.violation place "" ∷ []
unfolding judge_delta_seq repeat_findings new_tracker
top_repeat_jumps = refl

gate_consumer-Arrived_example : (true ≡ true) × ((i : ℕ) → 1 ≤ i → i < 3 → Arrived i restarted)
gate_consumer-Arrived_example = gate_consumer-Arrived true true restarted 3 restarted_passes

dense_run-silent_example :
    (met_findings (dense_run ((place, 8) ∷ (place, 9) ∷ [])) ≡ [])
    × (gate_consumer true true (met (dense_run ((place, 8) ∷ (place, 9) ∷ []))) 3 ≡ true)
dense_run-silent_example = dense_run-silent place 8 ((place, 9) ∷ []) (omega arith)

-- A lossy capture: a jump, a restart and a wrong anchor.
abbrev lossy_place : DeltaPlace
lossy_place = record place { gapless = false }

abbrev lossy_run : List TrackerEvent
lossy_run =
    delta (record { place = lossy_place; number = 5; hash = 1 })
    ∷ snapshot_completed lossy_place false 31
    ∷ instrument_reset 30
    ∷ delta (record { place = lossy_place; number = 1; hash = 2 })
    ∷ delta (record { place = lossy_place; number = 9; hash = 3 })
    ∷ delta (record { place = lossy_place; number = 2; hash = 4 })
    ∷ []

met_findings-IsBlameless_example : All IsBlameless (met_findings lossy_run)
unfolding IsLossy
met_findings-IsBlameless_example =
    met_findings-IsBlameless lossy_run (refl, (refl, (tt, (refl, (refl, (refl, tt))))))

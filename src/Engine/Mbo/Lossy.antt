-- ===== src/Engine/Mbo/Lossy.antt =====
-- engine/gate.go: the tracker of an instrument on market data with loss.
use edge_feed_spec.Base.{
  ℕ, ◌≡◌, ◌≢◌, sym, subst, List, [], ◌∷◌, Bool, false, arith, All, All-append, Option-cases, inl,
  inr,
}
use edge_feed_spec.Core.Finding.{Status}
use edge_feed_spec.Engine.Emit.{Emission}
use edge_feed_spec.Engine.Mbo.{InstrTracker}
use edge_feed_spec.Engine.Mbo.Deltas.{
  DeltaPlace, premature_findings, recovery_findings, first_value_findings, first_delta_seq,
  repeat_findings, judge_delta_seq, later_delta_seq, seq_delta, apply_delta_seq,
}
use edge_feed_spec.Engine.Mbo.Events.{
  TrackerEvent, delta, instrument_reset, snapshot_begun, snapshot_completed, forgotten, on_event,
  met, met_findings,
}
use edge_feed_spec.Engine.Mbo.Trust.{seq_delta-first, seq_delta-later}
use edge_feed_spec.Engine.Mbo.Recovery.{last_seq_findings, complete_recovery}

abbrev pub IsBlameless : Emission → Type 0
IsBlameless e = e.status ≢ Status.violation

-- The market data had loss when the event came.
unfoldable pub IsLossy : TrackerEvent → Type 0
IsLossy (delta a) = a.place.gapless ≡ false
IsLossy (instrument_reset anchor) = Unit
IsLossy (snapshot_begun at pending anchor k) = at.gapless ≡ false
IsLossy (snapshot_completed at dirty anchor) = at.gapless ≡ false
IsLossy forgotten = Unit

premature_findings-IsBlameless :
    (at : DeltaPlace) (t : InstrTracker)
    → at.gapless ≡ false
    → All IsBlameless (premature_findings at t)
unfolding premature_findings
premature_findings-IsBlameless at t lossy = rw lossy (ground arith)

first_delta_seq-IsBlameless :
    (at : DeltaPlace) (t : InstrTracker) (n hash : ℕ)
    → at.gapless ≡ false
    → All IsBlameless (first_delta_seq at t n hash).1
unfolding first_delta_seq recovery_findings first_value_findings
first_delta_seq-IsBlameless at t n hash lossy = ground arith

judge_delta_seq-IsBlameless :
    (at : DeltaPlace) (t : InstrTracker) (last n hash : ℕ)
    → at.gapless ≡ false
    → All IsBlameless (judge_delta_seq at t last n hash).1
unfolding judge_delta_seq repeat_findings
judge_delta_seq-IsBlameless at t last n hash lossy = rw lossy (ground arith)

last_seq_findings-IsBlameless :
    (at : DeltaPlace) (pending : Bool) (t : InstrTracker) (k : ℕ)
    → at.gapless ≡ false
    → All IsBlameless (last_seq_findings at pending t k)
unfolding last_seq_findings
last_seq_findings-IsBlameless at pending t k lossy = rw lossy (ground arith)

complete_recovery-IsBlameless :
    (at : DeltaPlace) (dirty : Bool) (t : InstrTracker) (anchor_seq : ℕ)
    → at.gapless ≡ false
    → All IsBlameless (complete_recovery at dirty t anchor_seq).1
unfolding complete_recovery
complete_recovery-IsBlameless at dirty t anchor_seq lossy = rw lossy (ground arith)

seq_delta-IsBlameless :
    (at : DeltaPlace) (t : InstrTracker) (n hash : ℕ)
    → at.gapless ≡ false
    → All IsBlameless (seq_delta at t n hash).1
unfolding later_delta_seq
seq_delta-IsBlameless at t n hash lossy = elim (Option-cases t.last_instr_seq) [
  | inl unset ↦
      subst (λ r. All IsBlameless r.1) (sym (seq_delta-first at t n hash unset))
        (first_delta_seq-IsBlameless at t n hash lossy)
  | inr (last, at_last) ↦
      subst (λ r. All IsBlameless r.1) (sym (seq_delta-later at t last n hash at_last))
        (judge_delta_seq-IsBlameless at t last n hash lossy)
]

on_event-IsBlameless :
    (t : InstrTracker) (e : TrackerEvent) → IsLossy e → All IsBlameless (on_event t e).1
unfolding on_event IsLossy apply_delta_seq
on_event-IsBlameless t (delta a) lossy =
    All-append IsBlameless (premature_findings a.place t) _
      (premature_findings-IsBlameless a.place t lossy)
      (seq_delta-IsBlameless a.place (record t { awaiting_recovery = false }) a.number a.hash lossy)
on_event-IsBlameless t (instrument_reset anchor) lossy = tt
on_event-IsBlameless t (snapshot_begun at pending anchor k) lossy =
    last_seq_findings-IsBlameless at pending t k lossy
on_event-IsBlameless t (snapshot_completed at dirty anchor) lossy =
    complete_recovery-IsBlameless at dirty t anchor lossy
on_event-IsBlameless t forgotten lossy = tt

-- When the market data had loss at every delta and snapshot of an instrument, then no order of
-- deltas, resets, snapshots and clearings, whatever their numbers, anchors and contents, makes the
-- sequence and recovery rules of its tracker report a violation.
pub met_findings-IsBlameless :
    (events : List TrackerEvent) → All IsLossy events → All IsBlameless (met_findings events)
unfolding met_findings
met_findings-IsBlameless [] lossy = tt
met_findings-IsBlameless (e ∷ rest) lossy =
    All-append IsBlameless (met_findings rest) _ (met_findings-IsBlameless rest lossy.1)
      (on_event-IsBlameless (met rest) e lossy.0)

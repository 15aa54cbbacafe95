-- ===== src/Engine/Mbo/Deltas.antt =====
-- engine/gate.go: `applyDeltaSeq`, the per-instrument sequence of the market-by-order deltas.
use edge_feed_spec.Base.{
  ℕ, ◌+◌, ◌%◌, ◌^◌, ◌-◌, List, [], ◌∷◌, ◌++◌, Option, none, some, Bool, true, false, not, ◌&&◌,
  ◌||◌, String, if◌then◌else◌, ltb, ◌==◌,
}
use edge_feed_spec.Core.Finding.{Status, mkt_data, reason_loss, reason_cold_start}
use edge_feed_spec.Engine.Emit.{Emission}
use edge_feed_spec.Engine.Mbo.{InstrTracker, ring_record, ring_lookup}

-- The channel, the instrument and the frame of a delta, and what the engine says of the ports:
-- the market data and the snapshot series of the channel are without loss, the snapshot port was seen.
pub record DeltaPlace : Type 0 where
  pub channel : ℕ
  pub instr_id : ℕ
  pub frame_seq : ℕ
  pub gapless : Bool
  pub gapless_snap : Bool
  pub snap_port_bound : Bool

abbrev pub instr_finding : String → Status → DeltaPlace → String → Emission
instr_finding rule st at reason = record {
  rule_id = rule;
  status = st;
  port = mkt_data;
  seq = at.frame_seq;
  channel_id = at.channel;
  instrument = some at.instr_id;
  reason = reason;
}

abbrev report_if : Bool → Emission → List Emission
report_if b e = if b then e ∷ [] else []

-- A violation, or unverifiable on a series with loss.
abbrev graded : DeltaPlace → Status
graded at = if at.gapless then Status.violation else Status.unverifiable

abbrev loss_reason : DeltaPlace → String
loss_reason at = if at.gapless then "" else reason_loss

-- A delta before the recovery snapshot that a reset announced.
unfoldable pub premature_findings : DeltaPlace → InstrTracker → List Emission
premature_findings at t =
    let st =
      (if not at.snap_port_bound
        then Status.na
        else if not at.gapless || not at.gapless_snap
        then Status.unverifiable
        else Status.violation) in
    report_if t.awaiting_recovery (instr_finding "RESET.SNAPSHOT_FOLLOWS" st at "")

abbrev pub next_u32 : ℕ → ℕ
next_u32 n = (n + 1) % 2 ^ 32

-- The first delta after a recovery snapshot taken at `k`.
unfoldable pub recovery_findings : DeltaPlace → ℕ → ℕ → List Emission
recovery_findings at k n =
    if not (n == next_u32 k)
    then instr_finding "RESET.NO_DANGLING_DELTAS_AT_OR_BELOW_ANCHOR" (graded at) at (loss_reason at)
      ∷ []
    else instr_finding "RESET.NO_DANGLING_DELTAS_AT_OR_BELOW_ANCHOR" Status.pass at "" ∷ []

unfoldable pub first_value_findings : DeltaPlace → InstrTracker → ℕ → List Emission
first_value_findings at t n =
    if n == 1
    then []
    else if not t.seen_reset
    then instr_finding "DELTA.PERINSTR_FIRST_VALUE" Status.unverifiable at reason_cold_start ∷ []
    else instr_finding "DELTA.PERINSTR_FIRST_VALUE" (graded at) at "" ∷ []

-- The first delta of an instrument in the era, or after a reset.
unfoldable pub first_delta_seq : DeltaPlace → InstrTracker → ℕ → ℕ → InstrTracker × List Emission
first_delta_seq at t n hash =
    let begun : InstrTracker = record t {
      last_instr_seq = some n;
      seen_reset = false;
      payloads = ring_record t.payloads n hash;
    } in
    elim t.recovery_k [
      | some k ↦ (begun, recovery_findings at k n)
      | none ↦ (
        record begun { book_trusted = if n == 1 then true else t.book_trusted },
        first_value_findings at t n,
      )
    ]

abbrev is_unset : Option ℕ → Bool
is_unset none = true
is_unset (some n) = false

abbrev diverges : Option ℕ → ℕ → Bool
diverges none hash = false
diverges (some prev) hash = not (prev == hash)

-- A number at or below the last.
unfoldable pub repeat_findings : DeltaPlace → InstrTracker → ℕ → ℕ → ℕ → List Emission
repeat_findings at t last n hash =
    report_if ((n == 1) && (ltb 1 last && (not t.seen_reset && is_unset t.pending_reset_anchor)))
      (instr_finding "DELTA.PERINSTR_NO_SNAPSHOT_RESET" (graded at) at "")
    ++ report_if (diverges (ring_lookup t.payloads n) hash)
        (instr_finding "DELTA.PERINSTR_DUP_DIVERGENT" (graded at) at "")

-- The switch on a later delta.
unfoldable pub judge_delta_seq :
    DeltaPlace → InstrTracker → ℕ → ℕ → ℕ → InstrTracker × List Emission
judge_delta_seq at t last n hash =
    if n == next_u32 last
    then (
      t,
      report_if (last == 2 ^ 32 - 1)
          (instr_finding "DELTA.PERINSTR_WRAP_BEFORE_RESET" (graded at) at ""),
    )
    else if ltb (next_u32 last) n
    then (
      record t { book_trusted = false },
      instr_finding "DELTA.PERINSTR_DENSITY" (graded at) at (loss_reason at) ∷ [],
    )
    else (record t { book_corrupted_by_dup = true }, repeat_findings at t last n hash)

unfoldable pub later_delta_seq :
    DeltaPlace → InstrTracker → ℕ → ℕ → ℕ → InstrTracker × List Emission
later_delta_seq at t last n hash =
    let (judged, found) = judge_delta_seq at t last n hash in
    (
      record judged {
        payloads = ring_record judged.payloads n hash;
        last_instr_seq = some (if ltb last n then n else last);
      },
      found,
    )

-- The rest of the call, once the tracker's reset is looked at.
unfoldable pub seq_delta : DeltaPlace → InstrTracker → ℕ → ℕ → InstrTracker × List Emission
seq_delta at t n hash = elim t.last_instr_seq [
  | none ↦ first_delta_seq at t n hash
  | some last ↦ later_delta_seq at t last n hash
]

-- `applyDeltaSeq` on the instrument's tracker; the hash of the delta's body is an argument.
unfoldable pub apply_delta_seq : DeltaPlace → InstrTracker → ℕ → ℕ → InstrTracker × List Emission
apply_delta_seq at t n hash =
    let (after, found) = seq_delta at (record t { awaiting_recovery = false }) n hash in
    (after, premature_findings at t ++ found)

-- ===== src/Engine/Mbp/Sequence.antt =====
-- engine/mbp.go: `checkMBPSeq`, the per-instrument sequence of the deltas.
use edge_feed_spec.Base.{
  ℕ, ◌+◌, ◌%◌, ◌^◌, List, [], ◌∷◌, some, Bool, true, false, not, ◌&&◌, String, if◌then◌else◌, ltb,
  ◌==◌,
}
use edge_feed_spec.Core.Finding.{Status, mkt_data, reason_capture_loss}
use edge_feed_spec.Engine.Emit.{Emission}
use edge_feed_spec.Engine.Mbp.{InstrKey, Instr}

-- Whether the message may be applied, the tracker after it, and what was emitted.
pub record SeqResult : Type 0 where
  pub accepted : Bool
  pub tracker : Instr
  pub emitted : List Emission

-- `lastSeq+1` of a uint32.
abbrev pub next_seq : ℕ → ℕ
next_seq n = (n + 1) % 2 ^ 32

-- A finding of a delta on the market data port.
abbrev pub delta_finding : String → Status → ℕ → InstrKey → String → Emission
delta_finding rule st seq k reason = record {
  rule_id = rule;
  status = st;
  port = mkt_data;
  seq = seq;
  channel_id = k.0;
  instrument = some k.1;
  reason = reason;
}

-- The status and the reason; the tracker's epoch is then spent.
unfoldable pub mbp_density_status : ℕ → Instr → Status × String
mbp_density_status epoch t =
    if not (t.capture_epoch == epoch)
    then (Status.unverifiable, reason_capture_loss)
    else (Status.violation, "")

-- The switch over the number that arrives, once the tracker has one.
unfoldable pub check_against_last : ℕ → Instr → InstrKey → ℕ → ℕ → SeqResult
check_against_last epoch t k got seq =
    let graded = mbp_density_status epoch t in
    if got == next_seq t.last_seq
    then record {
      accepted = true;
      tracker = record t { last_seq = got; capture_epoch = epoch };
      emitted = [];
    }
    else if ltb (next_seq t.last_seq) got
    then record {
      accepted = true;
      tracker = record t { gapped = true; last_seq = got; capture_epoch = epoch };
      emitted = delta_finding "MBP.DELTA.PERINSTR_DENSITY" graded.0 seq k graded.1 ∷ [];
    }
    else record { accepted = false; tracker = t; emitted = [] }

unfoldable pub check_mbp_seq : ℕ → Instr → InstrKey → ℕ → ℕ → SeqResult
check_mbp_seq epoch t k got seq =
    let seen = record t { saw_snapshot_since_delta = false } in
    let against = check_against_last epoch seen k got seq in
    if not t.last_seq_set
    then record {
      accepted = true;
      tracker = record seen { last_seq = got; last_seq_set = true; capture_epoch = epoch };
      emitted = [];
    }
    else if t.saw_snapshot_since_delta && ((got == 1) && ltb 1 t.last_seq)
    then record {
      accepted = false;
      tracker = record seen { gapped = true };
      emitted = delta_finding "MBP.DELTA.PERINSTR_NO_SNAPSHOT_RESET" Status.violation seq k "" ∷ [];
    }
    else against

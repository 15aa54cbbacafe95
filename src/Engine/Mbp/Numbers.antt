-- ===== src/Engine/Mbp/Numbers.antt =====
-- engine/mbp.go: the number that a tracker keeps of an instrument's deltas.
use edge_feed_spec.Base.{
  ℕ, ◌+◌, ◌^◌, ◌≤◌, ◌<◌, ◌≡◌, refl, ◌≢◌, String, some, [], ◌∷◌, true, false, ◌==◌, leb, arith,
  Bool-cases, inl, inr,
}
use edge_feed_spec.Core.Finding.{Status, reason_capture_loss}
use edge_feed_spec.Engine.Emit.{Emission}
use edge_feed_spec.Engine.Mbp.{InstrKey, Instr}
use edge_feed_spec.Engine.Mbp.Sequence.{SeqResult, check_mbp_seq, delta_finding, mbp_density_status}
use edge_feed_spec.Engine.Mbp.Arrivals.{
  restarts, seen, check_mbp_seq_restart, check_mbp_seq_late, check_mbp_seq_next, check_mbp_seq_gap,
}

-- A 1 right after a snapshot, below the tracker's number: the restart that needs a reset.
pub Restart : Instr → ℕ → Type 0
Restart t n = (n ≡ 1) × (1 < t.last_seq) × (t.saw_snapshot_since_delta ≡ true)

-- A finding of one delta on the instrument `k`, with its rule, and nothing else.
pub record Reported (k : InstrKey) (seq : ℕ) (rule : String) (r : SeqResult) : Type 0 where
  pub finding : Emission
  pub alone : r.emitted ≡ finding ∷ []
  pub its_rule : finding.rule_id ≡ rule
  pub its_instrument : finding.instrument ≡ some k.1
  pub its_channel : finding.channel_id ≡ k.0
  pub its_frame : finding.seq ≡ seq

-- The missing numbers are the recorder's loss if it admitted one since the tracker's last delta, and
-- the publisher's otherwise.
pub record Charged (epoch : ℕ) (t : Instr) (e : Emission) : Type 0 where
  pub own_loss :
      t.capture_epoch ≢ epoch → (e.status ≡ Status.unverifiable) × (e.reason ≡ reason_capture_loss)
  pub publisher : t.capture_epoch ≡ epoch → (e.status ≡ Status.violation) × (e.reason ≡ "")

-- The outcome for a delta with the number `n`, on a tracker that has a number.
pub data Judged (epoch : ℕ) (t : Instr) (k : InstrKey) (n seq : ℕ) (r : SeqResult) : Type 0 where
  dense :
      n ≡ t.last_seq + 1
      → r.accepted ≡ true
      → r.tracker.last_seq ≡ n
      → r.tracker.gapped ≡ t.gapped
      → r.emitted ≡ []
      → Judged epoch t k n seq r
  jumped :
      t.last_seq + 1 < n
      → r.accepted ≡ true
      → r.tracker.last_seq ≡ n
      → r.tracker.gapped ≡ true
      → (f : Reported k seq "MBP.DELTA.PERINSTR_DENSITY" r) → Charged epoch t f.finding
      → Judged epoch t k n seq r
  late :
      n ≤ t.last_seq
      → ¬ Restart t n
      → r.accepted ≡ false
      → r.tracker.last_seq ≡ t.last_seq
      → r.tracker.gapped ≡ t.gapped
      → r.emitted ≡ []
      → Judged epoch t k n seq r
  restarted :
      Restart t n
      → r.accepted ≡ false
      → r.tracker.last_seq ≡ t.last_seq
      → r.tracker.gapped ≡ true
      → (f : Reported k seq "MBP.DELTA.PERINSTR_NO_SNAPSHOT_RESET" r)
      → f.finding.status ≡ Status.violation
      → Judged epoch t k n seq r

restarts-Restart : (t : Instr) (n : ℕ) → restarts t n ≡ true → Restart t n
unfolding Restart
restarts-Restart t n h = ground arith

restarts-eq-false : (t : Instr) (n : ℕ) → restarts t n ≡ false → ¬ Restart t n
unfolding Restart
restarts-eq-false t n h again = ground arith

density-Charged :
    (epoch : ℕ) (t : Instr) (k : InstrKey) (seq : ℕ)
    → Charged epoch t (
        delta_finding "MBP.DELTA.PERINSTR_DENSITY"
          (mbp_density_status epoch (seen t)).0
          seq
          k
          (mbp_density_status epoch (seen t)).1)
unfolding mbp_density_status
density-Charged epoch t k seq = record {
  own_loss = λ h. (ground arith, ground arith);
  publisher = λ h. (ground arith, ground arith);
}

-- On a tracker whose number is set and below 2^32 - 1, a delta is applied exactly if its number is
-- greater: the next one without a finding, a later one with the loss of trust and one density finding,
-- unverifiable if the recorder admitted loss since the tracker's last delta and a violation if not. A
-- number up to the tracker's is discarded, in silence unless it is a 1 right after a snapshot and
-- below the tracker's number: that is one violation of the restart rule and costs the trust.
pub check_mbp_seq-Judged :
    (epoch : ℕ) (t : Instr) (k : InstrKey) (n seq : ℕ)
    → t.last_seq_set ≡ true
    → t.last_seq + 1 < 2 ^ 32
    → Judged epoch t k n seq (check_mbp_seq epoch t k n seq)
check_mbp_seq-Judged epoch t k n seq set small = elim (Bool-cases (restarts t n)) [
  | inl again ↦ rw (check_mbp_seq_restart epoch t k n seq set again) (
      restarted (restarts-Restart t n again) refl refl refl
        (record {
          finding = _;
          alone = refl;
          its_rule = refl;
          its_instrument = refl;
          its_channel = refl;
          its_frame = refl;
        })
        refl)
  | inr over ↦ elim (Bool-cases (leb n t.last_seq)) [
    | inl behind ↦
        rw (check_mbp_seq_late epoch t k n seq set small over (ground arith))
          (late (ground arith) (restarts-eq-false t n over) refl refl refl refl)
    | inr ahead ↦ elim (Bool-cases (n == t.last_seq + 1)) [
      | inl here ↦
          rw (check_mbp_seq_next epoch t k n seq set small over (ground arith))
            (dense (ground arith) refl refl refl refl)
      | inr past ↦ rw (check_mbp_seq_gap epoch t k n seq set small over (ground arith)) (
          jumped (ground arith) refl refl refl
            (record {
              finding = _;
              alone = refl;
              its_rule = refl;
              its_instrument = refl;
              its_channel = refl;
              its_frame = refl;
            })
            (density-Charged epoch t k seq))
    ]
  ]
]

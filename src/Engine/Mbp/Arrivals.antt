-- ===== src/Engine/Mbp/Arrivals.antt =====
-- engine/mbp.go: what the sequence check makes of each number that arrives.
use edge_feed_spec.Base.{
  ℕ, ◌+◌, ◌^◌, ◌≤◌, ◌<◌, ◌≡◌, ap, ◌∙◌, List, [], ◌∷◌, true, false, ltb, arith, Bool, not, ◌&&◌,
  ◌==◌, if_true, if_false,
}
use edge_feed_spec.Core.Finding.{Status}
use edge_feed_spec.Engine.Emit.{Emission}
use edge_feed_spec.Engine.Mbp.{InstrKey, Instr}
use edge_feed_spec.Engine.Mbp.Sequence.{
  SeqResult, check_mbp_seq, check_against_last, next_seq, delta_finding, mbp_density_status,
}

-- The number 1 right after a snapshot, for a tracker that is past it.
abbrev pub restarts : Instr → ℕ → Bool
restarts t n = t.saw_snapshot_since_delta && ((n == 1) && ltb 1 t.last_seq)

-- The tracker once a delta was observed.
abbrev pub seen : Instr → Instr
seen t = record t { saw_snapshot_since_delta = false }

abbrev advanced_past : Instr → List Emission → SeqResult
advanced_past t es = record { accepted = true; tracker = t; emitted = es }

module _ (epoch : ℕ) (t : Instr) (k : InstrKey) (n seq : ℕ) where
  pub check_mbp_seq_first :
      t.last_seq_set ≡ false
      → check_mbp_seq epoch t k n seq ≡ record {
        accepted = true;
        tracker = record (seen t) { last_seq = n; last_seq_set = true; capture_epoch = epoch };
        emitted = [];
      }
  unfolding check_mbp_seq
  check_mbp_seq_first h = if_true _ _ _ (ap not h)

  module _ (set : t.last_seq_set ≡ true) where
    pub check_mbp_seq_restart :
        restarts t n ≡ true
        → check_mbp_seq epoch t k n seq ≡ record {
          accepted = false;
          tracker = record (seen t) { gapped = true };
          emitted =
              delta_finding "MBP.DELTA.PERINSTR_NO_SNAPSHOT_RESET" Status.violation seq k "" ∷ [];
        }
    unfolding check_mbp_seq
    check_mbp_seq_restart h = if_false _ _ _ (ap not set) ∙ if_true _ _ _ h

    past_restart :
        restarts t n ≡ false
        → check_mbp_seq epoch t k n seq ≡ check_against_last epoch (seen t) k n seq
    unfolding check_mbp_seq
    past_restart h = if_false _ _ _ (ap not set) ∙ if_false _ _ _ h

    module _ (small : t.last_seq + 1 < 2 ^ 32) (no_restart : restarts t n ≡ false) where
      next : next_seq t.last_seq ≡ t.last_seq + 1
      next = omega arith

      pub check_mbp_seq_late :
          n ≤ t.last_seq
          → check_mbp_seq epoch t k n seq
            ≡ record { accepted = false; tracker = seen t; emitted = [] }
      unfolding check_against_last
      check_mbp_seq_late h =
          past_restart no_restart
          ∙ if_false _ _ _ (ap (λ x. n == x) next ∙ ground arith)
          ∙ if_false _ _ _ (ap (λ x. ltb x n) next ∙ ground arith)

      pub check_mbp_seq_next :
          n ≡ t.last_seq + 1
          → check_mbp_seq epoch t k n seq ≡ record {
            accepted = true;
            tracker = record (seen t) { last_seq = n; last_seq_set = true; capture_epoch = epoch };
            emitted = [];
          }
      unfolding check_against_last
      check_mbp_seq_next h =
          past_restart no_restart
          ∙ if_true _ _ _ (ap (λ x. n == x) next ∙ ground (arith, h))
          ∙ ap
              (λ b.
                advanced_past
                  (record (seen t) { last_seq = n; last_seq_set = b; capture_epoch = epoch }) [])
              set

      pub check_mbp_seq_gap :
          t.last_seq + 1 < n
          → check_mbp_seq epoch t k n seq ≡ record {
            accepted = true;
            tracker = record (seen t) {
              gapped = true;
              last_seq = n;
              last_seq_set = true;
              capture_epoch = epoch;
            };
            emitted =
                delta_finding "MBP.DELTA.PERINSTR_DENSITY"
                  (mbp_density_status epoch (seen t)).0
                  seq
                  k
                  (mbp_density_status epoch (seen t)).1
                ∷ [];
          }
      unfolding check_against_last
      check_mbp_seq_gap h =
          past_restart no_restart
          ∙ if_false _ _ _ (ap (λ x. n == x) next ∙ ground arith)
          ∙ if_true _ _ _ (ap (λ x. ltb x n) next ∙ ground arith)
          ∙ ap
              (λ b.
                advanced_past
                  (record (seen t) {
                    gapped = true;
                    last_seq = n;
                    last_seq_set = b;
                    capture_epoch = epoch;
                  })
                  (delta_finding "MBP.DELTA.PERINSTR_DENSITY" (mbp_density_status epoch (seen t)).0
                      seq k (mbp_density_status epoch (seen t)).1
                    ∷ []))
              set

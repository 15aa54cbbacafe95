-- ===== src/Engine/Mbo/Dense.antt =====
-- engine/gate.go: `applyDeltaSeq` on deltas that arrive in order, none missing.
use edge_feed_spec.Base.{
  ℕ, suc, ◌+◌, ◌^◌, ◌<◌, ◌≡◌, refl, sym, ap, subst, ◌∙◌, List, [], ◌∷◌, ◌++◌, some, true, false,
  length, arith,
}
use edge_feed_spec.Engine.Emit.{Emission}
use edge_feed_spec.Engine.Mbo.{InstrTracker, new_tracker}
use edge_feed_spec.Engine.Mbo.Deltas.{
  DeltaPlace, first_delta_seq, first_value_findings, judge_delta_seq, later_delta_seq, seq_delta,
  apply_delta_seq, premature_findings,
}
use edge_feed_spec.Engine.Mbo.Events.{TrackerEvent, delta, on_event, met, met_findings}
use edge_feed_spec.Engine.Mbo.Trust.{seq_delta-later}
use edge_feed_spec.Engine.Mbo.Recovery.{gate_consumer}

-- Deltas of one instrument with the numbers 1, 2, 3, ..., each with its place and hash.
unfoldable pub dense_run : List (DeltaPlace × ℕ) → List TrackerEvent
dense_run [] = []
dense_run ((at, hash) ∷ rest) =
    delta (record { place = at; number = suc (length rest); hash = hash }) ∷ dense_run rest

-- The tracker follows a dense run of `n` deltas.
record IsFollowing (t : InstrTracker) (n : ℕ) : Type 0 where
  pub is_trusted : t.book_trusted ≡ true
  pub at_last : t.last_instr_seq ≡ some n
  pub not_awaiting : t.awaiting_recovery ≡ false

-- A step of a run: the tracker follows, and nothing is reported.
record IsQuiet (step : InstrTracker × List Emission) (n : ℕ) : Type 0 where
  pub follows : IsFollowing step.0 n
  pub silent : step.1 ≡ []

later_delta_seq-IsQuiet :
    (at : DeltaPlace) (t : InstrTracker) (last hash : ℕ)
    → suc last < 2 ^ 32
    → IsFollowing t last
    → IsQuiet (later_delta_seq at t last (suc last) hash) (suc last)
unfolding later_delta_seq judge_delta_seq
later_delta_seq-IsQuiet at t last hash fits h = record {
  follows = record {
    is_trusted = ground arith;
    at_last = ground arith;
    not_awaiting = ground arith;
  };
  silent = ground arith;
}

premature_findings-none :
    (at : DeltaPlace) (t : InstrTracker)
    → t.awaiting_recovery ≡ false
    → premature_findings at t ≡ []
unfolding premature_findings
premature_findings-none at t not_awaiting = rw not_awaiting refl

apply_delta_seq-next :
    (at : DeltaPlace) (t : InstrTracker) (last hash : ℕ)
    → suc last < 2 ^ 32
    → IsFollowing t last
    → IsQuiet (apply_delta_seq at t (suc last) hash) (suc last)
unfolding apply_delta_seq
apply_delta_seq-next at t last hash fits h = record {
  follows = subst (λ p. IsFollowing p.0 (suc last)) (sym later) quiet.follows;
  silent =
      ap (λ found. found ++ (seq_delta at resumed (suc last) hash).1)
        (premature_findings-none at t h.not_awaiting)
      ∙ ap (λ p. p.1) later
      ∙ quiet.silent;
}
  where
    resumed : InstrTracker
    resumed = record t { awaiting_recovery = false }

    quiet : IsQuiet (later_delta_seq at resumed last (suc last) hash) (suc last)
    quiet =
        later_delta_seq-IsQuiet at resumed last hash fits
          (record { is_trusted = h.is_trusted; at_last = h.at_last; not_awaiting = refl })

    later : seq_delta at resumed (suc last) hash ≡ later_delta_seq at resumed last (suc last) hash
    later = seq_delta-later at resumed last (suc last) hash h.at_last

apply_delta_seq-first :
    (at : DeltaPlace) (hash : ℕ) → IsQuiet (apply_delta_seq at new_tracker 1 hash) 1
unfolding apply_delta_seq seq_delta premature_findings first_delta_seq first_value_findings
    new_tracker
apply_delta_seq-first at hash = record {
  follows = record { is_trusted = refl; at_last = refl; not_awaiting = refl };
  silent = refl;
}

dense_run-IsFollowing :
    (at : DeltaPlace) (hash : ℕ) (run : List (DeltaPlace × ℕ))
    → suc (length run) < 2 ^ 32
    → (IsFollowing (met (dense_run ((at, hash) ∷ run))) (suc (length run)))
      × (met_findings (dense_run ((at, hash) ∷ run)) ≡ [])
unfolding dense_run met met_findings on_event
dense_run-IsFollowing at hash [] fits =
    ((apply_delta_seq-first at hash).follows, (apply_delta_seq-first at hash).silent)
dense_run-IsFollowing at hash ((at', hash') ∷ run) fits =
    let before = dense_run-IsFollowing at' hash' run (omega arith) in
    let quiet =
      apply_delta_seq-next at (met (dense_run ((at', hash') ∷ run))) (suc (length run)) hash fits
        before.0 in
    (
      quiet.follows,
      ap
            (λ found.
              found
              ++ (apply_delta_seq at (met (dense_run ((at', hash') ∷ run))) (suc (suc (length run)))
                  hash).1)
            before.1
          ∙ quiet.silent,
    )

gate_consumer-IsFollowing :
    (t : InstrTracker) (n : ℕ)
    → suc n < 2 ^ 32
    → IsFollowing t n
    → gate_consumer true true t (suc n) ≡ true
unfolding gate_consumer
gate_consumer-IsFollowing t n fits h = rw (h.at_last, h.is_trusted) (ground arith)

-- When the deltas of an instrument are numbered 1, 2, 3, ..., at least one and fewer than
-- 2 ^ 32 - 1 of them, then no sequence rule reports anything, not even on a series with loss, and
-- where the market data are without loss and the instrument is known, the gate of the referential
-- rules opens for the next delta.
pub dense_run-silent :
    (at : DeltaPlace) (hash : ℕ) (run : List (DeltaPlace × ℕ))
    → length run + 2 < 2 ^ 32
    → (met_findings (dense_run ((at, hash) ∷ run)) ≡ [])
      × (gate_consumer true true (met (dense_run ((at, hash) ∷ run))) (suc (suc (length run)))
          ≡ true)
dense_run-silent at hash run fits =
    let followed = dense_run-IsFollowing at hash run (omega arith) in
    (
      followed.1,
      gate_consumer-IsFollowing (met (dense_run ((at, hash) ∷ run))) (suc (length run))
          (omega arith) followed.0,
    )

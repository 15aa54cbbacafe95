-- ===== src/Engine/Mbp/Verdicts.antt =====
-- engine/mbp.go: the reconstruction oracle's verdicts on a tracker that follows a publisher.
use edge_feed_spec.Base.{
  ℕ, ◌≤◌, ◌≡◌, ◌≢◌, ◌↔◌, ◌⊎◌, refl, sym, ◌∙◌, List, [], ◌∷◌, none, some, true, false, arith,
  Option-cases, inl, inr, nat_eq, pair_eq, String,
}
use edge_feed_spec.Base.Int.{int_eq}
use edge_feed_spec.Base.Maps.{Distinct}
use edge_feed_spec.Core.Finding.{Status}
use edge_feed_spec.Engine.MbpBook.{MbpBook, LevelDiff, diff_mbp_levels}
use edge_feed_spec.Engine.MbpBook.Diff.{diff-eq-nil_iff}
use edge_feed_spec.Engine.Mbp.{Instr, OpenSnap, state_as_of}
use edge_feed_spec.Engine.Mbp.Finish.{incomparable, diff_verdict, oracle_verdict}
use edge_feed_spec.Engine.Mbp.Publisher.{
  Publisher, ladder, span, SameLevels, replay-span, replay-Distinct,
}
use edge_feed_spec.Engine.Mbp.Follow.{IsTrue, Run}
use edge_feed_spec.Engine.Mbp.Following.{Trusted, Follows}
use edge_feed_spec.Engine.Mbp.Adoption.{Run-Follows}

-- What the gates of the oracle let through.
record Comparable (t : Instr) (k : ℕ) : Type 0 where
  pub ungapped : t.gapped ≡ false
  pub in_bound : t.overflow ≡ false
  pub based : t.base_set ≡ true
  pub from_base : t.base_k ≤ k
  pub set : t.last_seq_set ≡ true
  pub reached : k ≤ t.last_seq

comparable : (t : Instr) (k : ℕ) → incomparable t k ≡ none → Comparable t k
unfolding incomparable
comparable t k h = ground arith

state_as_of-ladder :
    (p : Publisher) (t : Instr) (k : ℕ)
    → Trusted p t
    → Comparable t k
    → SameLevels (state_as_of t k) (ladder p k).levels × Distinct (state_as_of t k)
unfolding state_as_of
state_as_of-ladder p t k tr c = rw tr.journal (
  replay-span p tr.many t.base_k k base tr.base c.from_base
      (omega (arith, tr.reaches c.set, c.reached)),
  replay-Distinct k (span p t.base_k tr.many) base tr.distinct,
)
  where
    base : MbpBook
    base = record { levels = t.base; depth_bound = none }

compared :
    (t : Instr) (o : OpenSnap)
    → incomparable t o.last_k ≡ none
    → (oracle_verdict t o).0 ≡ diff_verdict (diff_mbp_levels (state_as_of t o.last_k) o.levels)
unfolding oracle_verdict
compared t o h = rw (h, oracle_verdict) refl

diff_verdict_pass_iff : (d : List LevelDiff) → (diff_verdict d ≡ Status.pass) ↔ (d ≡ [])
diff_verdict_pass_iff [] = (λ _. refl, λ _. refl)
diff_verdict_pass_iff (x ∷ xs) = (λ h. cc, λ h. cc)

diff_verdict_violation_iff : (d : List LevelDiff) → (diff_verdict d ≡ Status.violation) ↔ (d ≢ [])
diff_verdict_violation_iff [] = (λ h. cc, λ h. absurd (h refl))
diff_verdict_violation_iff (x ∷ xs) = (λ _ e. cc, λ _. refl)

module _ (p : Publisher) (t : Instr) (hole : ℕ) (r : Run p t hole) (o : OpenSnap)
    (d : Distinct o.levels) (open_gates : incomparable t o.last_k ≡ none) where
  rebuilt :
      SameLevels (state_as_of t o.last_k) (ladder p o.last_k).levels
      × Distinct (state_as_of t o.last_k)
  rebuilt = state_as_of-ladder p t o.last_k (f.trusted c.ungapped c.in_bound c.based) c
    where
      f : Follows p t hole
      f = Run-Follows p t hole r

      c : Comparable t o.last_k
      c = comparable t o.last_k open_gates

  nil_iff :
      (diff_mbp_levels (state_as_of t o.last_k) o.levels ≡ [])
      ↔ SameLevels (ladder p o.last_k).levels o.levels
  nil_iff =
      let (there, back) = diff-eq-nil_iff (state_as_of t o.last_k) o.levels rebuilt.1 d in
      (λ h key. sym (rebuilt.0 key) ∙ there h key, λ h. back (λ key. rebuilt.0 key ∙ h key))

  -- On a tracker that has met, in any order and with any lost or repeated, deltas of a publisher and
  -- true snapshots of its ladder, whose first delta continued any adopted snapshot, and that adopted
  -- no snapshot from before the last hole of its journal, a group with one entry for each level that
  -- the oracle's gates let through passes exactly if it holds the publisher's ladder after the deltas
  -- up to its own number, and is a violation exactly if it does not.
  pub oracle_verdict_iff :
      (((oracle_verdict t o).0 ≡ Status.pass) ↔ SameLevels (ladder p o.last_k).levels o.levels)
      × (((oracle_verdict t o).0 ≡ Status.violation)
          ↔ ¬ SameLevels (ladder p o.last_k).levels o.levels)
  oracle_verdict_iff =
      let diff = diff_mbp_levels (state_as_of t o.last_k) o.levels in
      let graded = compared t o open_gates in
      let (passes, passed) = diff_verdict_pass_iff diff in
      let (fails, failed) = diff_verdict_violation_iff diff in
      (
        (λ h. nil_iff.0 (passes (sym graded ∙ h)), λ h. graded ∙ passed (nil_iff.1 h)),
        (
          λ h same. fails (sym graded ∙ h) (nil_iff.1 same),
          λ h. graded ∙ failed (λ e. h (nil_iff.0 e)),
        ),
      )

closed_gates :
    (t : Instr) (o : OpenSnap) (reason : String)
    → incomparable t o.last_k ≡ some reason
    → (oracle_verdict t o).0 ≡ Status.unverifiable
unfolding oracle_verdict
closed_gates t o reason h = rw (h, oracle_verdict) refl

-- On a tracker that has met, in any order and with any lost or repeated, deltas of a publisher and
-- true snapshots of its ladder, whose first delta continued any adopted snapshot, and that adopted
-- no snapshot from before the last hole of its journal, a true group passes when the oracle's gates
-- let it through and is unverifiable when they do not; so it is never a violation.
pub oracle_never_blames :
    (p : Publisher) (t : Instr) (hole : ℕ) (o : OpenSnap)
    → Run p t hole
    → IsTrue p o
    → ((incomparable t o.last_k ≡ none) × ((oracle_verdict t o).0 ≡ Status.pass))
      ⊎ ((incomparable t o.last_k ≢ none) × ((oracle_verdict t o).0 ≡ Status.unverifiable))
oracle_never_blames p t hole o r g = elim (Option-cases (incomparable t o.last_k)) [
  | inl gates ↦
      inl
        (gates, (oracle_verdict_iff p t hole r o g.distinct gates).0.1 (λ key. sym (g.levels key)))
  | inr (reason, closed) ↦
      inr (λ e. (let both = sym closed ∙ e in cc), closed_gates t o reason closed)
]

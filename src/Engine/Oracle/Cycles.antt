-- ===== src/Engine/Oracle/Cycles.antt =====
-- Which groups confirm a mismatch: the suspects against the history of the groups.
use edge_feed_spec.Base.{
  ℕ, ◌+◌, ◌≤◌, ◌≡◌, ◌↔◌, refl, sym, ap, ◌∙◌, inl, inr, List, [], ◌∷◌, Option, none, some, Bool,
  if_true, ◌&&◌, ◌==◌, if◌then◌else◌, nat_eq, pair_eq, pair_beq_iff, String, arith, Bool-cases,
  Option-cases,
}
use text.Mathlib.TextEquality.{eq_iff}
use edge_feed_spec.Base.Strings.{str_eq}
use edge_feed_spec.Base.Int.{ℤ}
use edge_feed_spec.Base.Maps.{lookup, put, delete, lookup-put, lookup-delete}
use edge_feed_spec.Core.Finding.{Status}
use edge_feed_spec.Engine.Book.{RestingOrder}
use edge_feed_spec.Engine.Book.Books.{Key}
use edge_feed_spec.Engine.Oracle.{
  SnapOrderRecord, OracleDiff, OracleSuspect, GroupState, Suspects, OracleVerdict, diff_books,
  oracle_gate, suspect_again, confirm_cycles, judge_diffs, run_oracle_for_group,
}

-- A completed snapshot group, and the book of the instrument at that time.
pub record Group : Type 0 where
  pub key : Key
  pub state : GroupState
  pub snap : List (ℕ × SnapOrderRecord)
  pub delta : List (ℕ × RestingOrder)

abbrev same_key : Key → Key → Bool
same_key a b = (a.0 == b.0) && (a.1 == b.1)

-- How often a signature was seen in a row, as a suspect tells it.
abbrev count_for : String → Option OracleSuspect → ℕ
count_for sig none = 0
count_for sig (some s) = if str_eq s.signature sig then s.count else 0

count-suspect_again :
    (o : Option OracleSuspect) (sig' sig : String)
    → count_for sig (some (suspect_again o sig'))
      ≡ (if str_eq sig' sig then count_for sig o + 1 else 0)
unfolding suspect_again
count-suspect_again none sig' sig = ground arith
count-suspect_again (some s) sig' sig = elim (Bool-cases (str_eq s.signature sig')) [
  | inl same ↦ rw same (elim (Bool-cases (str_eq s.signature sig)) [
    | inl e ↦ ground (arith, (eq_iff s.signature sig').0 same)
    | inr e ↦ ground (arith, (eq_iff s.signature sig').0 same)
  ])
  | inr other ↦ rw other (elim (Bool-cases (str_eq sig' sig)) [
    | inl e ↦ ground (arith, (eq_iff sig' sig).0 e)
    | inr e ↦ ground arith
  ])
]

-- The streak of a signature after a group with this mismatch, or none.
abbrev pub next_streak : Option String → String → ℕ → ℕ
next_streak none sig before = 0
next_streak (some s) sig before = if str_eq s sig then before + 1 else 0

module _ (signature : List OracleDiff → String) (configured : ℤ) where
  -- The signature of a group whose books can be compared and differ.
  abbrev pub mismatch_of : List OracleDiff → Option String
  mismatch_of [] = none
  mismatch_of (d ∷ ds) = some (signature (d ∷ ds))

  abbrev pub mismatch : Group → Option String
  mismatch g = elim (oracle_gate g.state) [
    | none ↦ mismatch_of (diff_books g.snap g.delta)
    | some r ↦ none
  ]

  -- How many groups of an instrument in a row, the latest first, had this mismatch.
  abbrev pub streak : Key → String → List Group → ℕ
  streak key sig [] = 0
  streak key sig (g ∷ h) =
      let before = streak key sig h in
      if same_key g.key key then next_streak (mismatch g) sig before else before

  abbrev pub judge : Suspects → Group → OracleVerdict × Suspects
  judge suspects g = run_oracle_for_group signature configured suspects g.key g.state g.snap g.delta

  -- The suspects after a history of groups, the latest first.
  abbrev pub suspects_after : List Group → Suspects
  suspects_after [] = []
  suspects_after (g ∷ h) = (judge (suspects_after h) g).1

  -- What a group does to the suspects.
  abbrev suspects_with : Suspects → Key → Option String → Suspects
  suspects_with suspects key none = delete key suspects
  suspects_with suspects key (some sig) = put key (suspect_again (lookup key suspects) sig) suspects

  judge_diffs-suspects :
      (suspects : Suspects) (key : Key) (ds : List OracleDiff)
      → (judge_diffs signature configured suspects key ds).1
        ≡ suspects_with suspects key (mismatch_of ds)
  unfolding judge_diffs
  judge_diffs-suspects suspects key [] = refl
  judge_diffs-suspects suspects key (d ∷ ds) = refl

  judge-suspects :
      (suspects : Suspects) (g : Group)
      → (judge suspects g).1 ≡ suspects_with suspects g.key (mismatch g)
  unfolding run_oracle_for_group
  judge-suspects suspects g = elim (Option-cases (oracle_gate g.state)) [
    | inl e ↦
        rw (e, run_oracle_for_group, suspects_with, mismatch)
          (judge_diffs-suspects suspects g.key (diff_books g.snap g.delta))
    | inr (r, e) ↦ rw (e, run_oracle_for_group, suspects_with, mismatch) refl
  ]

  with-count :
      (suspects : Suspects) (k key : Key) (o : Option String) (sig : String)
      → count_for sig (lookup key (suspects_with suspects k o)) ≡ (
          if same_key k key
          then next_streak o sig (count_for sig (lookup key suspects))
          else count_for sig (lookup key suspects))
  with-count suspects k key none sig =
      ap (count_for sig) (lookup-delete k key suspects)
      ∙ elim (Bool-cases (same_key k key)) [ inl e ↦ rw e refl | inr e ↦ rw e refl ]
  with-count suspects k key (some s) sig =
      ap (count_for sig) (lookup-put k (suspect_again (lookup k suspects) s) key suspects)
      ∙ elim (Bool-cases (same_key k key)) [
        | inl e ↦ rw e (
            count-suspect_again (lookup k suspects) s sig
            ∙ ap (λ j. next_streak (some s) sig (count_for sig (lookup j suspects)))
                ((pair_beq_iff k key).0 e))
        | inr e ↦ rw e refl
      ]

  -- The suspect of an instrument holds the streak of its signature, and every other streak is 0.
  streak-suspects :
      (key : Key) (sig : String) (h : List Group)
      → count_for sig (lookup key (suspects_after h)) ≡ streak key sig h
  unfolding lookup
  streak-suspects key sig [] = refl
  streak-suspects key sig (g ∷ h) =
      ap (λ s. count_for sig (lookup key s)) (judge-suspects (suspects_after h) g)
      ∙ with-count (suspects_after h) g.key key (mismatch g) sig
      ∙ ap (λ n. if same_key g.key key then next_streak (mismatch g) sig n else n)
          (streak-suspects key sig h)

  suspect_again-count :
      (o : Option OracleSuspect) (sig : String) → (suspect_again o sig).count ≡ count_for sig o + 1
  unfolding suspect_again
  suspect_again-count none sig = refl
  suspect_again-count (some s) sig = ground arith

  judge_diffs-confirmed :
      (suspects : Suspects) (key : Key) (ds : List OracleDiff)
      → ((judge_diffs signature configured suspects key ds).0.status ≡ Status.violation) ↔ (
          (sig : String) × (mismatch_of ds ≡ some sig)
          × (confirm_cycles configured ≤ count_for sig (lookup key suspects) + 1))
  unfolding judge_diffs
  judge_diffs-confirmed suspects key [] = (λ h. cc, λ h. ground (arith, h))
  judge_diffs-confirmed suspects key (d ∷ ds) =
      let sig = signature (d ∷ ds) in
      let n = suspect_again-count (lookup key suspects) sig in
      (λ h. (sig, refl, ground (arith, h, n)), λ (s, e, b). ground (arith, e, b, n))

  streak_here :
      (g : Group) (h : List Group) (sig : String)
      → mismatch g ≡ some sig
      → streak g.key sig (g ∷ h) ≡ count_for sig (lookup g.key (suspects_after h)) + 1
  streak_here g h sig e =
      if_true _ _ (same_key g.key g.key) ((pair_beq_iff g.key g.key).1 refl)
      ∙ ap (λ o. next_streak o sig (streak g.key sig h)) e
      ∙ if_true _ _ (str_eq sig sig) ((eq_iff sig sig).1 refl)
      ∙ ap (λ n. n + 1) (sym (streak-suspects g.key sig h))

  -- After any history of groups, of any instruments, a group is reported as a violation exactly if its
  -- books can be compared and differ, and the difference's signature is the one of at least the
  -- configured number of groups of its instrument in a row, itself included: a match, another difference
  -- or a group that cannot be compared starts the count again, and groups of other instruments do
  -- not touch it.
  pub judge-confirmed :
      (h : List Group) (g : Group)
      → ((judge (suspects_after h) g).0.status ≡ Status.violation) ↔ (
          (sig : String) × (mismatch g ≡ some sig)
          × (confirm_cycles configured ≤ streak g.key sig (g ∷ h)))
  unfolding run_oracle_for_group
  judge-confirmed h g = elim (Option-cases (oracle_gate g.state)) [
    | inr (r, e) ↦ rw (e, run_oracle_for_group, mismatch) (λ k. cc, λ (sig, m, _). cc)
    | inl e ↦
        let (to, back) =
          judge_diffs-confirmed (suspects_after h) g.key (diff_books g.snap g.delta) in
        let compared : mismatch g ≡ mismatch_of (diff_books g.snap g.delta) =
          rw (e, mismatch) refl in
        let judged : judge (suspects_after h) g
            ≡ judge_diffs signature configured (suspects_after h) g.key
                (diff_books g.snap g.delta) =
          rw (e, run_oracle_for_group) refl in
        (
          λ k.
              let (sig, m, b) = to (ap (λ r. r.0.status) (sym judged) ∙ k) in
              (sig, compared ∙ m, omega (arith, b, streak_here g h sig (compared ∙ m))),
          λ (sig, m, b).
              ap (λ r. r.0.status) judged
              ∙ back (sig, sym compared ∙ m, omega (arith, b, streak_here g h sig m)),
        )
  ]

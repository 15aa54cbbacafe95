-- ===== src/Report/Sink/Tally.antt =====
-- The counters and the exit code of a run, against the list of its findings.
use edge_feed_spec.Base.{
  ℕ, suc, ◌+◌, ◌≡◌, refl, ◌∙◌, ap, ap₂, List, [], ◌∷◌, Bool, true, false, ◌&&◌, ◌||◌, ltb, any,
  if◌then◌else◌, String, arith, Bool-cases, inl, inr,
}
use edge_feed_spec.Base.Strings.{str_eq, string_eq}
use edge_feed_spec.Base.Maps.{lookup}
use edge_feed_spec.Core.Finding.{
  Finding, Severity, Status, status_eq, same_status, counts_as_violation,
}
use edge_feed_spec.Report.Sink.{
  Aggregator, new_aggregator, counter, row, bump, shown_reason, is_unverifiable, count_violation,
  record_finding, exit_code,
}
use edge_feed_spec.Report.Sink.Counters.{counter-bump}

abbrev pub record_all : Aggregator → List Finding → Aggregator
record_all a [] = a
record_all a (f ∷ fs) = record_all (record_finding a f) fs

-- How many findings pass a test.
abbrev pub tally : (Finding → Bool) → List Finding → ℕ
tally p [] = 0
tally p (f ∷ fs) = let rest = tally p fs in if p f then suc rest else rest

abbrev is_must : Severity → Bool
is_must Severity.must = true
is_must Severity.should = false
is_must Severity.info = false

abbrev is_should : Severity → Bool
is_should Severity.should = true
is_should Severity.must = false
is_should Severity.info = false

-- A confirmed violation of a rule that binds, or that recommends.
abbrev pub is_must_violation : Finding → Bool
is_must_violation f = counts_as_violation f.status && is_must f.severity

abbrev pub is_should_violation : Finding → Bool
is_should_violation f = counts_as_violation f.status && is_should f.severity

-- The last step of `Record`, which counts a violation.
finished :
    (r : Aggregator) (st : Status) (sev : Severity)
    → let c = (if counts_as_violation st then count_violation r sev else r) in
      (c.counts ≡ r.counts)
      × (c.reasons ≡ r.reasons)
      × (c.must_viol ≡ r.must_viol + (if counts_as_violation st && is_must sev then 1 else 0))
      × (c.should_viol ≡ r.should_viol + (if counts_as_violation st && is_should sev then 1 else 0))
unfolding counts_as_violation count_violation
finished r Status.pass sev = (refl, refl, omega arith, omega arith)
finished r Status.suspected sev = (refl, refl, omega arith, omega arith)
finished r Status.unverifiable sev = (refl, refl, omega arith, omega arith)
finished r Status.na sev = (refl, refl, omega arith, omega arith)
finished r Status.violation Severity.must = (refl, refl, omega arith, omega arith)
finished r Status.violation Severity.should = (refl, refl, omega arith, omega arith)
finished r Status.violation Severity.info = (refl, refl, omega arith, omega arith)

-- The aggregator before that step.
abbrev reasoned : Aggregator → Finding → Aggregator
reasoned a f =
    let counted = record a { counts = bump f.rule_id f.status a.counts } in
    if is_unverifiable f.status
    then record counted { reasons = bump f.rule_id (shown_reason f.reason) a.reasons }
    else counted

reasoned_fields :
    (a : Aggregator) (f : Finding)
    → ((reasoned a f).counts ≡ bump f.rule_id f.status a.counts)
      × ((reasoned a f).must_viol ≡ a.must_viol)
      × ((reasoned a f).should_viol ≡ a.should_viol)
      × ((reasoned a f).reasons ≡ (
          if is_unverifiable f.status
          then bump f.rule_id (shown_reason f.reason) a.reasons
          else a.reasons))
reasoned_fields a f = elim (Bool-cases (is_unverifiable f.status)) [
  | inl e ↦ rw e (refl, refl, refl, refl)
  | inr e ↦ rw e (refl, refl, refl, refl)
]

tally_cons :
    (p : Finding → Bool) (f : Finding) (fs : List Finding)
    → tally p (f ∷ fs) ≡ (if p f then 1 else 0) + tally p fs
tally_cons p f fs = elim (Bool-cases (p f)) [
  | inl e ↦ rw e (omega arith)
  | inr e ↦ rw e (omega arith)
]

module _ (id : String) where
  counts_after :
      (a : Aggregator) (f : Finding)
      → (record_finding a f).counts ≡ bump f.rule_id f.status a.counts
  unfolding record_finding
  counts_after a f = (finished (reasoned a f) f.status f.severity).0 ∙ (reasoned_fields a f).0

  counted_one :
      (st : Status) (a : Aggregator) (f : Finding)
      → counter st (row id (record_finding a f).counts)
        ≡ counter st (row id a.counts)
          + (if str_eq f.rule_id id && same_status f.status st then 1 else 0)
  counted_one st a f =
      ap (λ m. counter st (row id m)) (counts_after a f)
      ∙ counter-bump f.rule_id id f.status st a.counts

  counted :
      (st : Status) (a : Aggregator) (fs : List Finding)
      → counter st (row id (record_all a fs).counts)
        ≡ counter st (row id a.counts)
          + tally (λ f. str_eq f.rule_id id && same_status f.status st) fs
  counted st a [] = omega arith
  counted st a (f ∷ fs) = omega (
    arith,
    counted st (record_finding a f) fs,
    counted_one st a f,
    tally_cons (λ g. str_eq g.rule_id id && same_status g.status st) f fs,
  )

  reasons_after :
      (a : Aggregator) (f : Finding)
      → (record_finding a f).reasons ≡ (
          if is_unverifiable f.status
          then bump f.rule_id (shown_reason f.reason) a.reasons
          else a.reasons)
  unfolding record_finding
  reasons_after a f = (finished (reasoned a f) f.status f.severity).1 ∙ (reasoned_fields a f).3

  -- The findings that raise the counter of a reason.
  abbrev has_reason : String → Finding → Bool
  has_reason reason f =
      is_unverifiable f.status && (str_eq f.rule_id id && str_eq (shown_reason f.reason) reason)

  reason_counted_one :
      (reason : String) (a : Aggregator) (f : Finding)
      → counter reason (row id (record_finding a f).reasons)
        ≡ counter reason (row id a.reasons) + (if has_reason reason f then 1 else 0)
  reason_counted_one reason a f =
      ap (λ m. counter reason (row id m)) (reasons_after a f)
      ∙ elim (Bool-cases (is_unverifiable f.status)) [
        | inr other ↦ rw other (omega arith)
        | inl same ↦ rw same (counter-bump f.rule_id id (shown_reason f.reason) reason a.reasons)
      ]

  reason_counted :
      (reason : String) (a : Aggregator) (fs : List Finding)
      → counter reason (row id (record_all a fs).reasons)
        ≡ counter reason (row id a.reasons) + tally (has_reason reason) fs
  reason_counted reason a [] = omega arith
  reason_counted reason a (f ∷ fs) = omega (
    arith,
    reason_counted reason (record_finding a f) fs,
    reason_counted_one reason a f,
    tally_cons (has_reason reason) f fs,
  )

must_one :
    (a : Aggregator) (f : Finding)
    → (record_finding a f).must_viol ≡ a.must_viol + (if is_must_violation f then 1 else 0)
unfolding record_finding
must_one a f =
    omega (arith, (finished (reasoned a f) f.status f.severity).2, (reasoned_fields a f).1)

should_one :
    (a : Aggregator) (f : Finding)
    → (record_finding a f).should_viol ≡ a.should_viol + (if is_should_violation f then 1 else 0)
unfolding record_finding
should_one a f =
    omega (arith, (finished (reasoned a f) f.status f.severity).3, (reasoned_fields a f).2)

must_count :
    (a : Aggregator) (fs : List Finding)
    → (record_all a fs).must_viol ≡ a.must_viol + tally is_must_violation fs
must_count a [] = omega arith
must_count a (f ∷ fs) =
    omega
      (arith, must_count (record_finding a f) fs, must_one a f, tally_cons is_must_violation f fs)

should_count :
    (a : Aggregator) (fs : List Finding)
    → (record_all a fs).should_viol ≡ a.should_viol + tally is_should_violation fs
should_count a [] = omega arith
should_count a (f ∷ fs) = omega (
  arith,
  should_count (record_finding a f) fs,
  should_one a f,
  tally_cons is_should_violation f fs,
)

must_all :
    (fs : List Finding) → (record_all new_aggregator fs).must_viol ≡ tally is_must_violation fs
unfolding new_aggregator
must_all fs = omega (arith, must_count new_aggregator fs)

should_all :
    (fs : List Finding) → (record_all new_aggregator fs).should_viol ≡ tally is_should_violation fs
unfolding new_aggregator
should_all fs = omega (arith, should_count new_aggregator fs)

tally-any : (p : Finding → Bool) (fs : List Finding) → ltb 0 (tally p fs) ≡ any p fs
tally-any p [] = refl
tally-any p (f ∷ fs) = ground (arith, tally-any p fs)

-- The exit code of a run is 1 exactly if some finding was a confirmed violation of a binding rule
-- or, in a strict run, of a recommendation; suspected, unverifiable and passed checks never fail it.
pub exit_code-record_all :
    (fs : List Finding) (strict : Bool)
    → exit_code (record_all new_aggregator fs) strict
      ≡ (if any is_must_violation fs || (strict && any is_should_violation fs) then 1 else 0)
unfolding exit_code
exit_code-record_all fs strict =
    ap₂ (λ m s. if ltb 0 m || (strict && ltb 0 s) then 1 else 0) (must_all fs) (should_all fs)
    ∙ ap₂ (λ m s. if m || (strict && s) then 1 else 0) (tally-any is_must_violation fs)
        (tally-any is_should_violation fs)

-- For each rule and status the count in the report is the number of findings of the run that have
-- them, for each rule and shown reason the number of its unverifiable findings with the reason.
pub counter-record_all :
    (fs : List Finding) (id : String) (st : Status) (reason : String)
    → (counter st (row id (record_all new_aggregator fs).counts)
        ≡ tally (λ f. str_eq f.rule_id id && same_status f.status st) fs)
      × (counter reason (row id (record_all new_aggregator fs).reasons)
          ≡ tally
              (λ f.
                is_unverifiable f.status
                && (str_eq f.rule_id id && str_eq (shown_reason f.reason) reason))
              fs)
unfolding new_aggregator counter row lookup
counter-record_all fs id st reason = (
  omega (arith, counted id st new_aggregator fs),
  omega (arith, reason_counted id reason new_aggregator fs),
)

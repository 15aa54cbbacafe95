-- ===== src/Report/Sink.antt =====
-- report/sink.go, `Aggregator`: the counts behind the exit code and the JSON report. A run has fewer
-- than 2^63 findings, so no counter wraps.
pub mod Counters
pub mod Tally
use edge_feed_spec.Base.{
  ℕ, ◌+◌, List, [], ◌∷◌, Option, none, some, Bool, true, false, ◌&&◌, ◌||◌, ltb, if◌then◌else◌,
  String, Eq,
}
use edge_feed_spec.Base.Strings.{str_eq, string_eq}
use edge_feed_spec.Base.Maps.{lookup, put}
use edge_feed_spec.Core.Finding.{
  Finding, Severity, Status, status_eq, counts_as_violation, reason_unspecified,
}

abbrev pub Counts : Type 0
Counts = List (Status × ℕ)

abbrev pub ReasonCounts : Type 0
ReasonCounts = List (String × ℕ)

pub record Aggregator : Type 0 where
  pub must_viol : ℕ
  pub should_viol : ℕ
  pub counts : List (String × Counts)
  pub reasons : List (String × ReasonCounts)

unfoldable pub new_aggregator : Aggregator
new_aggregator = record { must_viol = 0; should_viol = 0; counts = []; reasons = [] }

module _ {K : Type 0} ⦃e : Eq K⦄ where
  -- A missing counter reads 0.
  unfoldable pub counter : K → List (K × ℕ) → ℕ
  counter k m = elim (lookup k m) [ none ↦ 0 | some n ↦ n ]

  -- A missing row reads as an empty one.
  unfoldable pub row : String → List (String × List (K × ℕ)) → List (K × ℕ)
  row id m = elim (lookup id m) [ none ↦ [] | some r ↦ r ]

  -- `m[id][k]++`, where a missing row is made first.
  unfoldable pub bump : String → K → List (String × List (K × ℕ)) → List (String × List (K × ℕ))
  bump id k m = let r = row id m in put id (put k (counter k r + 1) r) m

-- An empty reason counts as the unspecified one.
abbrev pub shown_reason : String → String
shown_reason r = if str_eq r "" then reason_unspecified else r

abbrev pub is_unverifiable : Status → Bool
is_unverifiable s = status_eq.beq s Status.unverifiable

unfoldable pub count_violation : Aggregator → Severity → Aggregator
count_violation a Severity.must = record a { must_viol = a.must_viol + 1 }
count_violation a Severity.should = record a { should_viol = a.should_viol + 1 }
count_violation a Severity.info = a

unfoldable pub record_finding : Aggregator → Finding → Aggregator
record_finding a f =
    let counted = record a { counts = bump f.rule_id f.status a.counts } in
    let reasoned =
      if is_unverifiable f.status
      then record counted { reasons = bump f.rule_id (shown_reason f.reason) a.reasons }
      else counted in
    if counts_as_violation f.status then count_violation reasoned f.severity else reasoned

unfoldable pub exit_code : Aggregator → Bool → ℕ
exit_code a strict = if ltb 0 a.must_viol || (strict && ltb 0 a.should_viol) then 1 else 0

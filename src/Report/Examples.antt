-- ===== src/Report/Examples.antt =====
-- The lookup of a rule, and the tally of two findings.
use edge_feed_spec.Base.{◌≡◌, [], ◌∷◌, false, ◌&&◌, ◌||◌, any, if◌then◌else◌}
use edge_feed_spec.Base.Strings.{str_eq, string_eq}
use edge_feed_spec.Core.Finding.{Finding, Severity, Status, Feed, Port, same_status, status_eq}
use edge_feed_spec.Core.Registry.{find_rule}
use edge_feed_spec.Core.Catalog.{rules}
use edge_feed_spec.Core.Lookup.{first_row, find_rule-eq-first_row}
use edge_feed_spec.Report.Sink.{
  new_aggregator, exit_code, counter, row, shown_reason, is_unverifiable,
}
use edge_feed_spec.Report.Sink.Tally.{
  record_all, tally, is_must_violation, is_should_violation, exit_code-record_all,
  counter-record_all,
}

find_rule-eq-first_row_example : find_rule "STRIKE.FIELDS" ≡ first_row "STRIKE.FIELDS" rules
find_rule-eq-first_row_example = find_rule-eq-first_row "STRIKE.FIELDS"

abbrev broken : Finding
broken = record {
  rule_id = "MSG.LENGTH_PER_TYPE";
  severity = Severity.must;
  status = Status.violation;
  feed = Feed.mbp;
  port = Port.mkt_data;
  channel_id = 1;
  instrument_id = 0;
  no_instrument_id = false;
  seq = 7;
  reason = "";
}

abbrev undecided : Finding
undecided = record broken { status = Status.unverifiable }

exit_code-record_all_example :
    exit_code (record_all new_aggregator (undecided ∷ broken ∷ [])) false ≡ (
      if any is_must_violation (undecided ∷ broken ∷ [])
        || (false && any is_should_violation (undecided ∷ broken ∷ []))
      then 1
      else 0)
exit_code-record_all_example = exit_code-record_all (undecided ∷ broken ∷ []) false

counter-record_all_example :
    (counter Status.unverifiable
        (row "MSG.LENGTH_PER_TYPE" (record_all new_aggregator (undecided ∷ [])).counts)
      ≡ tally
          (λ f. str_eq f.rule_id "MSG.LENGTH_PER_TYPE" && same_status f.status Status.unverifiable)
          (undecided ∷ []))
    × (counter "unspecified"
          (row "MSG.LENGTH_PER_TYPE" (record_all new_aggregator (undecided ∷ [])).reasons)
        ≡ tally
            (λ f.
              is_unverifiable f.status
              && (str_eq f.rule_id "MSG.LENGTH_PER_TYPE"
                  && str_eq (shown_reason f.reason) "unspecified"))
            (undecided ∷ []))
counter-record_all_example =
    counter-record_all (undecided ∷ []) "MSG.LENGTH_PER_TYPE" Status.unverifiable "unspecified"

-- ===== src/Engine/Emit.antt =====
-- engine/engine.go, engine/config.go, engine/denominator.go and engine/sources.go: the engine's
-- configuration, and how a rule's finding gets its severity, its status and its reason.
pub mod Grades
pub mod Each
use edge_feed_spec.Base.{
  ℕ, zero, ◌≡◌, List, [], ◌∷◌, Option, none, some, Bool, true, false, not, ◌&&◌, ◌||◌, String,
  if◌then◌else◌, leb, ◌==◌, any,
}
use edge_feed_spec.Base.Strings.{str_eq}
use edge_feed_spec.Base.Exec.{Exec, done, panic}
use edge_feed_spec.Base.Int.{ℤ, pos, ltb_ℤ}
use edge_feed_spec.Core.Finding.{
  Feed, tob, mid, mbo, mbp, Port, Status, Severity, same_status, Finding, reason_loss,
  reason_capture_loss,
}
use edge_feed_spec.Core.Catalog.{RuleMeta}
use edge_feed_spec.Core.Registry.{find_rule}
use edge_feed_spec.Wire.Header.{magic_tob, magic_mid, magic_mbo, magic_mbp, schema_supported}

-- Durations are in nanoseconds. No registry means that every source is allowed.
pub record Config : Type 0 where
  pub feed : Feed
  pub strict : Bool
  pub oracle_confirm_cycles : ℤ
  pub reorder_window : ℤ
  pub expect_manifest_cadence : ℤ
  pub expect_definition_cycle : ℤ
  pub expect_heartbeat : ℤ
  pub expect_snapshot_cycle : ℤ
  pub source_registry : Option (ℕ → Bool)

abbrev is_positive : ℤ → Bool
is_positive d = ltb_ℤ (pos 0) d

-- The configuration that `New` keeps.
unfoldable pub new_config : Config → Config
new_config c = if is_positive c.reorder_window then c else record c { reorder_window = pos 8 }

unfoldable pub configured : Config → String → Bool
configured c id =
    if str_eq id "REFDATA.MANIFEST_CADENCE"
    then is_positive c.expect_manifest_cadence
    else if str_eq id "REFDATA.DEFINITION_CYCLE_COVERAGE"
    then is_positive c.expect_definition_cycle
    else if str_eq id "REFDATA.NEVER_REACHES_READY"
    then is_positive c.expect_manifest_cadence && is_positive c.expect_definition_cycle
    else if str_eq id "REFDATA.NO_BURST_DEFINITIONS"
    then is_positive c.expect_definition_cycle
    else if str_eq id "HEARTBEAT.CADENCE"
    then is_positive c.expect_heartbeat
    else false

-- `Allowed` of the registry read from source_ids.json: the closed ranges.
unfoldable pub source_allowed : List (ℕ × ℕ) → ℕ → Bool
source_allowed ranges id = if id == 0 then false else any (λ r. leb r.0 id && leb id r.1) ranges

unfoldable pub magic_for : Feed → ℕ
magic_for tob = magic_tob
magic_for mid = magic_mid
magic_for mbp = magic_mbp
magic_for mbo = magic_mbo

-- `beginFrame`: whether the frame's schema is one that is not implemented.
unfoldable pub begin_frame : Feed → ℕ → Bool
begin_frame feed schema_version = not (schema_supported (magic_for feed) schema_version)

abbrev pub envelope_rules : List String
envelope_rules =
    "FRAME.MAGIC_MISMATCH" ∷ "FRAME.SCHEMA_VERSION" ∷ "FRAME.MSG_COUNT_RANGE"
    ∷ "FRAME.LENGTH_CONSISTENCY" ∷ []

unfoldable pub is_envelope : String → Bool
is_envelope id = any (λ r. str_eq r id) envelope_rules

-- The arguments of a call of `Emit`, without the detail text; no instrument for a call of
-- `emitNoInstrument`, and the empty reason for none.
pub record Emission : Type 0 where
  pub rule_id : String
  pub status : Status
  pub port : Port
  pub seq : ℕ
  pub channel_id : ℕ
  pub instrument : Option ℕ
  pub reason : String

-- What `emit` reads of the engine: the configuration, whether the frame's schema is unknown, and
-- the channels whose series on a port lost datagrams to the capture (`captureDirtyOn`).
pub record EmitContext : Type 0 where
  pub config : Config
  pub cur_unknown_schema : Bool
  pub capture_dirty_on : Port → ℕ → Bool

abbrev pub downgraded : Status → Status
downgraded st = if same_status st Status.violation then Status.na else st

-- Whether `emit` downgrades the rule.
unfoldable pub downgrades : EmitContext → RuleMeta → String → Bool
downgrades c meta id =
    (meta.conditional && not (configured c.config id))
    || (c.cur_unknown_schema && not (is_envelope id))

unfoldable pub owner_of_loss : EmitContext → Emission → Status → String
owner_of_loss c e st =
    if same_status st Status.unverifiable
      && (str_eq e.reason reason_loss && c.capture_dirty_on e.port e.channel_id)
    then reason_capture_loss
    else e.reason

abbrev inst_or_zero : Option ℕ → ℕ
inst_or_zero none = 0
inst_or_zero (some i) = i

abbrev no_instrument : Option ℕ → Bool
no_instrument none = true
no_instrument (some i) = false

unfoldable pub finding_of : EmitContext → RuleMeta → Emission → Finding
finding_of c meta e =
    let down = downgrades c meta e.rule_id in
    let st = if down then downgraded e.status else e.status in
    record {
      rule_id = e.rule_id;
      severity = if down then Severity.info else meta.severity;
      status = st;
      feed = c.config.feed;
      port = e.port;
      channel_id = e.channel_id;
      instrument_id = inst_or_zero e.instrument;
      no_instrument_id = no_instrument e.instrument;
      seq = e.seq;
      reason = owner_of_loss c e st;
    }

-- `emit`: a rule that the registry does not know is a panic.
unfoldable pub emit : EmitContext → Emission → Exec Finding
emit c e = elim (find_rule e.rule_id) [ none ↦ panic | some meta ↦ done (finding_of c meta e) ]

-- The helpers of denominator.go.
unfoldable pub passed : String → Port → ℕ → ℕ → ℕ → Emission
passed rule port seq ch inst = record {
  rule_id = rule;
  status = Status.pass;
  port = port;
  seq = seq;
  channel_id = ch;
  instrument = some inst;
  reason = "";
}

unfoldable pub unverified : String → String → Port → ℕ → ℕ → ℕ → Emission
unverified rule reason port seq ch inst = record {
  rule_id = rule;
  status = Status.unverifiable;
  port = port;
  seq = seq;
  channel_id = ch;
  instrument = some inst;
  reason = reason;
}

unfoldable pub inapplicable : String → Port → ℕ → ℕ → ℕ → Emission
inapplicable rule port seq ch inst = record {
  rule_id = rule;
  status = Status.na;
  port = port;
  seq = seq;
  channel_id = ch;
  instrument = some inst;
  reason = "";
}

-- ===== src/Engine/Tier1/Examples.antt =====
-- engine/tier1.go, engine/fields.go, engine/instrdef.go and engine/engine.go: concrete messages.
use edge_feed_spec.Base.{
  ℕ, ◌≡◌, ◌≢◌, ◌↔◌, ◌⊎◌, refl, ◌∙◌, List, [], ◌∷◌, ◌++◌, none, some, true, false, arith, All,
  length, replicate,
}
use edge_feed_spec.Base.Exec.{done, panic}
use edge_feed_spec.Base.Int.{pos}
use edge_feed_spec.Base.Strings.{string_eq}
use edge_feed_spec.Core.Finding.{
  Finding, Status, Severity, mbp, tob, mkt_data, ref_data, state_none, mid, mbo, Port,
}
use edge_feed_spec.Core.Catalog.{RuleMeta, rules}
use edge_feed_spec.Core.Registry.{find_rule}
use edge_feed_spec.Core.Lookup.{first_row, find_rule-eq-first_row}
use edge_feed_spec.Wire.Header.{Message, Frame}
use edge_feed_spec.Wire.Build.{u8, u16, u32}
use edge_feed_spec.Engine.Emit.{Config, EmitContext, Emission, emit}
use edge_feed_spec.Engine.Emit.Grades.{InForce, emit_violation_iff}
use edge_feed_spec.Engine.Definition.{InstrDefLayout, instr_def_layout_for, instr_def_all_fields}
use edge_feed_spec.Engine.Definition.Layouts.{ReadsAs, instr_def_all_fields_read}
use edge_feed_spec.Engine.Fields.{body_u8, body_u16_le, body_u32_le, body_u64_le}
use edge_feed_spec.Engine.Fields.Reads.{four_fields, body_reads-four_fields}
use edge_feed_spec.Engine.Tier1.{
  carries_strike_interval, Place, is_known, port_allowed, expected_msg_len,
}
use edge_feed_spec.Engine.Tier1.Places.{is_known-port_allowed}
use edge_feed_spec.Engine.Tier1.Strikes.{strike_defects}
use edge_feed_spec.Engine.Tier1.Pending.{IsStrike, strike_defects-nil_iff}
use edge_feed_spec.Engine.Tier1.Fields.{length_is_ok}
use edge_feed_spec.Engine.Tier1.Frames.{tier1_message, check_tier1}
use edge_feed_spec.Engine.Tier1.Lengths.{rebodied, IsBodyless, tier1_message-IsBodyless}
use edge_feed_spec.Engine.Tier1.Cascades.{check_tier1_emits}

abbrev config : Config
config = record {
  feed = tob;
  strict = true;
  oracle_confirm_cycles = pos 2;
  reorder_window = pos 8;
  expect_manifest_cadence = pos 0;
  expect_definition_cycle = pos 0;
  expect_heartbeat = pos 0;
  expect_snapshot_cycle = pos 0;
  source_registry = none;
}

abbrev context : EmitContext
context = record { config = config; cur_unknown_schema = true; capture_dirty_on = λ port ch. false }

abbrev place : Place
place = record { port = ref_data; seq = 4; channel = 0 }

abbrev message : ℕ → ℕ → List ℕ → Message
message typ len body = record {
  type_id = typ;
  msg_length = len;
  flags = 0;
  body = body;
  offset = 24;
}

abbrev one_byte : List ℕ
one_byte = 9 ∷ []

abbrev fields_message : Message
fields_message = message 0x40 48 (four_fields one_byte 1 2 3 4 ++ (7 ∷ []))

body_reads-four_fields_example :
    (body_u8 fields_message (length one_byte) ≡ 1)
    × (body_u16_le fields_message (length (u8 one_byte 1)) ≡ 2)
    × (body_u32_le fields_message (length (u16 (u8 one_byte 1) 2)) ≡ 3)
    × (body_u64_le fields_message (length (u32 (u16 (u8 one_byte 1) 2) 3)) ≡ 4)
body_reads-four_fields_example =
    body_reads-four_fields fields_message one_byte (7 ∷ []) 1 2 3 4 refl (omega arith) (omega arith)
      (omega arith) (omega arith)

abbrev definition : Message
definition = message 0x02 80 (replicate 76 1)

instr_def_all_fields_read_example :
    ((instr_def_all_fields mbo 1 definition ≡ none)
      × ((instr_def_layout_for mbo 1 ≡ none)
          ⊎ ((l : InstrDefLayout) × (instr_def_layout_for mbo 1 ≡ some l)
              × (definition.msg_length ≢ l.msg_len))))
    ⊎ ((l : InstrDefLayout) × (instr_def_layout_for mbo 1 ≡ some l)
        × (definition.msg_length ≡ l.msg_len)
        × ReadsAs mbo 1 definition l)
instr_def_all_fields_read_example = instr_def_all_fields_read mbo 1 definition refl

is_known-port_allowed_example :
    (is_known tob 0x09 ≡ true)
    ↔ ((port : Port) × ((q : Port) → (port_allowed tob 0x09 q ≡ true) ↔ (port ≡ q)))
is_known-port_allowed_example = is_known-port_allowed tob 0x09

-- A strike interval with both bounds, in a body of 36 bytes.
abbrev strike : Message
strike = message 0x09 40 (1 ∷ 0 ∷ 0 ∷ 0 ∷ 2 ∷ 0 ∷ 0 ∷ 5 ∷ replicate 28 0)

strike_defects-nil_iff_example :
    (strike_defects tob 3 strike none ≡ []) ↔ IsStrike tob 3 strike none
strike_defects-nil_iff_example = strike_defects-nil_iff tob 3 strike none

abbrev short_quote : Message
short_quote = message 0x03 59 (replicate 55 0)

-- A strike interval cut short, after a definition of another instrument.
abbrev short_strike : Message
short_strike = message 0x09 39 (replicate 35 0)

short : length_is_ok config.feed 3 short_strike ≡ false
unfolding length_is_ok expected_msg_len carries_strike_interval
short = refl

tier1_message-IsBodyless_example :
    All IsBodyless (tier1_message config 3 (some definition) short_strike place)
    × ((body before : List ℕ)
        → tier1_message config 3
            (rebodied before (some definition))
            (record short_strike { body = body })
            place
          ≡ tier1_message config 3 (some definition) short_strike place)
tier1_message-IsBodyless_example =
    tier1_message-IsBodyless config 3 (some definition) short_strike place short

abbrev frame : Frame
frame = record {
  header = record {
    magic = 0x445A;
    schema_version = 3;
    channel_id = 0;
    sequence = 4;
    send_ts = 0;
    msg_count = 2;
    reset_count = 1;
    frame_length = 123;
  };
  messages = short_quote ∷ strike ∷ [];
  raw = [];
}

check_tier1_emits_example : All (λ e. emit context e ≢ panic) (check_tier1 config frame ref_data)
check_tier1_emits_example = check_tier1_emits context config frame ref_data

abbrev a_violation : Emission
a_violation = record {
  rule_id = "FRAME.MAGIC_MISMATCH";
  status = Status.violation;
  port = mkt_data;
  seq = 4;
  channel_id = 0;
  instrument = none;
  reason = "";
}

abbrev magic_rule : RuleMeta
magic_rule = record {
  id = "FRAME.MAGIC_MISMATCH";
  severity = Severity.must;
  tier = 1;
  state = state_none;
  feeds = tob ∷ mid ∷ mbo ∷ mbp ∷ [];
  conditional = false;
}

magic_rule_row : first_row "FRAME.MAGIC_MISMATCH" rules ≡ some magic_rule
magic_rule_row = refl

magic_rule_found : find_rule "FRAME.MAGIC_MISMATCH" ≡ some magic_rule
magic_rule_found = find_rule-eq-first_row "FRAME.MAGIC_MISMATCH" ∙ magic_rule_row

emit_violation_iff_example :
    (f : Finding) × (emit context a_violation ≡ done f)
    × ((f.status ≡ Status.violation) ↔ (
        (a_violation.status ≡ Status.violation)
        × InForce context magic_rule "FRAME.MAGIC_MISMATCH"))
emit_violation_iff_example = emit_violation_iff context magic_rule a_violation magic_rule_found

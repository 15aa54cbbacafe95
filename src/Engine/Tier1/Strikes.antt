-- ===== src/Engine/Tier1/Strikes.antt =====
-- engine/tier1.go: the rules of a strike interval.
use Prim.Native.Nat.{bit_and}
use edge_feed_spec.Base.{
  ℕ, List, [], ◌∷◌, ◌++◌, Option, none, some, Bool, true, false, not, ◌&&◌, ◌||◌, String,
  if◌then◌else◌, ◌==◌,
}
use edge_feed_spec.Base.Int.{pos, ltb_ℤ, eqb_ℤ}
use edge_feed_spec.Core.Finding.{Feed, Status}
use edge_feed_spec.Wire.Header.{Message}
use edge_feed_spec.Wire.MessageType
use edge_feed_spec.Engine.Emit.{Emission}
use edge_feed_spec.Engine.Definition.{InstrDefFields, instr_def_all_fields, instr_def_source_id}
use edge_feed_spec.Engine.Fields.Definitions.{
  strike_instrument_id, strike_source_id, strike_bound_flags, strike_lower_bound,
  strike_upper_bound, strike_fixing_time, strike_reserved,
}
use edge_feed_spec.Engine.Tier1.{Place, emit_if, expected_msg_len}

abbrev pub strike_lower_present : ℕ
strike_lower_present = 0x01

abbrev pub strike_lower_inclusive : ℕ
strike_lower_inclusive = 0x02

abbrev pub strike_upper_present : ℕ
strike_upper_present = 0x04

abbrev pub strike_upper_inclusive : ℕ
strike_upper_inclusive = 0x08

abbrev pub strike_reserved_bits : ℕ
strike_reserved_bits = 0xF0

abbrev pub has_bits : ℕ → ℕ → Bool
has_bits flags mask = not (bit_and flags mask == 0)

-- Neither bound is present.
unfoldable pub strike_pending : ℕ → Bool
strike_pending flags = not (has_bits flags 0x05)

-- A defect is named by its rule; the detail text is left out.
abbrev pub strike_fields : String
strike_fields = "STRIKE.FIELDS"

abbrev pub strike_interval_not_empty : String
strike_interval_not_empty = "STRIKE.INTERVAL_NOT_EMPTY"

-- The defects of a list of tests, in order.
unfoldable pub failing : List (Bool × String) → List String
failing [] = []
failing ((b, rule) ∷ tests) = let rest = failing tests in if b then rule ∷ rest else rest

abbrev pub other_source : Option ℕ → ℕ → Bool
other_source none src = false
other_source (some def) src = not (def == src)

unfoldable pub definition_source : Feed → ℕ → Option Message → Option ℕ
definition_source feed schema none = none
definition_source feed schema (some def) = instr_def_source_id feed schema def

-- Both bounds, and no value between them.
unfoldable pub empty_interval : Message → Bool
empty_interval m =
    let flags = strike_bound_flags m in
    let lower = strike_lower_bound m in
    let upper = strike_upper_bound m in
    let inclusive =
      (has_bits flags strike_lower_inclusive && has_bits flags strike_upper_inclusive) in
    if has_bits flags strike_lower_present && has_bits flags strike_upper_present
    then ltb_ℤ upper lower || (eqb_ℤ lower upper && not inclusive)
    else false

unfoldable pub strike_tests : Feed → ℕ → Message → Option Message → List (Bool × String)
strike_tests feed schema m def =
    let flags = strike_bound_flags m in
    let has_lower = has_bits flags strike_lower_present in
    let has_upper = has_bits flags strike_upper_present in
    (other_source (definition_source feed schema def) (strike_source_id m), strike_fields)
    ∷ (has_bits flags strike_reserved_bits, strike_fields)
    ∷ (not has_lower && has_bits flags strike_lower_inclusive, strike_fields)
    ∷ (not has_upper && has_bits flags strike_upper_inclusive, strike_fields)
    ∷ (not has_lower && not (eqb_ℤ (strike_lower_bound m) (pos 0)), strike_fields)
    ∷ (not has_upper && not (eqb_ℤ (strike_upper_bound m) (pos 0)), strike_fields)
    ∷ (strike_pending flags && not (strike_fixing_time m == 0), strike_fields)
    ∷ (not (strike_reserved m == 0), strike_fields)
    ∷ (empty_interval m, strike_interval_not_empty)
    ∷ []

unfoldable pub strike_defects : Feed → ℕ → Message → Option Message → List String
strike_defects feed schema m def = failing (strike_tests feed schema m def)

abbrev pub is_definition : Message → Bool
is_definition m = m.type_id == MessageType.instrument_def

abbrev pub other_instrument : Option InstrDefFields → ℕ → Bool
other_instrument none inst = false
other_instrument (some f) inst = not (f.instr_id == inst)

-- The switch of STRIKE.FOLLOWS_DEFINITION, on the message before; the ID is compared when this
-- message's length is right.
unfoldable pub follows_no_definition : Feed → ℕ → Option Message → Bool → ℕ → Bool
follows_no_definition feed schema none length_ok inst = true
follows_no_definition feed schema (some prev) length_ok inst =
    if not (is_definition prev)
    then true
    else length_ok && other_instrument (instr_def_all_fields feed schema prev) inst

abbrev pub definition_before : Option Message → Option Message
definition_before none = none
definition_before (some prev) = if is_definition prev then some prev else none

abbrev pub emit_defects : Place → ℕ → List String → List Emission
emit_defects at inst [] = []
emit_defects at inst (rule ∷ rules) =
    emit_if true rule Status.violation at inst ++ emit_defects at inst rules

-- `checkTier1Strike`, with the message before in the frame.
unfoldable pub check_tier1_strike : Feed → ℕ → Option Message → Message → Place → List Emission
check_tier1_strike feed schema prev m at =
    let length_ok = m.msg_length == expected_msg_len feed schema m.type_id in
    let inst = if length_ok then strike_instrument_id m else 0 in
    emit_if (follows_no_definition feed schema prev length_ok inst) "STRIKE.FOLLOWS_DEFINITION"
      Status.violation at inst
    ++ (if length_ok
        then emit_defects at inst (strike_defects feed schema m (definition_before prev))
        else [])

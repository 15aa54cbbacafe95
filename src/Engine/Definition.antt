-- ===== src/Engine/Definition.antt =====
-- engine/instrdef.go and engine/fields.go: the layouts of an instrument definition, and its fields.
pub mod Layouts
use edge_feed_spec.Base.{
  ℕ, ◌+◌, List, [], Option, none, some, Bool, true, false, not, ◌&&◌, ◌||◌, if◌then◌else◌, ltb, leb,
  ◌==◌, length, take, drop,
}
use edge_feed_spec.Core.Finding.{Feed, tob, mid, mbo, mbp}
use edge_feed_spec.Wire.Header.{Message}
use edge_feed_spec.Engine.Fields.{body_u8_at, body_u16_le_at, body_u32_le_at}

-- Offsets in the body; the offset -1 of an absent field is `none`.
pub record InstrDefLayout : Type 0 where
  pub msg_len : ℕ
  pub instrument_id : ℕ
  pub source_id : Option ℕ
  pub symbol : ℕ
  pub symbol_len : ℕ
  pub manifest_seq : ℕ
  pub price_bound : Option ℕ
  pub default_method : Option ℕ

unfoldable pub instr_def_schema1 : InstrDefLayout
instr_def_schema1 = record {
  msg_len = 80;
  instrument_id = 0;
  source_id = none;
  symbol = 4;
  symbol_len = 16;
  manifest_seq = 74;
  price_bound = some 73;
  default_method = none;
}

unfoldable pub instr_def_schema3 : InstrDefLayout
instr_def_schema3 = record {
  msg_len = 130;
  instrument_id = 0;
  source_id = some 4;
  symbol = 6;
  symbol_len = 64;
  manifest_seq = 124;
  price_bound = some 123;
  default_method = none;
}

unfoldable pub instr_def_midpoint : InstrDefLayout
instr_def_midpoint = record {
  msg_len = 64;
  instrument_id = 0;
  source_id = none;
  symbol = 4;
  symbol_len = 16;
  manifest_seq = 56;
  price_bound = some 39;
  default_method = some 38;
}

abbrev by_schema : ℕ → Option InstrDefLayout
by_schema schema =
    if schema == 1
    then some instr_def_schema1
    else if schema == 3
    then some instr_def_schema3
    else none

unfoldable pub instr_def_layout_for : Feed → ℕ → Option InstrDefLayout
instr_def_layout_for mid schema = if schema == 1 then some instr_def_midpoint else none
instr_def_layout_for tob schema = by_schema schema
instr_def_layout_for mbo schema = by_schema schema
instr_def_layout_for mbp schema = by_schema schema

pub record InstrDefFields : Type 0 where
  pub instr_id : ℕ
  pub manifest_seq : ℕ
  pub default_method : ℕ
  pub price_bound : ℕ

abbrev pub or_zero : Option ℕ → ℕ
or_zero none = 0
or_zero (some v) = v

-- A field that the layout may not have; an offset that the body does not reach reads as 0.
abbrev pub optional_u8 : Message → Option ℕ → ℕ
optional_u8 m none = 0
optional_u8 m (some off) = or_zero (body_u8_at m off)

abbrev pub carries_price_bound : Feed → Bool
carries_price_bound tob = false
carries_price_bound mid = true
carries_price_bound mbo = true
carries_price_bound mbp = false

-- The reads, once the layout is known and the length is its own.
unfoldable pub fields_by_layout : Feed → InstrDefLayout → Message → Option InstrDefFields
fields_by_layout feed l m = elim (body_u32_le_at m l.instrument_id) [
  | none ↦ none
  | some id ↦ elim (body_u16_le_at m l.manifest_seq) [
    | none ↦ none
    | some seq ↦ some (record {
      instr_id = id;
      manifest_seq = seq;
      default_method = optional_u8 m l.default_method;
      price_bound = if carries_price_bound feed then optional_u8 m l.price_bound else 0;
    })
  ]
]

abbrev exactly : Feed → InstrDefLayout → Message → Option InstrDefFields
exactly feed l m = if not (m.msg_length == l.msg_len) then none else fields_by_layout feed l m

unfoldable pub instr_def_all_fields : Feed → ℕ → Message → Option InstrDefFields
instr_def_all_fields feed schema m = elim (instr_def_layout_for feed schema) [
  | none ↦ none
  | some l ↦ exactly feed l m
]

abbrev source_at : InstrDefLayout → Message → Option ℕ → Option ℕ
source_at l m none = none
source_at l m (some off) = if not (m.msg_length == l.msg_len) then none else body_u16_le_at m off

unfoldable pub instr_def_source_id : Feed → ℕ → Message → Option ℕ
instr_def_source_id feed schema m = elim (instr_def_layout_for feed schema) [
  | none ↦ none
  | some l ↦ source_at l m l.source_id
]

abbrev symbol_at : InstrDefLayout → Message → Option (List ℕ)
symbol_at l m =
    if not (m.msg_length == l.msg_len) || ltb (length m.body) (l.symbol + l.symbol_len)
    then none
    else some (take l.symbol_len (drop l.symbol m.body))

-- The raw bytes of the symbol.
unfoldable pub instr_def_symbol : Feed → ℕ → Message → Option (List ℕ)
instr_def_symbol feed schema m = elim (instr_def_layout_for feed schema) [
  | none ↦ none
  | some l ↦ symbol_at l m
]

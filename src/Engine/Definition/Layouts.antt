-- ===== src/Engine/Definition/Layouts.antt =====
-- engine/instrdef.go: what can be read of an instrument definition.
use edge_feed_spec.Base.{
  ℕ, ◌+◌, ◌≤◌, ◌≡◌, ◌≢◌, ◌⊎◌, refl, ap, ◌∙◌, Option, none, some, leb, if◌then◌else◌, not, ◌==◌,
  length, arith, Bool-cases, Option-cases, inl, inr, subst, if_true, if_false, le→ltb-false, ==_iff,
}
use edge_feed_spec.Core.Finding.{Feed, tob, mid, mbo, mbp}
use edge_feed_spec.Wire.Header.{Message}
use edge_feed_spec.Engine.Fields.{body_u8_at, body_u16_le_at, body_u32_le_at, bytes_at}
use edge_feed_spec.Engine.Definition.{
  InstrDefLayout, InstrDefFields, instr_def_schema1, instr_def_schema3, instr_def_midpoint,
  instr_def_layout_for, optional_u8, or_zero, carries_price_bound, fields_by_layout,
  instr_def_all_fields,
}

-- A layout all of whose fields stand within its message, header included.
record Fits (l : InstrDefLayout) : Type 0 where
  pub instrument : l.instrument_id + 4 + 4 ≤ l.msg_len
  pub manifest : l.manifest_seq + 2 + 4 ≤ l.msg_len
  pub method : (off : ℕ) → l.default_method ≡ some off → off + 1 + 4 ≤ l.msg_len
  pub bound : (off : ℕ) → l.price_bound ≡ some off → off + 1 + 4 ≤ l.msg_len

known_layouts :
    (feed : Feed) (schema : ℕ) (l : InstrDefLayout)
    → instr_def_layout_for feed schema ≡ some l
    → (instr_def_schema1 ≡ l) ⊎ (instr_def_schema3 ≡ l) ⊎ (instr_def_midpoint ≡ l)
unfolding instr_def_layout_for
known_layouts tob schema l h = ground arith
known_layouts mid schema l h = ground arith
known_layouts mbo schema l h = ground arith
known_layouts mbp schema l h = ground arith

layouts-Fits :
    (feed : Feed) (schema : ℕ) (l : InstrDefLayout)
    → instr_def_layout_for feed schema ≡ some l
    → Fits l
unfolding instr_def_schema1 instr_def_schema3 instr_def_midpoint
layouts-Fits feed schema l h = elim (known_layouts feed schema l h) [
  | inl e ↦
      subst (λ x. Fits x) e
        (record {
          instrument = omega arith;
          manifest = omega arith;
          method = λ off e. ground arith;
          bound = λ off e. ground arith;
        })
  | inr (inl e) ↦
      subst (λ x. Fits x) e
        (record {
          instrument = omega arith;
          manifest = omega arith;
          method = λ off e. ground arith;
          bound = λ off e. ground arith;
        })
  | inr (inr e) ↦
      subst (λ x. Fits x) e
        (record {
          instrument = omega arith;
          manifest = omega arith;
          method = λ off e. ground arith;
          bound = λ off e. ground arith;
        })
]

u32_reaches :
    (m : Message) (off : ℕ)
    → off + 4 ≤ length m.body
    → body_u32_le_at m off ≡ some (bytes_at 4 m off)
unfolding body_u32_le_at
u32_reaches m off h = if_false _ _ _ (le→ltb-false (off + 4) (length m.body) h)

u16_reaches :
    (m : Message) (off : ℕ)
    → off + 2 ≤ length m.body
    → body_u16_le_at m off ≡ some (bytes_at 2 m off)
unfolding body_u16_le_at
u16_reaches m off h = if_false _ _ _ (le→ltb-false (off + 2) (length m.body) h)

u8_reaches :
    (m : Message) (off : ℕ) → off + 1 ≤ length m.body → body_u8_at m off ≡ some (bytes_at 1 m off)
unfolding body_u8_at
u8_reaches m off h = if_false _ _ (leb (length m.body) off) (ground arith)

-- A byte that a layout may have: its value is the byte at the offset, which the body reaches, and 0
-- without an offset.
pub data OptionalByte (m : Message) (v : ℕ) : Option ℕ → Type 0 where
  absent : v ≡ 0 → OptionalByte m v none
  there : (off : ℕ) → off + 1 ≤ length m.body → v ≡ bytes_at 1 m off → OptionalByte m v (some off)

-- The Price Bound of a feed: the midpoint and the market-by-order feed read it.
pub PriceBound : Feed → InstrDefLayout → Message → ℕ → Type 0
PriceBound tob l m v = v ≡ 0
PriceBound mid l m v = OptionalByte m v l.price_bound
PriceBound mbo l m v = OptionalByte m v l.price_bound
PriceBound mbp l m v = v ≡ 0

optional_u8_reaches :
    (m : Message) (o : Option ℕ)
    → ((off : ℕ) → o ≡ some off → off + 1 ≤ length m.body)
    → OptionalByte m (optional_u8 m o) o
optional_u8_reaches m none h = absent refl
optional_u8_reaches m (some off) h =
    there off (h off refl) (ap or_zero (u8_reaches m off (h off refl)))

price_bound_reaches :
    (feed : Feed) (l : InstrDefLayout) (m : Message)
    → ((off : ℕ) → l.price_bound ≡ some off → off + 1 ≤ length m.body)
    → PriceBound feed l m (if carries_price_bound feed then optional_u8 m l.price_bound else 0)
unfolding PriceBound
price_bound_reaches tob l m h = refl
price_bound_reaches mid l m h = optional_u8_reaches m l.price_bound h
price_bound_reaches mbo l m h = optional_u8_reaches m l.price_bound h
price_bound_reaches mbp l m h = refl

-- What a definition of the feed with this layout reads as, all four fields; the body reaches each.
pub record FieldsRead (feed : Feed) (l : InstrDefLayout) (m : Message) (f : InstrDefFields)
    : Type 0 where
  pub instrument_reached : l.instrument_id + 4 ≤ length m.body
  pub instrument : f.instr_id ≡ bytes_at 4 m l.instrument_id
  pub sequence_reached : l.manifest_seq + 2 ≤ length m.body
  pub sequence : f.manifest_seq ≡ bytes_at 2 m l.manifest_seq
  pub method : OptionalByte m f.default_method l.default_method
  pub bound : PriceBound feed l m f.price_bound

-- What a definition of the feed at the schema reads as.
pub record ReadsAs (feed : Feed) (schema : ℕ) (m : Message) (l : InstrDefLayout) : Type 0 where
  pub fields : InstrDefFields
  pub read : instr_def_all_fields feed schema m ≡ some fields
  pub content : FieldsRead feed l m fields

fields_read :
    (feed : Feed) (l : InstrDefLayout) (m : Message)
    → Fits l
    → length m.body + 4 ≡ l.msg_len
    → (f : InstrDefFields) × (fields_by_layout feed l m ≡ some f) × FieldsRead feed l m f
unfolding fields_by_layout
fields_read feed l m fit whole =
    rw
      (
        u32_reaches m l.instrument_id instrument,
        u16_reaches m l.manifest_seq manifest,
        fields_by_layout,
      )
      (
        _,
        refl,
        record {
          instrument_reached = instrument;
          instrument = refl;
          sequence_reached = manifest;
          sequence = refl;
          method =
              optional_u8_reaches m l.default_method
                (λ off e. omega (arith, fit.method off e, whole));
          bound = price_bound_reaches feed l m (λ off e. omega (arith, fit.bound off e, whole));
        },
      )
  where
    instrument : l.instrument_id + 4 ≤ length m.body
    instrument = omega (arith, fit.instrument, whole)

    manifest : l.manifest_seq + 2 ≤ length m.body
    manifest = omega (arith, fit.manifest, whole)

-- A definition whose length byte is the length of its body and header is read exactly if its feed
-- and schema have a layout and the length is the layout's. Then the body reaches every field that is
-- read, and each is the bytes at the layout's offset: the instrument, the manifest sequence, the
-- default method where the layout has one and 0 elsewhere, and on the midpoint and market-by-order
-- feeds the price bound, which is 0 on the two others.
pub instr_def_all_fields_read :
    (feed : Feed) (schema : ℕ) (m : Message)
    → length m.body + 4 ≡ m.msg_length
    → ((instr_def_all_fields feed schema m ≡ none)
        × ((instr_def_layout_for feed schema ≡ none)
            ⊎ ((l : InstrDefLayout) × (instr_def_layout_for feed schema ≡ some l)
                × (m.msg_length ≢ l.msg_len))))
      ⊎ ((l : InstrDefLayout) × (instr_def_layout_for feed schema ≡ some l)
          × (m.msg_length ≡ l.msg_len)
          × ReadsAs feed schema m l)
unfolding instr_def_all_fields
instr_def_all_fields_read feed schema m whole =
    elim (Option-cases (instr_def_layout_for feed schema)) [
      | inl unknown ↦ inl (rw (unknown, instr_def_all_fields) refl, inl unknown)
      | inr (l, known) ↦ elim (Bool-cases (m.msg_length == l.msg_len)) [
        | inr other ↦ inl (
          rw (known, instr_def_all_fields) (if_true _ _ _ (ap not other)),
          inr (l, known, ground (arith, other)),
        )
        | inl same ↦
            let exact = (==_iff m.msg_length l.msg_len).0 same in
            let (f, read, content) =
              fields_read feed l m (layouts-Fits feed schema l known) (whole ∙ exact) in
            inr (
              l,
              known,
              (==_iff m.msg_length l.msg_len).0 same,
              record {
                fields = f;
                read = rw (known, instr_def_all_fields) (if_false _ _ _ (ap not same) ∙ read);
                content = content;
              },
            )
      ]
    ]

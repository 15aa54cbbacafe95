-- ===== src/Engine/Fields.antt =====
-- engine/fields.go: the reads of a message's body. The short-body reads give 0; the checked ones
-- report that there is nothing to read.
pub mod Orders
pub mod Quotes
pub mod Definitions
pub mod Levels
pub mod Reads
use edge_feed_spec.Base.{
  ℕ, ◌+◌, ◌^◌, Option, none, some, if◌then◌else◌, leb, ltb, length, take, drop,
}
use edge_feed_spec.Base.Bytes.{le_value}
use edge_feed_spec.Wire.Header.{Message}

-- `n` bytes from an offset, lowest first.
abbrev pub bytes_at : ℕ → Message → ℕ → ℕ
bytes_at n m off = le_value (take n (drop off m.body))

unfoldable pub body_u8 : Message → ℕ → ℕ
body_u8 m off = if leb (length m.body) off then 0 else bytes_at 1 m off

unfoldable pub body_u16_le : Message → ℕ → ℕ
body_u16_le m off = if leb (length m.body) (off + 1) then 0 else bytes_at 2 m off

unfoldable pub body_u32_le : Message → ℕ → ℕ
body_u32_le m off = if leb (length m.body) (off + 3) then 0 else bytes_at 4 m off

unfoldable pub body_u64_le : Message → ℕ → ℕ
body_u64_le m off = if leb (length m.body) (off + 7) then 0 else bytes_at 8 m off

unfoldable pub body_u8_at : Message → ℕ → Option ℕ
body_u8_at m off = if leb (length m.body) off then none else some (bytes_at 1 m off)

unfoldable pub body_u16_le_at : Message → ℕ → Option ℕ
body_u16_le_at m off = if ltb (length m.body) (off + 2) then none else some (bytes_at 2 m off)

unfoldable pub body_u32_le_at : Message → ℕ → Option ℕ
body_u32_le_at m off = if ltb (length m.body) (off + 4) then none else some (bytes_at 4 m off)

-- ===== src/Engine/Fields/Definitions.antt =====
-- engine/fields.go: the fields of heartbeats, manifests and strike intervals.
use edge_feed_spec.Base.{ℕ}
use edge_feed_spec.Base.Int.{ℤ, to_int64}
use edge_feed_spec.Wire.Header.{Message}
use edge_feed_spec.Engine.Fields.{body_u16_le, body_u32_le, body_u64_le, body_u8}

unfoldable pub heartbeat_channel_id : Message → ℕ
heartbeat_channel_id m = body_u8 m 0

unfoldable pub manifest_valid : Message → ℕ
manifest_valid m = body_u8 m 1

unfoldable pub manifest_seq_field : Message → ℕ
manifest_seq_field m = body_u16_le m 4

unfoldable pub manifest_count : Message → ℕ
manifest_count m = body_u32_le m 8

unfoldable pub strike_instrument_id : Message → ℕ
strike_instrument_id m = body_u32_le m 0

unfoldable pub strike_source_id : Message → ℕ
strike_source_id m = body_u16_le m 4

unfoldable pub strike_bound_flags : Message → ℕ
strike_bound_flags m = body_u8 m 7

unfoldable pub strike_lower_bound : Message → ℤ
strike_lower_bound m = to_int64 (body_u64_le m 8)

unfoldable pub strike_upper_bound : Message → ℤ
strike_upper_bound m = to_int64 (body_u64_le m 16)

unfoldable pub strike_fixing_time : Message → ℕ
strike_fixing_time m = body_u64_le m 24

unfoldable pub strike_reserved : Message → ℕ
strike_reserved m = body_u32_le m 32

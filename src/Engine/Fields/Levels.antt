-- ===== src/Engine/Fields/Levels.antt =====
-- engine/mbp_fields.go: the fields of the messages of the market-by-price feed.
use edge_feed_spec.Base.{ℕ}
use edge_feed_spec.Base.Int.{ℤ, to_int64}
use edge_feed_spec.Wire.Header.{Message}
use edge_feed_spec.Engine.Fields.{body_u32_le, body_u64_le, body_u8}

unfoldable pub level_update_instrument_id : Message → ℕ
level_update_instrument_id m = body_u32_le m 0

unfoldable pub level_update_side : Message → ℕ
level_update_side m = body_u8 m 6

unfoldable pub level_update_action : Message → ℕ
level_update_action m = body_u8 m 7

unfoldable pub level_update_per_instr_seq : Message → ℕ
level_update_per_instr_seq m = body_u32_le m 8

unfoldable pub level_update_price : Message → ℤ
level_update_price m = to_int64 (body_u64_le m 12)

unfoldable pub level_update_quantity : Message → ℕ
level_update_quantity m = body_u64_le m 20

unfoldable pub book_clear_instrument_id : Message → ℕ
book_clear_instrument_id m = body_u32_le m 0

unfoldable pub book_clear_clear_side : Message → ℕ
book_clear_clear_side m = body_u8 m 6

unfoldable pub book_clear_scope : Message → ℕ
book_clear_scope m = body_u8 m 7

unfoldable pub book_clear_per_instr_seq : Message → ℕ
book_clear_per_instr_seq m = body_u32_le m 8

unfoldable pub book_clear_from_price : Message → ℤ
book_clear_from_price m = to_int64 (body_u64_le m 12)

unfoldable pub snapshot_begin_depth_bound : Message → ℕ
snapshot_begin_depth_bound m = body_u32_le m 32

unfoldable pub snapshot_level_snapshot_id : Message → ℕ
snapshot_level_snapshot_id m = body_u32_le m 0

unfoldable pub snapshot_level_price : Message → ℤ
snapshot_level_price m = to_int64 (body_u64_le m 4)

unfoldable pub snapshot_level_quantity : Message → ℕ
snapshot_level_quantity m = body_u64_le m 12

unfoldable pub snapshot_level_side : Message → ℕ
snapshot_level_side m = body_u8 m 22

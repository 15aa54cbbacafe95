-- ===== src/Engine/Fields/Orders.antt =====
-- engine/fields.go: the fields of the order messages, the boundaries and the snapshot messages of the market-by-order feed.
use edge_feed_spec.Base.{ℕ}
use edge_feed_spec.Base.Int.{ℤ, to_int64}
use edge_feed_spec.Wire.Header.{Message}
use edge_feed_spec.Engine.Fields.{body_u16_le, body_u32_le, body_u64_le, body_u8}

unfoldable pub delta_instrument_id : Message → ℕ
delta_instrument_id m = body_u32_le m 0

unfoldable pub delta_per_instrument_seq : Message → ℕ
delta_per_instrument_seq m = body_u32_le m 8

unfoldable pub instr_reset_instrument_id : Message → ℕ
instr_reset_instrument_id m = body_u32_le m 0

unfoldable pub order_add_source_id : Message → ℕ
order_add_source_id m = body_u16_le m 4

unfoldable pub order_add_side : Message → ℕ
order_add_side m = body_u8 m 6

unfoldable pub order_add_order_flags : Message → ℕ
order_add_order_flags m = body_u8 m 7

unfoldable pub order_add_order_id : Message → ℕ
order_add_order_id m = body_u64_le m 12

unfoldable pub order_add_enter_timestamp : Message → ℕ
order_add_enter_timestamp m = body_u64_le m 20

unfoldable pub order_add_price : Message → ℤ
order_add_price m = to_int64 (body_u64_le m 28)

unfoldable pub order_add_quantity : Message → ℕ
order_add_quantity m = body_u64_le m 36

unfoldable pub order_cancel_source_id : Message → ℕ
order_cancel_source_id m = body_u16_le m 4

unfoldable pub order_cancel_order_id : Message → ℕ
order_cancel_order_id m = body_u64_le m 12

unfoldable pub order_execute_source_id : Message → ℕ
order_execute_source_id m = body_u16_le m 4

unfoldable pub order_execute_aggressor_side : Message → ℕ
order_execute_aggressor_side m = body_u8 m 6

unfoldable pub order_execute_exec_flags : Message → ℕ
order_execute_exec_flags m = body_u8 m 7

unfoldable pub order_execute_order_id : Message → ℕ
order_execute_order_id m = body_u64_le m 12

unfoldable pub order_execute_trade_id : Message → ℕ
order_execute_trade_id m = body_u64_le m 20

unfoldable pub order_execute_exec_price : Message → ℤ
order_execute_exec_price m = to_int64 (body_u64_le m 36)

unfoldable pub order_execute_exec_quantity : Message → ℕ
order_execute_exec_quantity m = body_u64_le m 44

unfoldable pub instr_reset_new_anchor_seq : Message → ℕ
instr_reset_new_anchor_seq m = body_u64_le m 8

unfoldable pub batch_boundary_batch_id : Message → ℕ
batch_boundary_batch_id m = body_u32_le m 0

unfoldable pub snapshot_begin_instrument_id : Message → ℕ
snapshot_begin_instrument_id m = body_u32_le m 0

unfoldable pub snapshot_begin_anchor_seq : Message → ℕ
snapshot_begin_anchor_seq m = body_u64_le m 4

unfoldable pub snapshot_begin_total_orders : Message → ℕ
snapshot_begin_total_orders m = body_u32_le m 12

unfoldable pub snapshot_begin_snapshot_id : Message → ℕ
snapshot_begin_snapshot_id m = body_u32_le m 16

unfoldable pub snapshot_begin_last_instrument_seq : Message → ℕ
snapshot_begin_last_instrument_seq m = body_u32_le m 20

unfoldable pub snapshot_order_snapshot_id : Message → ℕ
snapshot_order_snapshot_id m = body_u32_le m 0

unfoldable pub snapshot_order_order_id : Message → ℕ
snapshot_order_order_id m = body_u64_le m 4

unfoldable pub snapshot_order_side : Message → ℕ
snapshot_order_side m = body_u8 m 12

unfoldable pub snapshot_order_flags : Message → ℕ
snapshot_order_flags m = body_u8 m 13

unfoldable pub snapshot_order_enter_timestamp : Message → ℕ
snapshot_order_enter_timestamp m = body_u64_le m 16

unfoldable pub snapshot_order_price : Message → ℤ
snapshot_order_price m = to_int64 (body_u64_le m 24)

unfoldable pub snapshot_order_quantity : Message → ℕ
snapshot_order_quantity m = body_u64_le m 32

unfoldable pub snapshot_end_instrument_id : Message → ℕ
snapshot_end_instrument_id m = body_u32_le m 0

unfoldable pub snapshot_end_anchor_seq : Message → ℕ
snapshot_end_anchor_seq m = body_u64_le m 4

unfoldable pub snapshot_end_snapshot_id : Message → ℕ
snapshot_end_snapshot_id m = body_u32_le m 12

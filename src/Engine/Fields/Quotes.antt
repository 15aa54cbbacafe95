-- ===== src/Engine/Fields/Quotes.antt =====
-- engine/fields.go: the fields of quotes, trades and midpoints.
use edge_feed_spec.Base.{ℕ}
use edge_feed_spec.Base.Int.{ℤ, to_int64}
use edge_feed_spec.Wire.Header.{Message}
use edge_feed_spec.Engine.Fields.{body_u16_le, body_u32_le, body_u64_le, body_u8}

unfoldable pub quote_instrument_id : Message → ℕ
quote_instrument_id m = body_u32_le m 0

unfoldable pub quote_source_id : Message → ℕ
quote_source_id m = body_u16_le m 4

unfoldable pub quote_update_flags : Message → ℕ
quote_update_flags m = body_u8 m 6

unfoldable pub quote_bid_price : Message → ℤ
quote_bid_price m = to_int64 (body_u64_le m 16)

unfoldable pub quote_ask_price : Message → ℤ
quote_ask_price m = to_int64 (body_u64_le m 32)

unfoldable pub quote_bid_source_count : Message → ℕ
quote_bid_source_count m = body_u16_le m 48

unfoldable pub quote_ask_source_count : Message → ℕ
quote_ask_source_count m = body_u16_le m 50

unfoldable pub trade_instrument_id : Message → ℕ
trade_instrument_id m = body_u32_le m 0

unfoldable pub trade_source_id : Message → ℕ
trade_source_id m = body_u16_le m 4

unfoldable pub trade_aggressor_side : Message → ℕ
trade_aggressor_side m = body_u8 m 6

unfoldable pub trade_flags : Message → ℕ
trade_flags m = body_u8 m 7

unfoldable pub trade_trade_id : Message → ℕ
trade_trade_id m = body_u64_le m 32

unfoldable pub midpoint_instrument_id : Message → ℕ
midpoint_instrument_id m = body_u32_le m 0

unfoldable pub midpoint_method : Message → ℕ
midpoint_method m = body_u8 m 6

unfoldable pub midpoint_quality_flags : Message → ℕ
midpoint_quality_flags m = body_u8 m 7

unfoldable pub midpoint_book_ts : Message → ℕ
midpoint_book_ts m = body_u64_le m 8

unfoldable pub midpoint_compute_ts : Message → ℕ
midpoint_compute_ts m = body_u64_le m 16

unfoldable pub midpoint_mid_price : Message → ℤ
midpoint_mid_price m = to_int64 (body_u64_le m 24)

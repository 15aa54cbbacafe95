-- ===== src/Engine/Tier1/Fields.antt =====
-- engine/tier1.go: the field rules of each message type.
use edge_feed_spec.Base.{
  ℕ, List, [], ◌++◌, Option, none, some, Bool, not, ◌&&◌, ◌||◌, String, if◌then◌else◌, ltb, ◌==◌,
}
use edge_feed_spec.Base.Int.{ℤ, pos, ltb_ℤ, eqb_ℤ}
use edge_feed_spec.Core.Finding.{Feed, tob, mid, mbo, Status}
use edge_feed_spec.Core.Registry.{same_feed}
use edge_feed_spec.Wire.Header.{Message}
use edge_feed_spec.Wire.MessageType
use edge_feed_spec.Engine.Emit.{Emission, Config}
use edge_feed_spec.Engine.Fields.Orders.{
  order_add_side, order_add_quantity, order_add_order_flags, order_execute_aggressor_side,
  order_execute_exec_flags, instr_reset_new_anchor_seq, snapshot_order_side, snapshot_order_flags,
  snapshot_order_quantity,
}
use edge_feed_spec.Engine.Fields.Quotes.{
  quote_update_flags, quote_bid_price, quote_ask_price, quote_source_id, quote_bid_source_count,
  quote_ask_source_count, trade_aggressor_side, trade_flags, trade_source_id, midpoint_method,
  midpoint_quality_flags, midpoint_book_ts, midpoint_compute_ts,
}
use edge_feed_spec.Engine.Fields.Definitions.{heartbeat_channel_id}
use edge_feed_spec.Engine.Tier1.{Place, emit_if, expected_msg_len}
use edge_feed_spec.Engine.Tier1.Strikes.{has_bits}

-- A violation under a test, of no instrument.
abbrev pub charge_if : Bool → String → Place → List Emission
charge_if b rule at = emit_if b rule Status.violation at 0

-- The switch of `checkTier1Message`, for a message of canonical length.
unfoldable pub canonical_findings : Feed → Message → Place → List Emission
canonical_findings feed m at =
    if m.type_id == MessageType.heartbeat
    then charge_if (not (heartbeat_channel_id m == at.channel)) "HEARTBEAT.CHANNEL_ID_MATCH" at
    else if m.type_id == MessageType.order_add
    then charge_if (ltb 1 (order_add_side m)) "FIELD.SIDE_ENUM" at
      ++ (charge_if (order_add_quantity m == 0) "FIELD.QTY_POSITIVE" at
          ++ charge_if (has_bits (order_add_order_flags m) 0xE0) "RESERVED.FIELD_BITS_ZERO" at)
    else if m.type_id == MessageType.order_execute
    then charge_if (ltb 2 (order_execute_aggressor_side m)) "FIELD.AGGRESSOR_SIDE_ENUM" at
      ++ charge_if (has_bits (order_execute_exec_flags m) 0xFC) "RESERVED.FIELD_BITS_ZERO" at
    else if m.type_id == MessageType.trade
    then charge_if (same_feed feed mbo && ltb 2 (trade_aggressor_side m))
        "FIELD.AGGRESSOR_SIDE_ENUM" at
    else if m.type_id == MessageType.instr_reset
    then charge_if (not (instr_reset_new_anchor_seq m == at.seq))
        "RESET.ANCHOR_SEQ_IS_CURRENT_FRAME" at
    else if m.type_id == MessageType.snapshot_order
    then charge_if (ltb 1 (snapshot_order_side m)) "SNAP.ORDER_STRUCT_VALID" at
      ++ (charge_if (has_bits (snapshot_order_flags m) 0xE0) "SNAP.ORDER_STRUCT_VALID" at
          ++ charge_if (snapshot_order_quantity m == 0) "SNAP.ORDER_STRUCT_VALID" at)
    else []

-- `SourceRegistry != nil && !SourceRegistry.Allowed(id)`; the ID 0 is reserved.
unfoldable pub bad_source : Option (ℕ → Bool) → ℕ → Bool
bad_source none id = id == 0
bad_source (some allowed) id = (id == 0) || not (allowed id)

abbrev zero_price : ℤ → Bool
zero_price p = eqb_ℤ p (pos 0)

-- The semantic checks of a quote.
unfoldable pub quote_findings : Option (ℕ → Bool) → Message → Place → List Emission
quote_findings registry m at =
    let upd = quote_update_flags m in
    let bid_gone = has_bits upd 0x04 in
    let ask_gone = has_bits upd 0x08 in
    let bid = quote_bid_price m in
    let ask = quote_ask_price m in
    charge_if (bid_gone && not (zero_price bid)) "TOB.QUOTE.GONE_VS_ZERO_PRICE" at
    ++ (charge_if (ask_gone && not (zero_price ask)) "TOB.QUOTE.GONE_VS_ZERO_PRICE" at
        ++ (charge_if (not bid_gone && (not ask_gone && not (ltb_ℤ bid ask)))
              "TOB.QUOTE.CROSSED_LOCKED" at
            ++ (charge_if (not (has_bits upd 0x0F)) "TOB.QUOTE.UPDATE_FLAGS_COHERENCE" at
                ++ (charge_if (bad_source registry (quote_source_id m))
                      "TOB.QUOTE.SOURCE_ID_REGISTRY" at
                    ++ (emit_if
                          (not bid_gone
                            && (not (zero_price bid) && (quote_bid_source_count m == 0)))
                          "TOB.QUOTE.SOURCE_COUNT" Status.pass at 0
                        ++ emit_if
                            (not ask_gone
                              && (not (zero_price ask) && (quote_ask_source_count m == 0)))
                            "TOB.QUOTE.SOURCE_COUNT" Status.pass at 0)))))

unfoldable pub trade_findings : Option (ℕ → Bool) → Message → Place → List Emission
trade_findings registry m at =
    charge_if (ltb 2 (trade_aggressor_side m)) "TOB.TRADE.FIELDS" at
    ++ (charge_if (has_bits (trade_flags m) 0xF8) "TOB.TRADE.FIELDS" at
        ++ charge_if (bad_source registry (trade_source_id m)) "TOB.TRADE.FIELDS" at)

unfoldable pub check_tier1_tob : Option (ℕ → Bool) → Message → Place → Bool → List Emission
check_tier1_tob registry m at length_ok =
    if m.type_id == MessageType.quote
    then charge_if (not (m.msg_length == 60)) "TOB.QUOTE.STRUCT_LEN_TYPE" at
      ++ (if length_ok then quote_findings registry m at else [])
    else if m.type_id == MessageType.trade
    then (if length_ok then trade_findings registry m at else [])
    else []

unfoldable pub midpoint_findings : Message → Place → List Emission
midpoint_findings m at =
    emit_if (ltb 4 (midpoint_method m) && not (midpoint_method m == 255)) "MID.METHOD_RANGE"
      Status.pass at 0
    ++ (charge_if (has_bits (midpoint_quality_flags m) 0xF0) "MID.QUALITY_FLAGS" at
        ++ charge_if (ltb (midpoint_compute_ts m) (midpoint_book_ts m)) "MID.TIMESTAMP_ORDERING" at)

unfoldable pub check_tier1_mid : Message → Place → Bool → List Emission
check_tier1_mid m at length_ok =
    if not (m.type_id == MessageType.midpoint)
    then []
    else charge_if (not (m.msg_length == 40)) "MID.STRUCT_LEN_TYPE" at
      ++ (if length_ok then midpoint_findings m at else [])

-- Whether the length is canonical, or none is asserted.
unfoldable pub length_is_ok : Feed → ℕ → Message → Bool
length_is_ok feed schema m =
    let exp = expected_msg_len feed schema m.type_id in (exp == 0) || (m.msg_length == exp)

unfoldable pub check_tier1_message : Config → ℕ → Message → Place → List Emission
check_tier1_message c schema m at =
    let length_ok = length_is_ok c.feed schema m in
    (if length_ok then canonical_findings c.feed m at else [])
    ++ ((if same_feed c.feed tob then check_tier1_tob c.source_registry m at length_ok else [])
        ++ (if same_feed c.feed mid then check_tier1_mid m at length_ok else []))

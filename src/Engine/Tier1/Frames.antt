-- ===== src/Engine/Tier1/Frames.antt =====
-- engine/tier1.go: `checkTier1`, over the messages of a frame.
use edge_feed_spec.Base.{
  ℕ, List, [], ◌∷◌, ◌++◌, Option, none, some, Bool, true, false, not, ◌&&◌, ◌||◌, if◌then◌else◌,
  ◌==◌,
}
use edge_feed_spec.Core.Finding.{Feed, mbo, mbp, Port, snapshot, mkt_data, ref_data, Status}
use edge_feed_spec.Core.Registry.{same_feed}
use edge_feed_spec.Wire.Header.{Message, Frame}
use edge_feed_spec.Wire.MessageType
use edge_feed_spec.Engine.Emit.{Emission, Config}
use edge_feed_spec.Engine.Tier1.{
  Place, emit_if, expected_msg_len, is_known, port_allowed, carries_strike_interval,
}
use edge_feed_spec.Engine.Tier1.Strikes.{has_bits, check_tier1_strike}
use edge_feed_spec.Engine.Tier1.Fields.{check_tier1_message}

abbrev on_snapshot : Port → Bool
on_snapshot snapshot = true
on_snapshot mkt_data = false
on_snapshot ref_data = false

abbrev pub is_reserved : Feed → ℕ → Bool
is_reserved feed typ = same_feed feed mbo && ((typ == 0x03) || (typ == 0x05))

abbrev pub is_unknown : Feed → ℕ → ℕ → Bool
is_unknown feed schema typ =
    not (is_known feed typ)
    || ((typ == MessageType.strike_interval) && not (carries_strike_interval feed schema))

abbrev differ : Bool → Bool → Bool
differ true b = not b
differ false b = b

-- The snapshot flag is set exactly on the snapshot port.
unfoldable pub wrong_flag : Feed → Message → Port → Bool
wrong_flag feed m port = same_feed feed mbp && differ (has_bits m.flags 0x0001) (on_snapshot port)

-- The checks of a message of a known type, with the message before it.
unfoldable pub known_message : Config → ℕ → Option Message → Message → Place → List Emission
known_message c schema prev m at =
    let exp = expected_msg_len c.feed schema m.type_id in
    emit_if (not (exp == 0) && not (m.msg_length == exp)) "MSG.LENGTH_PER_TYPE" Status.violation at
      0
    ++ (emit_if (not (port_allowed c.feed m.type_id at.port)) "MSG.WRONG_PORT_PLACEMENT"
          Status.violation at 0
        ++ (emit_if (wrong_flag c.feed m at.port) "MSG.SNAPSHOT_FLAG_MATCHES_PORT" Status.violation
              at 0
            ++ (check_tier1_message c schema m at
                ++ (if m.type_id == MessageType.strike_interval
                    then check_tier1_strike c.feed schema prev m at
                    else []))))

-- A round of the loop.
unfoldable pub tier1_message : Config → ℕ → Option Message → Message → Place → List Emission
tier1_message c schema prev m at =
    if is_reserved c.feed m.type_id
    then emit_if true "MSG.RESERVED_TYPE_0X03_0X05" Status.violation at 0
    else if is_unknown c.feed schema m.type_id
    then emit_if true "MSG.UNKNOWN_TYPE_SKIPPED" Status.pass at 0
    else known_message c schema prev m at

unfoldable pub tier1_messages : Config → ℕ → Option Message → List Message → Place → List Emission
tier1_messages c schema prev [] at = []
tier1_messages c schema prev (m ∷ ms) at =
    tier1_message c schema prev m at ++ tier1_messages c schema (some m) ms at

unfoldable pub check_tier1 : Config → Frame → Port → List Emission
check_tier1 c f port =
    tier1_messages c f.header.schema_version none f.messages
      (record { port = port; seq = f.header.sequence; channel = f.header.channel_id })

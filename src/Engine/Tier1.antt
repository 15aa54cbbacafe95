-- ===== src/Engine/Tier1.antt =====
-- engine/tier1.go: the structural rules that one intact datagram decides.
pub mod Strikes
pub mod Fields
pub mod Frames
pub mod Places
pub mod Cascades
pub mod Examples
pub mod Lengths
pub mod Pending
use edge_feed_spec.Base.{
  ℕ, List, [], ◌∷◌, Option, none, some, Bool, true, false, ◌&&◌, ◌||◌, String, if◌then◌else◌, ◌==◌,
  any,
}
use edge_feed_spec.Core.Finding.{
  Feed, tob, mid, mbo, mbp, Port, mkt_data, ref_data, snapshot, Status,
}
use edge_feed_spec.Core.Registry.{same_feed}
use edge_feed_spec.Wire.MessageType
use edge_feed_spec.Engine.Emit.{Emission}
use edge_feed_spec.Engine.Definition.{InstrDefLayout, instr_def_layout_for}

-- `carriesStrikeInterval`.
unfoldable pub carries_strike_interval : Feed → ℕ → Bool
carries_strike_interval feed schema = (same_feed feed tob || same_feed feed mbp) && (schema == 3)

abbrev definition_len : Option InstrDefLayout → ℕ
definition_len none = 0
definition_len (some l) = l.msg_len

abbrev only_on : Feed → Feed → ℕ → ℕ
only_on f feed n = if same_feed feed f then n else 0

abbrev not_on_mid : Feed → ℕ → ℕ
not_on_mid feed n = if same_feed feed mid then 0 else n

abbrev quote_len : Feed → ℕ
quote_len feed = if same_feed feed tob then 60 else only_on mid feed 40

-- The canonical length of a message, its header included; 0 where none is asserted.
unfoldable pub expected_msg_len : Feed → ℕ → ℕ → ℕ
expected_msg_len feed schema typ =
    if typ == MessageType.heartbeat
    then 16
    else if typ == MessageType.instrument_def
    then definition_len (instr_def_layout_for feed schema)
    else if typ == MessageType.quote
    then quote_len feed
    else if typ == MessageType.trade
    then not_on_mid feed 52
    else if typ == MessageType.end_of_session
    then 12
    else if typ == MessageType.manifest
    then 24
    else if typ == MessageType.order_add
    then 52
    else if typ == MessageType.order_cancel
    then 32
    else if typ == MessageType.order_execute
    then 56
    else if typ == MessageType.batch_boundary
    then 16
    else if typ == MessageType.instr_reset
    then 28
    else if typ == MessageType.snapshot_begin
    then (if same_feed feed mbp then 40 else 36)
    else if typ == MessageType.snapshot_order
    then 44
    else if typ == MessageType.snapshot_end
    then 20
    else if typ == MessageType.liquidation
    then not_on_mid feed 48
    else if typ == MessageType.strike_interval
    then (if carries_strike_interval feed schema then 40 else 0)
    else if typ == MessageType.level_update
    then only_on mbp feed 48
    else if typ == MessageType.book_clear
    then only_on mbp feed 36
    else if typ == MessageType.snapshot_level
    then only_on mbp feed 32
    else 0

-- The keys of the map that `knownTypes` returns.
unfoldable pub known_types : Feed → List ℕ
known_types tob =
    MessageType.heartbeat ∷ MessageType.instrument_def ∷ MessageType.quote ∷ MessageType.trade
    ∷ MessageType.end_of_session ∷ MessageType.manifest ∷ MessageType.strike_interval ∷ []
known_types mid =
    MessageType.heartbeat ∷ MessageType.instrument_def ∷ MessageType.midpoint
    ∷ MessageType.end_of_session ∷ MessageType.manifest ∷ []
known_types mbo =
    MessageType.heartbeat ∷ MessageType.instrument_def ∷ MessageType.trade
    ∷ MessageType.end_of_session ∷ MessageType.manifest ∷ MessageType.order_add
    ∷ MessageType.order_cancel ∷ MessageType.order_execute ∷ MessageType.batch_boundary
    ∷ MessageType.instr_reset ∷ MessageType.snapshot_begin ∷ MessageType.snapshot_order
    ∷ MessageType.snapshot_end ∷ []
known_types mbp =
    MessageType.heartbeat ∷ MessageType.instrument_def ∷ MessageType.trade
    ∷ MessageType.end_of_session ∷ MessageType.manifest ∷ MessageType.liquidation
    ∷ MessageType.strike_interval ∷ MessageType.batch_boundary ∷ MessageType.instr_reset
    ∷ MessageType.snapshot_begin ∷ MessageType.snapshot_end ∷ MessageType.level_update
    ∷ MessageType.book_clear ∷ MessageType.snapshot_level ∷ []

-- `known[typ]`.
unfoldable pub is_known : Feed → ℕ → Bool
is_known feed typ = any (λ t. t == typ) (known_types feed)

-- The types that the switch of `portAllowed` compares with, for each feed and port.
unfoldable pub port_types : Feed → Port → List ℕ
port_types tob mkt_data =
    MessageType.heartbeat ∷ MessageType.quote ∷ MessageType.trade ∷ MessageType.end_of_session ∷ []
port_types tob ref_data =
    MessageType.instrument_def ∷ MessageType.manifest ∷ MessageType.strike_interval ∷ []
port_types tob snapshot = []
port_types mid mkt_data =
    MessageType.heartbeat ∷ MessageType.midpoint ∷ MessageType.end_of_session ∷ []
port_types mid ref_data = MessageType.instrument_def ∷ MessageType.manifest ∷ []
port_types mid snapshot = []
port_types mbo mkt_data =
    MessageType.heartbeat ∷ MessageType.trade ∷ MessageType.end_of_session ∷ MessageType.order_add
    ∷ MessageType.order_cancel ∷ MessageType.order_execute ∷ MessageType.batch_boundary
    ∷ MessageType.instr_reset ∷ []
port_types mbo ref_data = MessageType.instrument_def ∷ MessageType.manifest ∷ []
port_types mbo snapshot =
    MessageType.snapshot_begin ∷ MessageType.snapshot_order ∷ MessageType.snapshot_end ∷ []
port_types mbp mkt_data =
    MessageType.heartbeat ∷ MessageType.trade ∷ MessageType.liquidation ∷ MessageType.end_of_session
    ∷ MessageType.level_update ∷ MessageType.book_clear ∷ MessageType.batch_boundary
    ∷ MessageType.instr_reset ∷ []
port_types mbp ref_data =
    MessageType.instrument_def ∷ MessageType.manifest ∷ MessageType.strike_interval ∷ []
port_types mbp snapshot =
    MessageType.snapshot_begin ∷ MessageType.snapshot_level ∷ MessageType.snapshot_end ∷ []

unfoldable pub port_allowed : Feed → ℕ → Port → Bool
port_allowed feed typ port = any (λ t. t == typ) (port_types feed port)

-- The port, the sequence number and the channel of the frame that is checked.
pub record Place : Type 0 where
  pub port : Port
  pub seq : ℕ
  pub channel : ℕ

-- A call of `Emit` under a test.
unfoldable pub emit_if : Bool → String → Status → Place → ℕ → List Emission
emit_if b rule st at instrument =
    if b
    then record {
      rule_id = rule;
      status = st;
      port = at.port;
      seq = at.seq;
      channel_id = at.channel;
      instrument = some instrument;
      reason = "";
    }
      ∷ []
    else []

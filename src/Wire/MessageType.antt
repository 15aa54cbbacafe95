-- ===== src/Wire/MessageType.antt =====
-- The message type bytes of wire/header.go; a byte has one meaning for each feed.
use edge_feed_spec.Base.{ℕ}

abbrev pub heartbeat : ℕ
heartbeat = 0x01

abbrev pub instrument_def : ℕ
instrument_def = 0x02

abbrev pub quote : ℕ
quote = 0x03

abbrev pub midpoint : ℕ
midpoint = 0x03

abbrev pub trade : ℕ
trade = 0x04

abbrev pub end_of_session : ℕ
end_of_session = 0x06

abbrev pub manifest : ℕ
manifest = 0x07

abbrev pub liquidation : ℕ
liquidation = 0x08

abbrev pub strike_interval : ℕ
strike_interval = 0x09

abbrev pub order_add : ℕ
order_add = 0x10

abbrev pub order_cancel : ℕ
order_cancel = 0x11

abbrev pub order_execute : ℕ
order_execute = 0x12

abbrev pub batch_boundary : ℕ
batch_boundary = 0x13

abbrev pub instr_reset : ℕ
instr_reset = 0x14

abbrev pub snapshot_begin : ℕ
snapshot_begin = 0x20

abbrev pub snapshot_order : ℕ
snapshot_order = 0x21

abbrev pub snapshot_end : ℕ
snapshot_end = 0x22

abbrev pub level_update : ℕ
level_update = 0x40

abbrev pub book_clear : ℕ
book_clear = 0x41

abbrev pub snapshot_level : ℕ
snapshot_level = 0x42

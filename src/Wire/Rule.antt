-- ===== src/Wire/Rule.antt =====
-- The rule identifiers that wire/decode.go reports.
use edge_feed_spec.Base.{String}

abbrev pub magic_mismatch : String
magic_mismatch = "FRAME.MAGIC_MISMATCH"

abbrev pub schema_version : String
schema_version = "FRAME.SCHEMA_VERSION"

abbrev pub schema_superseded : String
schema_superseded = "FRAME.SCHEMA_VERSION_SUPERSEDED"

abbrev pub frame_length : String
frame_length = "FRAME.LENGTH_CONSISTENCY"

abbrev pub msg_count : String
msg_count = "FRAME.MSG_COUNT_RANGE"

abbrev pub msg_length : String
msg_length = "MSG.LENGTH_PER_TYPE"

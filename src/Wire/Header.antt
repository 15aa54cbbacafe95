-- ===== src/Wire/Header.antt =====
-- wire/header.go: the frame header, messages, and the schema versions a feed may carry.
use edge_feed_spec.Base.{ℕ, List, [], ◌∷◌, Bool, String, ◌==◌, if◌then◌else◌, any}

abbrev pub magic_tob : ℕ
magic_tob = 0x445A

abbrev pub magic_mid : ℕ
magic_mid = 0x4D44

abbrev pub magic_mbo : ℕ
magic_mbo = 0x4444

abbrev pub magic_mbp : ℕ
magic_mbp = 0x4442

abbrev pub frame_header_len : ℕ
frame_header_len = 24

abbrev pub msg_header_len : ℕ
msg_header_len = 4

abbrev pub max_frame_len : ℕ
max_frame_len = 1232

unfoldable pub supported_schemas : ℕ → List ℕ
supported_schemas magic = if magic == magic_mid then 1 ∷ [] else 1 ∷ 3 ∷ []

unfoldable pub current_schema : ℕ → ℕ
current_schema magic = if magic == magic_mid then 1 else 3

unfoldable pub default_schema : ℕ → ℕ
unfolding current_schema
default_schema magic = current_schema magic

unfoldable pub schema_supported : ℕ → ℕ → Bool
unfolding supported_schemas
schema_supported magic ver = any (λ v. v == ver) (supported_schemas magic)

pub record FrameHeader : Type 0 where
  pub magic : ℕ
  pub schema_version : ℕ
  pub channel_id : ℕ
  pub sequence : ℕ
  pub send_ts : ℕ
  pub msg_count : ℕ
  pub reset_count : ℕ
  pub frame_length : ℕ

-- `body` holds the bytes behind the message header, `offset` the message's place in the frame.
pub record Message : Type 0 where
  pub type_id : ℕ
  pub msg_length : ℕ
  pub flags : ℕ
  pub body : List ℕ
  pub offset : ℕ

-- The receive time is set by the caller of the decoder and is no part of the model.
pub record Frame : Type 0 where
  pub header : FrameHeader
  pub messages : List Message
  pub raw : List ℕ

-- `transport` tells corruption on the way from a fault of the publisher. The free-form detail,
-- which only logs show, is left out.
pub record StructFinding : Type 0 where
  pub rule_id : String
  pub at_offset : ℕ
  pub transport : Bool

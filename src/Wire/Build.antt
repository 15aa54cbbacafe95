-- ===== src/Wire/Build.antt =====
-- wire/wirebuild/build.go: the builder of frames for fixtures.
use edge_feed_spec.Base.{ℕ, ◌+◌, ◌%◌, List, [], ◌∷◌, ◌++◌, Option, none, some, length, replicate}
use edge_feed_spec.Base.Bytes.{put_le}
use edge_feed_spec.Wire.Header.{default_schema, frame_header_len}

-- The methods of `Body`: each appends to the bytes built so far.
unfoldable pub u8 : List ℕ → ℕ → List ℕ
u8 b v = b ++ (v ∷ [])

unfoldable pub u16 : List ℕ → ℕ → List ℕ
u16 b v = b ++ put_le 2 v

unfoldable pub u32 : List ℕ → ℕ → List ℕ
u32 b v = b ++ put_le 4 v

unfoldable pub u64 : List ℕ → ℕ → List ℕ
u64 b v = b ++ put_le 8 v

unfoldable pub pad : List ℕ → ℕ → List ℕ
pad b n = b ++ replicate n 0

pub record Msg : Type 0 where
  pub type_id : ℕ
  pub declared_len : ℕ
  pub flags : ℕ
  pub body : List ℕ

pub record FrameBuilder : Type 0 where
  pub magic : ℕ
  pub schema_ver : ℕ
  pub channel_id : ℕ
  pub seq : ℕ
  pub send_ts : ℕ
  pub reset_count : ℕ
  pub msgs : List Msg
  pub override_count : Option ℕ
  pub override_length : Option ℕ

unfoldable pub new_frame : ℕ → FrameBuilder
new_frame magic = record {
  magic = magic;
  schema_ver = default_schema magic;
  channel_id = 0;
  seq = 0;
  send_ts = 0;
  reset_count = 0;
  msgs = [];
  override_count = none;
  override_length = none;
}

-- `Msg` and `MsgFlags`: the body is built before it is passed.
unfoldable pub msg_flags : FrameBuilder → ℕ → ℕ → ℕ → List ℕ → FrameBuilder
msg_flags f type_id declared_len flags body = record f {
  msgs =
      f.msgs
      ++ (record { type_id = type_id; declared_len = declared_len; flags = flags; body = body }
          ∷ []);
}

unfoldable pub forge_count : FrameBuilder → ℕ → FrameBuilder
forge_count f c = record f { override_count = some c }

unfoldable pub forge_length : FrameBuilder → ℕ → FrameBuilder
forge_length f l = record f { override_length = some l }

unfoldable pub msg_bytes : Msg → List ℕ
msg_bytes m = m.type_id ∷ m.declared_len ∷ (put_le 2 m.flags ++ m.body)

unfoldable pub msgs_bytes : List Msg → List ℕ
msgs_bytes [] = []
msgs_bytes (m ∷ ms) = msg_bytes m ++ msgs_bytes ms

abbrev or_default : Option ℕ → ℕ → ℕ
or_default none d = d
or_default (some v) d = v

-- `uint8(len(f.msgs))` and `uint16(len(out))` drop the high bits.
unfoldable pub count_byte : FrameBuilder → ℕ
count_byte f = or_default f.override_count (length f.msgs % 256)

unfoldable pub length_field : FrameBuilder → ℕ
length_field f =
    or_default f.override_length ((frame_header_len + length (msgs_bytes f.msgs)) % 65536)

unfoldable pub header_bytes : FrameBuilder → List ℕ
header_bytes f =
    put_le 2 f.magic
    ++ (f.schema_ver
        ∷ f.channel_id
        ∷ (put_le 8 f.seq
            ++ (put_le 8 f.send_ts ++ (count_byte f ∷ f.reset_count ∷ put_le 2 (length_field f)))))

-- The frame on the wire: the header, then each message.
unfoldable pub frame_bytes : FrameBuilder → List ℕ
frame_bytes f = header_bytes f ++ msgs_bytes f.msgs

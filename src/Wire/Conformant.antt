-- ===== src/Wire/Conformant.antt =====
-- Frames that a conformant publisher sends, and the walk over one whole message of theirs.
use edge_feed_spec.Base.{
  ℕ, suc, ◌+◌, ◌-◌, ◌^◌, ◌≤◌, ◌<◌, ◌≡◌, refl, ap, ◌∙◌, List, [], ◌∷◌, ◌++◌, arith, none, length,
  length-append, drop, All, le→leb, lt→ltb, le→ltb-false, ap₂,
}
use edge_feed_spec.Base.Exec.{done, index}
use edge_feed_spec.Base.Slices.{take-append}
use edge_feed_spec.Base.Bytes.{put_le, le_value-put_le, read_le}
use edge_feed_spec.Wire.Header.{
  FrameHeader, Message, current_schema, frame_header_len, max_frame_len,
}
use edge_feed_spec.Wire.Decode.{limits, taken, take_message, judge_length, walk_round, read_header}
use edge_feed_spec.Wire.Build.{
  Msg, FrameBuilder, msg_bytes, msgs_bytes, header_bytes, count_byte, length_field,
}
use edge_feed_spec.Wire.Cursor.{length-here, index_length, take_message_here}

-- A message whose declared length covers its header and its body.
pub record IsWhole (m : Msg) : Type 0 where
  pub flags_fit : m.flags < 65536
  pub declared_right : m.declared_len ≡ length m.body + 4

-- A frame at the feed's current schema, within the size limit, with one message at least and no
-- forged field.
pub record IsConformant (f : FrameBuilder) : Type 0 where
  pub magic_fits : f.magic < 65536
  pub schema_current : f.schema_ver ≡ current_schema f.magic
  pub seq_fits : f.seq < 2 ^ 64
  pub send_ts_fits : f.send_ts < 2 ^ 64
  pub some_message : 1 ≤ length f.msgs
  pub few_messages : length f.msgs ≤ 255
  pub small : frame_header_len + length (msgs_bytes f.msgs) ≤ max_frame_len
  pub whole : All IsWhole f.msgs
  pub count_kept : f.override_count ≡ none
  pub length_kept : f.override_length ≡ none

-- The message as the decoder reports it at an offset.
abbrev pub place_one : ℕ → Msg → Message
place_one off m = record {
  type_id = m.type_id;
  msg_length = m.declared_len;
  flags = m.flags;
  body = m.body;
  offset = off;
}

abbrev pub place : ℕ → List Msg → List Message
place off [] = []
place off (m ∷ ms) = place_one off m ∷ place (off + m.declared_len) ms

abbrev pub header_of : FrameBuilder → FrameHeader
header_of f = record {
  magic = f.magic;
  schema_version = f.schema_ver;
  channel_id = f.channel_id;
  sequence = f.seq;
  send_ts = f.send_ts;
  msg_count = length f.msgs;
  reset_count = f.reset_count;
  frame_length = frame_header_len + length (msgs_bytes f.msgs);
}

pub length-msg_bytes : (m : Msg) → IsWhole m → length (msg_bytes m) ≡ m.declared_len
unfolding msg_bytes put_le
length-msg_bytes m w = omega (arith, w.declared_right)

pub length-place : (off : ℕ) (ms : List Msg) → length (place off ms) ≡ length ms
length-place off [] = refl
length-place off (m ∷ ms) = ap suc (length-place (off + m.declared_len) ms)

module _ (raw : List ℕ) (n off : ℕ) (m : Msg) (t : List ℕ) (here : drop off raw ≡ msg_bytes m ++ t)
    (w : IsWhole m) (fits : off + m.declared_len ≤ n) where
  whole_inside : off + m.declared_len ≤ length raw
  unfolding msg_bytes put_le
  whole_inside = omega (arith, length-here raw off here, length-append m.body t, w.declared_right)

  take_whole : take_message raw off m.declared_len ≡ done (taken (place_one off m))
  unfolding msg_bytes put_le
  take_whole =
      take_message_here raw off here m.declared_len (omega (arith, w.declared_right)) whole_inside
      ∙ ap₂
          (λ (v : ℕ) (b : List ℕ). done (taken (record (place_one off m) { flags = v; body = b })))
          (le_value-put_le 2 m.flags w.flags_fit)
          (take-append m.body t (m.declared_len - 4) (omega (arith, w.declared_right)))

  judge_whole :
      judge_length raw (limits n (length raw)) off m.declared_len ≡ done (taken (place_one off m))
  unfolding judge_length limits
  judge_whole =
      rw
        (
          le→ltb-false 4 m.declared_len (omega (arith, w.declared_right)),
          le→ltb-false _ _ fits,
          le→ltb-false _ _ whole_inside,
        )
        take_whole

  -- Where a whole message stands, the round takes it.
  pub walk_round_whole : walk_round raw (limits n (length raw)) off ≡ done (taken (place_one off m))
  unfolding walk_round msg_bytes put_le
  walk_round_whole =
      rw
        (
          lt→ltb off (limits n (length raw)).end (omega (arith, room, w.declared_right)),
          le→ltb-false (off + 4) (limits n (length raw)).end
              (omega (arith, room, w.declared_right)),
          index_length raw off here,
        )
        judge_whole
    where
      room : off + m.declared_len ≤ (limits n (length raw)).end
      room = unfold limits in ground (arith, whole_inside, fits)

read_header_fields :
    (magic schema channel seq ts count reset len : ℕ) (rest : List ℕ)
    → magic < 65536
    → seq < 2 ^ 64
    → ts < 2 ^ 64
    → len < 65536
    → read_header (
        (put_le 2 magic
          ++ (schema ∷ channel ∷ (put_le 8 seq ++ (put_le 8 ts ++ (count ∷ reset ∷ put_le 2 len)))))
        ++ rest)
      ≡ done (record {
        magic = magic;
        schema_version = schema;
        channel_id = channel;
        sequence = seq;
        send_ts = ts;
        msg_count = count;
        reset_count = reset;
        frame_length = len;
      })
unfolding read_header read_le put_le index
read_header_fields magic schema channel seq ts count reset len rest h1 h2 h3 h4 =
    rw
      (
        le→leb 2 (length raw) (omega arith),
        le→leb 12 (length raw) (omega arith),
        le→leb 20 (length raw) (omega arith),
        le→leb 24 (length raw) (omega arith),
        le_value-put_le 2 magic h1,
        le_value-put_le 8 seq h2,
        le_value-put_le 8 ts h3,
        le_value-put_le 2 len h4,
      )
      refl
  where
    raw : List ℕ
    raw =
        (put_le 2 magic
          ++ (schema ∷ channel ∷ (put_le 8 seq ++ (put_le 8 ts ++ (count ∷ reset ∷ put_le 2 len)))))
        ++ rest

pub read_header_built :
    (f : FrameBuilder) (rest : List ℕ)
    → IsConformant f
    → read_header (header_bytes f ++ rest) ≡ done (header_of f)
unfolding header_bytes
read_header_built f rest c =
    rw (count-length, length-size)
      (read_header_fields f.magic f.schema_ver f.channel_id f.seq f.send_ts (length f.msgs)
        f.reset_count (frame_header_len + length (msgs_bytes f.msgs)) rest c.magic_fits c.seq_fits
        c.send_ts_fits (omega (arith, c.small)))
  where
    count-length : count_byte f ≡ length f.msgs
    count-length = unfold count_byte in rw c.count_kept (omega (arith, c.few_messages))

    length-size : length_field f ≡ frame_header_len + length (msgs_bytes f.msgs)
    length-size = unfold length_field in rw c.length_kept (omega (arith, c.small))

-- ===== src/Wire/Examples.antt =====
-- Runs of the decoder and the builder on a heartbeat-sized frame.
use edge_feed_spec.Base.{◌≡◌, refl, [], ◌∷◌, take, length, arith, ◌<◌}
use edge_feed_spec.Base.Exec.{done, Finishes}
use edge_feed_spec.Base.Bytes.{put_le}
use edge_feed_spec.Wire.Header.{magic_mbp, frame_header_len, default_schema}
use edge_feed_spec.Wire.Decode.{decode}
use edge_feed_spec.Wire.Build.{
  FrameBuilder, new_frame, msg_flags, frame_bytes, msgs_bytes, msg_bytes, header_bytes,
}
use edge_feed_spec.Wire.Conformant.{IsConformant, header_of, place}
use edge_feed_spec.Wire.RoundTrip.{decode-frame_bytes}
use edge_feed_spec.Wire.Truncation.{decode_truncated, BlamesTransport}
use edge_feed_spec.Wire.Tiling.{decode_total, GoodFrame}

abbrev two_messages : FrameBuilder
two_messages = msg_flags (msg_flags (new_frame magic_mbp) 1 6 0 (7 ∷ 8 ∷ [])) 0x13 5 1 (9 ∷ [])

two_messages-IsConformant : IsConformant two_messages
unfolding msg_flags new_frame msgs_bytes msg_bytes put_le default_schema
two_messages-IsConformant = record {
  magic_fits = omega arith;
  schema_current = refl;
  seq_fits = omega arith;
  send_ts_fits = omega arith;
  some_message = omega arith;
  few_messages = omega arith;
  small = omega arith;
  whole = (
    record { flags_fit = omega arith; declared_right = refl },
    (record { flags_fit = omega arith; declared_right = refl }, tt),
  );
  count_kept = refl;
  length_kept = refl;
}

decode-frame_bytes_example :
    decode (frame_bytes two_messages) two_messages.magic
    ≡ done (
      record {
        header = header_of two_messages;
        messages = place frame_header_len two_messages.msgs;
        raw = frame_bytes two_messages;
      },
      [],
    )
decode-frame_bytes_example = decode-frame_bytes two_messages two_messages-IsConformant

cut_short : 30 < length (frame_bytes two_messages)
unfolding frame_bytes header_bytes msgs_bytes msg_bytes put_le msg_flags new_frame
cut_short = omega arith

decode_truncated_example :
    Finishes
      (decode (take 30 (frame_bytes two_messages)) two_messages.magic)
      (λ r. BlamesTransport r.1)
decode_truncated_example = decode_truncated two_messages 30 two_messages-IsConformant cut_short

decode_total_example :
    Finishes (decode (0x42 ∷ 0x44 ∷ 3 ∷ []) magic_mbp) (λ r. GoodFrame (0x42 ∷ 0x44 ∷ 3 ∷ []) r.0)
decode_total_example =
    decode_total (0x42 ∷ 0x44 ∷ 3 ∷ []) magic_mbp (omega arith, (omega arith, (omega arith, tt)))

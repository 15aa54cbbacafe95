-- ===== src/Wire/RoundTrip.antt =====
-- wire/decode.go on the frames of wire/wirebuild/build.go.
use edge_feed_spec.Base.{
  ℕ, zero, suc, ◌+◌, ◌≤◌, ◌<◌, ◌≡◌, refl, ap, sym, ◌∙◌, List, [], ◌∷◌, ◌++◌, arith, length, ==_iff,
  length-append, drop, All, le→ltb-false, Bool-cases, inl, inr, ◌==◌,
}
use edge_feed_spec.Base.Exec.{done}
use edge_feed_spec.Base.Slices.{drop-append, drop-add}
use edge_feed_spec.Base.Bytes.{put_le}
use edge_feed_spec.Wire.Header.{current_schema, schema_supported, frame_header_len, magic_mid}
use edge_feed_spec.Wire.Decode.{
  limits, walk_round, walk_loop, Walk, ended, walk_messages, count_findings, schema_findings,
  length_findings, decode, read_header,
}
use edge_feed_spec.Wire.Build.{Msg, FrameBuilder, msg_bytes, msgs_bytes, header_bytes, frame_bytes}
use edge_feed_spec.Wire.Conformant.{
  IsWhole, IsConformant, place, header_of, length-place, length-msg_bytes, walk_round_whole,
  read_header_built,
}

pub length-header_bytes : (f : FrameBuilder) → length (header_bytes f) ≡ frame_header_len
unfolding header_bytes
length-header_bytes f = unfold put_le in refl

pub length-frame_bytes :
    (f : FrameBuilder) → length (frame_bytes f) ≡ frame_header_len + length (msgs_bytes f.msgs)
unfolding frame_bytes
length-frame_bytes f =
    omega (arith, length-append (header_bytes f) (msgs_bytes f.msgs), length-header_bytes f)

-- The bytes behind the first of some whole messages.
pub drop-msgs_bytes :
    (raw : List ℕ) (off : ℕ) (m : Msg) (t : List ℕ)
    → drop off raw ≡ msg_bytes m ++ t
    → IsWhole m
    → drop (off + m.declared_len) raw ≡ t
drop-msgs_bytes raw off m t here w =
    drop-add raw off m.declared_len
    ∙ ap (drop m.declared_len) here
    ∙ drop-append (msg_bytes m) t m.declared_len (sym (length-msg_bytes m w))

pub length-msgs_bytes :
    (m : Msg) (ms : List Msg)
    → IsWhole m
    → length (msgs_bytes (m ∷ ms)) ≡ m.declared_len + length (msgs_bytes ms)
unfolding msgs_bytes
length-msgs_bytes m ms w =
    omega (arith, length-append (msg_bytes m) (msgs_bytes ms), length-msg_bytes m w)

walk_loop_whole :
    (fuel : ℕ) (raw : List ℕ) (n off : ℕ) (ms : List Msg)
    → drop off raw ≡ msgs_bytes ms
    → length raw ≡ n
    → off + length (msgs_bytes ms) ≡ n
    → All IsWhole ms
    → length ms < fuel
    → walk_loop fuel raw (limits n (length raw)) off
      ≡ done (record { walked = place off ms; problems = []; stopped = n })
unfolding walk_loop
walk_loop_whole zero raw n off ms here full size whole h = absurd (omega arith)
walk_loop_whole (suc fuel) raw n off [] here full size whole h =
    rw at_end (ap (λ (k : ℕ). done (record { walked = []; problems = []; stopped = k })) stop)
  where
    stop : off ≡ n
    stop = unfold msgs_bytes in omega arith

    at_end : walk_round raw (limits n (length raw)) off ≡ done ended
    at_end = unfold walk_round limits in ground (arith, stop)
walk_loop_whole (suc fuel) raw n off (m ∷ ms) here full size whole h =
    rw
      (
        walk_round_whole raw n off m (msgs_bytes ms) split whole.0
            (omega (arith, length-msgs_bytes m ms whole.0)),
        walk_loop_whole fuel raw n (off + m.declared_len) ms
            (drop-msgs_bytes raw off m (msgs_bytes ms) split whole.0) full
            (omega (arith, length-msgs_bytes m ms whole.0)) whole.1 (omega arith),
      )
      refl
  where
    split : drop off raw ≡ msg_bytes m ++ msgs_bytes ms
    split = unfold msgs_bytes in here

length-le-bytes : (ms : List Msg) → All IsWhole ms → length ms ≤ length (msgs_bytes ms)
length-le-bytes [] h = omega arith
length-le-bytes (m ∷ ms) h =
    omega (arith, length-msgs_bytes m ms h.0, h.0.declared_right, length-le-bytes ms h.1)

pub schema_findings_current : (magic : ℕ) → schema_findings magic (current_schema magic) ≡ []
unfolding schema_findings current_schema schema_supported
schema_findings_current magic = elim (Bool-cases (magic == magic_mid)) [
  | inl e ↦ rw e refl
  | inr e ↦ rw e refl
]

length_findings_exact : (n : ℕ) → frame_header_len ≤ n → n ≤ 1232 → length_findings n n ≡ []
unfolding length_findings
length_findings_exact n h k = ground arith

module _ (f : FrameBuilder) (c : IsConformant f) where
  total_len : ℕ
  total_len = frame_header_len + length (msgs_bytes f.msgs)

  whole_walk : Walk
  unfolding total_len
  whole_walk = record { walked = place frame_header_len f.msgs; problems = []; stopped = total_len }

  walk_built :
      walk_loop
        (suc (length (frame_bytes f)))
        (frame_bytes f)
        (limits total_len (length (frame_bytes f)))
        frame_header_len
      ≡ done whole_walk
  unfolding whole_walk
  walk_built =
      walk_loop_whole (suc (length (frame_bytes f))) (frame_bytes f) total_len frame_header_len
        f.msgs behind (length-frame_bytes f) refl c.whole
        (omega (arith, length-frame_bytes f, length-le-bytes f.msgs c.whole))
    where
      behind : drop frame_header_len (frame_bytes f) ≡ msgs_bytes f.msgs
      behind =
          unfold frame_bytes in
          drop-append (header_bytes f) (msgs_bytes f.msgs) frame_header_len
            (sym (length-header_bytes f))

  count_built :
      count_findings (header_of f) (limits total_len (length (frame_bytes f))) whole_walk ≡ []
  unfolding count_findings whole_walk total_len limits
  count_built =
      ground
        (arith, length-frame_bytes f, length-place frame_header_len f.msgs, c.some_message, c.small)

  length_built : length_findings total_len (length (frame_bytes f)) ≡ []
  unfolding total_len
  length_built = rw length-frame_bytes (length_findings_exact total_len (omega arith) c.small)

-- The decoder finds nothing to report on a conformant publisher's frame, and returns the header
-- fields and the messages that the frame was built from, each at its offset.
pub decode-frame_bytes :
    (f : FrameBuilder)
    → IsConformant f
    → decode (frame_bytes f) f.magic
      ≡ done (
        record {
          header = header_of f;
          messages = place frame_header_len f.msgs;
          raw = frame_bytes f;
        },
        [],
      )
unfolding decode walk_messages whole_walk total_len
decode-frame_bytes f c =
    rw
      (
        le→ltb-false 24 (length (frame_bytes f)) (omega (arith, length-frame_bytes f)),
        header_eq,
        (==_iff f.magic f.magic).1 refl,
        walk_built f c,
        count_built f c,
        length_built f c,
        c.schema_current,
        schema_findings_current f.magic,
      )
      refl
  where
    header_eq : read_header (frame_bytes f) ≡ done (header_of f)
    header_eq = unfold frame_bytes in read_header_built f (msgs_bytes f.msgs) c

-- ===== src/Wire/Truncation.antt =====
-- wire/decode.go on a conformant frame that was cut short on the way.
use edge_feed_spec.Base.{
  ℕ, ◌/◌, ◌%◌, zero, suc, ◌+◌, ◌-◌, ◌≤◌, ◌<◌, ◌≡◌, refl, ap, sym, ◌∙◌, List, [], ◌∷◌, ◌++◌, arith,
  length, ==_iff, drop, take, All, le→ltb-false, lt→ltb, ltb-false, ltb→lt, true, false, Bool-cases,
  append-nil, inl, inr, ◌==◌, le→leb, ltb,
}
use edge_feed_spec.Base.Exec.{done, Finishes, >>=-Finishes}
use edge_feed_spec.Base.Slices.{drop-append, take-append-ge, length-take_of_le}
use edge_feed_spec.Base.Bytes.{put_le}
use edge_feed_spec.Wire.Header.{StructFinding, frame_header_len, max_frame_len}
use edge_feed_spec.Wire.Rule
use edge_feed_spec.Wire.Decode.{
  limits, walk_round, judge_length, walk_loop, Walk, Round, ended, broken, taken, walk_messages,
  count_findings, length_findings, decode, read_header, any_transport, finding,
}
use edge_feed_spec.Wire.Build.{Msg, FrameBuilder, msg_bytes, msgs_bytes, header_bytes, frame_bytes}
use edge_feed_spec.Wire.Conformant.{
  IsWhole, IsConformant, header_of, length-msg_bytes, walk_round_whole, read_header_built,
}
use edge_feed_spec.Wire.Cursor.{index_length}
use edge_feed_spec.Wire.RoundTrip.{
  drop-msgs_bytes, length-msgs_bytes, length-frame_bytes, length-header_bytes,
  schema_findings_current,
}

abbrev pub AllTransport : List StructFinding → Type 0
AllTransport = All (λ g. g.transport ≡ true)

-- What is left of a message of which four bytes arrived.
head_cut :
    (j : ℕ) (m : Msg) (t : List ℕ)
    → 4 ≤ j
    → take j (msg_bytes m ++ t)
      ≡ m.type_id
        ∷ m.declared_len
        ∷ (m.flags % 256)
        ∷ (m.flags / 256 % 256)
        ∷ take (j - 4) (m.body ++ t)
unfolding msg_bytes put_le
head_cut j m t h =
    let e : j ≡ suc (suc (suc (suc (j - 4)))) = omega arith in ap (λ k. take k (msg_bytes m ++ t)) e

-- The round ends the walk, with a transport finding or with none.
abbrev OnlyTransport : Round → Type 0
OnlyTransport ended = Unit {0}
OnlyTransport (broken g) = g.transport ≡ true
OnlyTransport (taken m) = ⊥

-- A datagram of `length raw` bytes of a frame of `n`.
module _ (raw : List ℕ) (n : ℕ) (cut : length raw < n) (lo : frame_header_len ≤ n)
    (hi : n ≤ max_frame_len) where
  limits_cut :
      limits n (length raw)
      ≡ record { frame_len = n; valid_decl = true; end = length raw; truncated = true }
  unfolding limits
  limits_cut =
      rw (le→leb 24 n lo, le→leb n 1232 hi, lt→ltb (length raw) n cut, lt→ltb (length raw) n cut)
        refl

  -- A round on a message that is not all there stops, with a transport finding or none.
  round_cut :
      (off : ℕ) (m : Msg) (t : List ℕ)
      → drop off raw ≡ take (length raw - off) (msg_bytes m ++ t)
      → IsWhole m
      → off + m.declared_len ≤ n
      → length raw < off + m.declared_len
      → Finishes (walk_round raw (limits n (length raw)) off) OnlyTransport
  unfolding walk_round judge_length
  round_cut off m t here w fits short = rw (limits_cut) (elim (Bool-cases (ltb off (length raw))) [
    | inr e ↦ rw e tt
    | inl more ↦ elim (Bool-cases (ltb (length raw) (off + 4))) [
      | inl e ↦ rw (more, e) refl
      | inr room ↦
          rw
            (
              more,
              room,
              index_length raw off
                  (here ∙ head_cut (length raw - off) m t (omega (arith, ltb-false _ _ room))),
              le→ltb-false 4 m.declared_len (omega (arith, w.declared_right)),
              le→ltb-false _ _ fits,
              lt→ltb _ _ short,
            )
            refl
    ]
  ])

  arrived :
      (off : ℕ) (m : Msg) (ms : List Msg)
      → drop off raw ≡ take (length raw - off) (msg_bytes m ++ msgs_bytes ms)
      → IsWhole m
      → off + m.declared_len ≤ length raw
      → drop off raw ≡ msg_bytes m ++ take (length raw - (off + m.declared_len)) (msgs_bytes ms)
  arrived off m ms here w room =
      here
      ∙ take-append-ge (msg_bytes m) (msgs_bytes ms) (length raw - off)
          (length raw - (off + m.declared_len)) (omega (arith, length-msg_bytes m w))

  -- The walk over what arrived of whole messages reports transport findings only.
  walk_loop_cut :
      (fuel off : ℕ) (ms : List Msg)
      → drop off raw ≡ take (length raw - off) (msgs_bytes ms)
      → off + length (msgs_bytes ms) ≡ n
      → All IsWhole ms
      → length raw < off + fuel
      → Finishes
          (walk_loop (suc fuel) raw (limits n (length raw)) off)
          (λ w. AllTransport w.problems)
  unfolding walk_loop
  walk_loop_cut fuel off [] here size whole h = rw ended_here tt
    where
      ended_here : walk_round raw (limits n (length raw)) off ≡ done ended
      ended_here =
          unfold walk_round msgs_bytes in
          rw (limits_cut, le→ltb-false (length raw) off (omega arith)) refl
  walk_loop_cut zero off (m ∷ ms) here size whole h =
      >>=-Finishes (walk_round raw (limits n (length raw)) off) _ OnlyTransport _
        (round_cut off m (msgs_bytes ms) (unfold msgs_bytes in here) whole.0
          (omega (arith, length-msgs_bytes m ms whole.0)) (omega arith))
        (elim [ ended ↦ λ g. tt | broken f ↦ λ g. (g, tt) | taken x ↦ λ g. absurd g ])
  walk_loop_cut (suc fuel) off (m ∷ ms) here size whole h =
      elim (Bool-cases (ltb (length raw) (off + m.declared_len))) [
        | inl short ↦
            >>=-Finishes (walk_round raw (limits n (length raw)) off) _ OnlyTransport _
              (round_cut off m (msgs_bytes ms) (unfold msgs_bytes in here) whole.0
                (omega (arith, length-msgs_bytes m ms whole.0)) (ltb→lt _ _ short))
              (elim [ ended ↦ λ g. tt | broken f ↦ λ g. (g, tt) | taken x ↦ λ g. absurd g ])
        | inr room ↦
            let split = arrived off m ms (unfold msgs_bytes in here) whole.0 (ltb-false _ _ room) in
            rw
              (walk_round_whole raw n off m _ split whole.0
                (omega (arith, length-msgs_bytes m ms whole.0)))
              (>>=-Finishes
                (walk_loop (suc fuel) raw (limits n (length raw)) (off + m.declared_len)) _
                (λ w. AllTransport w.problems) _
                (walk_loop_cut fuel (off + m.declared_len) ms
                  (drop-msgs_bytes raw off m _ split whole.0)
                  (omega (arith, length-msgs_bytes m ms whole.0)) whole.1
                  (omega (arith, whole.0.declared_right)))
                (λ w g. g))
      ]

-- Some finding, and none but of the transport.
abbrev pub BlamesTransport : List StructFinding → Type 0
BlamesTransport fs = (any_transport fs ≡ true) × AllTransport fs

module _ (f : FrameBuilder) (c : IsConformant f) (k : ℕ) (short : k < length (frame_bytes f)) where
  received : List ℕ
  received = take k (frame_bytes f)

  length-received : length received ≡ k
  unfolding received
  length-received = length-take_of_le k (frame_bytes f) (omega arith)

  received_split :
      frame_header_len ≤ k
      → received ≡ header_bytes f ++ take (k - frame_header_len) (msgs_bytes f.msgs)
  unfolding received frame_bytes
  received_split h =
      take-append-ge (header_bytes f) (msgs_bytes f.msgs) k (k - frame_header_len)
        (omega (arith, length-header_bytes f))

  behind_header :
      frame_header_len ≤ k
      → drop frame_header_len received
        ≡ take (length received - frame_header_len) (msgs_bytes f.msgs)
  behind_header h =
      rw (length-received, received_split h)
        (drop-append (header_bytes f) (take (k - frame_header_len) (msgs_bytes f.msgs))
          frame_header_len (sym (length-header_bytes f)))

  abbrev frame_len : ℕ
  frame_len = frame_header_len + length (msgs_bytes f.msgs)

  received-lt : length received < frame_len
  received-lt = omega (arith, length-received, short, length-frame_bytes f)

  count_cut :
      (w : Walk)
      → AllTransport w.problems
      → AllTransport (count_findings (header_of f) (limits frame_len (length received)) w)
  unfolding count_findings
  count_cut w h =
      rw
        (
          limits_cut received frame_len received-lt (omega arith) c.small,
          count_nonzero,
          append-nil w.problems,
        )
        (elim (Bool-cases (any_transport w.problems)) [ inl e ↦ rw e h | inr e ↦ rw e h ])
    where
      count_nonzero : (length f.msgs == 0) ≡ false
      count_nonzero = ground (arith, c.some_message)

  messages_cut :
      frame_header_len ≤ k → Finishes (walk_messages received (header_of f)) (λ r. AllTransport r.1)
  unfolding walk_messages
  messages_cut h =
      >>=-Finishes
        (walk_loop (suc (length received)) received (limits frame_len (length received))
          frame_header_len)
        _ (λ w. AllTransport w.problems) _
        (walk_loop_cut received frame_len received-lt (omega arith) c.small (length received)
          frame_header_len f.msgs (behind_header h) refl c.whole (omega arith))
        count_cut

  length_cut : length_findings frame_len (length received) ≡ finding Rule.frame_length 22 true ∷ []
  unfolding length_findings
  length_cut =
      rw
        (
          le→ltb-false 24 frame_len (omega arith),
          le→ltb-false frame_len 1232 c.small,
          lt→ltb (length received) frame_len received-lt,
        )
        refl

  decode_cut : frame_header_len ≤ k → Finishes (decode received f.magic) (λ r. BlamesTransport r.1)
  unfolding decode any_transport
  decode_cut h =
      rw
        (
          le→ltb-false 24 (length received) (omega (arith, length-received)),
          header_eq,
          (==_iff f.magic f.magic).1 refl,
        )
        (>>=-Finishes (walk_messages received (header_of f)) _ (λ r. AllTransport r.1) _
          (messages_cut h)
          (λ r good.
            rw (c.schema_current, schema_findings_current f.magic, length_cut)
              (refl, (refl, good))))
    where
      header_eq : read_header received ≡ done (header_of f)
      header_eq =
          rw (received_split h)
            (read_header_built f (take (k - frame_header_len) (msgs_bytes f.msgs)) c)

-- Of a conformant frame cut short at any byte the decoder returns findings, at least one, and each
-- of them is of the transport, none of the publisher.
pub decode_truncated :
    (f : FrameBuilder) (k : ℕ)
    → IsConformant f
    → k < length (frame_bytes f)
    → Finishes (decode (take k (frame_bytes f)) f.magic) (λ r. BlamesTransport r.1)
unfolding decode received any_transport
decode_truncated f k c short = elim (Bool-cases (ltb k frame_header_len)) [
  | inl tiny ↦ rw (length-received f c k short, tiny) (refl, (refl, tt))
  | inr enough ↦ decode_cut f c k short (ltb-false _ _ enough)
]

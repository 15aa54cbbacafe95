-- ===== src/Wire/Tiling.antt =====
-- wire/decode.go: what the decoder takes from an arbitrary datagram.
use edge_feed_spec.Base.{
  ℕ, zero, suc, ◌+◌, ◌-◌, ◌≤◌, ◌<◌, ◌≡◌, refl, subst, List, [], ◌∷◌, ◌++◌, arith, length, take,
  drop, length-drop, ap, ltb, ◌==◌, ◌⊎◌, inl, inr, Bool-cases, ltb-false, le→leb, append_assoc, sym,
  ◌∙◌,
}
use edge_feed_spec.Base.Slices.{drop-add, four_of, take-append-drop, length-take_of_le}
use edge_feed_spec.Base.Exec.{Finishes, >>=-Finishes}
use edge_feed_spec.Base.Bytes.{
  le_value, put_le, read_le, AreBytes, put_le-le_value, AreBytes-drop, index_in_range,
}
use edge_feed_spec.Wire.Header.{Message, Frame, FrameHeader, frame_header_len}
use edge_feed_spec.Wire.Decode.{
  Limits, limits, Round, ended, broken, taken, judge_length, walk_round, Walk, walk_loop,
  walk_messages, read_header, decode,
}
use edge_feed_spec.Wire.Cursor.{length-here, index_length, take_message_here}

-- The bytes that a message stands for on the wire.
unfoldable pub encode_message : Message → List ℕ
encode_message m = m.type_id ∷ m.msg_length ∷ (put_le 2 m.flags ++ m.body)

unfoldable pub encode_all : List Message → List ℕ
encode_all [] = []
encode_all (m ∷ ms) = encode_message m ++ encode_all ms

-- The messages stand one behind the other from `off` up to `stop`, each with its whole body.
abbrev pub Contiguous : ℕ → List Message → ℕ → Type 0
Contiguous off [] stop = off ≡ stop
Contiguous off (m ∷ ms) stop =
    (m.offset ≡ off)
    × (4 ≤ m.msg_length)
    × (length m.body + 4 ≡ m.msg_length)
    × Contiguous (off + m.msg_length) ms stop

-- A round that is made with a frame of `n` bytes never panics; a message that it takes is whole.
abbrev GoodRound : List ℕ → ℕ → ℕ → Round → Type 0
GoodRound raw n off ended = Unit {0}
GoodRound raw n off (broken f) = Unit {0}
GoodRound raw n off (taken m) =
    (m.offset ≡ off)
    × (4 ≤ m.msg_length)
    × (off + m.msg_length ≤ length raw)
    × (length m.body + 4 ≡ m.msg_length)
    × (AreBytes raw → drop off raw ≡ encode_message m ++ drop (off + m.msg_length) raw)

taken_bytes :
    (raw : List ℕ) (off a b c e : ℕ) (rest : List ℕ)
    → drop off raw ≡ a ∷ b ∷ c ∷ e ∷ rest
    → 4 ≤ b
    → AreBytes raw
    → drop off raw
      ≡ (a ∷ b ∷ (put_le 2 (le_value (c ∷ e ∷ [])) ++ take (b - 4) rest)) ++ drop (off + b) raw
taken_bytes raw off a b c e rest here h bytes =
    rw
      (
        put_le-le_value (c ∷ e ∷ []) (there.1.1.0, (there.1.1.1.0, tt)),
        drop-add raw off b,
        here,
        drop_rest,
        take-append-drop (b - 4) rest,
      )
      refl
  where
    there : AreBytes (a ∷ b ∷ c ∷ e ∷ rest)
    there = subst AreBytes here (AreBytes-drop off raw bytes)

    drop_rest : drop b (a ∷ b ∷ c ∷ e ∷ rest) ≡ drop (b - 4) rest
    drop_rest =
        let eq : b ≡ suc (suc (suc (suc (b - 4)))) = omega arith in
        ap (λ k. drop k (a ∷ b ∷ c ∷ e ∷ rest)) eq

body_length :
    (raw : List ℕ) (off : ℕ) {a b c e : ℕ} {rest : List ℕ}
    → drop off raw ≡ a ∷ b ∷ c ∷ e ∷ rest
    → (n : ℕ) → 4 ≤ n
    → off + n ≤ length raw
    → length (take (n - 4) rest) + 4 ≡ n
body_length raw off {rest = rest} here n h k = omega (
  arith,
  length-here raw off here,
  length-take_of_le (n - 4) rest (omega (arith, length-here raw off here)),
)

judge_length_good :
    (raw : List ℕ) (n off a b c e : ℕ) (rest : List ℕ)
    → drop off raw ≡ a ∷ b ∷ c ∷ e ∷ rest
    → Finishes (judge_length raw (limits n (length raw)) off b) (GoodRound raw n off)
unfolding judge_length limits encode_message
judge_length_good raw n off a b c e rest here = elim (Bool-cases (ltb b 4)) [
  | inl e ↦ rw e tt
  | inr long ↦ elim (Bool-cases (ltb n (off + b))) [
    | inl e ↦ rw (long, e) tt
    | inr inside ↦ elim (Bool-cases (ltb (length raw) (off + b))) [
      | inl e ↦ rw (long, inside, e) tt
      | inr whole ↦
          rw (long, inside, whole, take_message_here raw off here b (ground arith) (ground arith))
            (
              refl,
              ground arith,
              ground arith,
              body_length raw off here b (ground arith) (ground arith),
              taken_bytes raw off a b c e rest here (ground arith),
            )
    ]
  ]
]

end-le : (raw : List ℕ) (n : ℕ) → (limits n (length raw)).end ≤ length raw
unfolding limits
end-le raw n = ground arith

walk_round_good :
    (raw : List ℕ) (n off : ℕ)
    → Finishes (walk_round raw (limits n (length raw)) off) (GoodRound raw n off)
unfolding walk_round
walk_round_good raw n off = elim (Bool-cases (ltb off l.end)) [
  | inr e ↦ rw e tt
  | inl more ↦ elim (Bool-cases (ltb l.end (off + 4))) [
    | inl e ↦ rw (more, e) tt
    | inr room ↦
        let (a, b, c, e, rest, here) =
          four_of (drop off raw)
            (omega (arith, length-drop off raw, end-le raw n, ltb-false _ _ room)) in
        rw (more, room, index_length raw off here) (judge_length_good raw n off a b c e rest here)
  ]
]
  where
    l : Limits
    l = limits n (length raw)

-- The walk returns; it stops inside the datagram and its messages tile the bytes up to there.
abbrev GoodWalk : List ℕ → ℕ → ℕ → Walk → Type 0
GoodWalk raw n off w =
    (off ≤ w.stopped)
    × Contiguous off w.walked w.stopped
    × (AreBytes raw → drop off raw ≡ encode_all w.walked ++ drop w.stopped raw)

-- A message before a good walk from its end makes a good walk.
cons_walk :
    (raw : List ℕ) (n off : ℕ) (m : Message) (w : Walk)
    → GoodRound raw n off (taken m)
    → GoodWalk raw n (off + m.msg_length) w
    → GoodWalk raw n off (record w { walked = m ∷ w.walked })
unfolding encode_all
cons_walk raw n off m w (o, l, inside, b, e) (le, c, tiles) = (
  omega arith,
  (o, l, b, c),
  λ bytes.
      e bytes
      ∙ ap (◌++◌ (encode_message m)) (tiles bytes)
      ∙ sym (append_assoc (encode_message m) (encode_all w.walked) (drop w.stopped raw)),
)

walk_loop_good :
    (fuel : ℕ) (raw : List ℕ) (n off : ℕ)
    → length raw < off + fuel
    → Finishes (walk_loop (suc fuel) raw (limits n (length raw)) off) (GoodWalk raw n off)
unfolding walk_loop encode_all
walk_loop_good zero raw n off h =
    >>=-Finishes (walk_round raw (limits n (length raw)) off) _ (GoodRound raw n off)
      (GoodWalk raw n off) (walk_round_good raw n off)
      (elim [
        | ended ↦ λ g. (omega arith, refl, λ _. refl)
        | broken f ↦ λ g. (omega arith, refl, λ _. refl)
        | taken m ↦ λ g. absurd (omega arith)
      ])
walk_loop_good (suc fuel) raw n off h =
    >>=-Finishes (walk_round raw (limits n (length raw)) off) _ (GoodRound raw n off)
      (GoodWalk raw n off) (walk_round_good raw n off)
      (elim [
        | ended ↦ λ g. (omega arith, refl, λ _. refl)
        | broken f ↦ λ g. (omega arith, refl, λ _. refl)
        | taken m ↦ λ g.
            >>=-Finishes (walk_loop (suc fuel) raw (limits n (length raw)) (off + m.msg_length)) _
              (GoodWalk raw n (off + m.msg_length)) (GoodWalk raw n off)
              (walk_loop_good fuel raw n (off + m.msg_length) (omega arith))
              (λ w good. cons_walk raw n off m w g good)
      ])

-- What the decoder returns: the datagram itself, and messages that tile its bytes from the frame
-- header on.
abbrev pub GoodFrame : List ℕ → Frame → Type 0
GoodFrame raw f =
    (f.raw ≡ raw)
    × ((f.messages ≡ [])
        ⊎ ((stop : ℕ) × Contiguous frame_header_len f.messages stop
            × (drop frame_header_len raw ≡ encode_all f.messages ++ drop stop raw)))

read_header_total :
    (raw : List ℕ) → frame_header_len ≤ length raw → Finishes (read_header raw) (λ _. Unit {0})
unfolding read_header read_le
read_header_total raw h =
    let (schema, e1) = index_in_range raw 2 (omega arith) in
    let (channel, e2) = index_in_range raw 3 (omega arith) in
    let (count, e3) = index_in_range raw 20 (omega arith) in
    let (reset, e4) = index_in_range raw 21 (omega arith) in
    rw
      (
        le→leb 2 (length raw) (omega arith),
        e1,
        e2,
        le→leb 12 (length raw) (omega arith),
        le→leb 20 (length raw) (omega arith),
        e3,
        e4,
        le→leb 24 (length raw) h,
      )
      tt

walk_messages_good :
    (raw : List ℕ) (h : FrameHeader)
    → Finishes (walk_messages raw h) (λ r.
      (stop : ℕ) × Contiguous frame_header_len r.0 stop
      × (AreBytes raw → drop frame_header_len raw ≡ encode_all r.0 ++ drop stop raw))
unfolding walk_messages
walk_messages_good raw h =
    >>=-Finishes
      (walk_loop (suc (length raw)) raw (limits h.frame_length (length raw)) frame_header_len) _
      (GoodWalk raw h.frame_length frame_header_len) _
      (walk_loop_good (length raw) raw h.frame_length frame_header_len (omega arith))
      (λ w good. (w.stopped, good.1, good.2))

-- On every datagram of bytes and for every expected magic the decoder returns: no slice access is out of
-- range and the walk ends. The frame keeps the datagram, and its messages are none, or stand one
-- behind the other from the frame header on with whole bodies and spell the datagram's bytes.
pub decode_total :
    (raw : List ℕ) (magic : ℕ) → AreBytes raw → Finishes (decode raw magic) (λ r. GoodFrame raw r.0)
unfolding decode
decode_total raw magic bytes = elim (Bool-cases (ltb (length raw) frame_header_len)) [
  | inl short ↦ rw short (refl, inl refl)
  | inr long ↦ rw long (
      >>=-Finishes (read_header raw) _ (λ _. Unit {0}) _
        (read_header_total raw (ltb-false _ _ long))
        (λ h _. elim (Bool-cases (h.magic == magic)) [
          | inr other ↦ rw other (refl, inl refl)
          | inl same ↦ rw same (
              >>=-Finishes (walk_messages raw h) _ _ _ (walk_messages_good raw h)
                (λ r good. (refl, inr (good.0, good.1, good.2 bytes))))
        ]))
]

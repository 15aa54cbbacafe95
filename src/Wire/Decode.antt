-- ===== src/Wire/Decode.antt =====
-- wire/decode.go: one datagram to a frame and its structural findings.
use edge_feed_spec.Base.{
  ℕ, zero, suc, ◌+◌, List, [], ◌∷◌, ◌++◌, Bool, true, false, not, ◌&&◌, ◌||◌, String, ltb, leb,
  ◌==◌, if◌then◌else◌, length, any,
}
use edge_feed_spec.Base.Exec.{Exec, done, out_of_fuel, ◌>>=◌, index}
use edge_feed_spec.Base.Bytes.{read_le, slice}
use edge_feed_spec.Wire.Rule
use edge_feed_spec.Wire.Header.{
  Frame, FrameHeader, Message, StructFinding, frame_header_len, msg_header_len, max_frame_len,
  schema_supported, current_schema,
}

abbrev pub finding : String → ℕ → Bool → StructFinding
finding rule at transport = record { rule_id = rule; at_offset = at; transport = transport }

abbrev pub zero_header : FrameHeader
zero_header = record {
  magic = 0;
  schema_version = 0;
  channel_id = 0;
  sequence = 0;
  send_ts = 0;
  msg_count = 0;
  reset_count = 0;
  frame_length = 0;
}

unfoldable pub read_header : List ℕ → Exec FrameHeader
read_header raw = do
  magic ← read_le raw 0 2
  schema ← index raw 2
  channel ← index raw 3
  sequence ← read_le raw 4 8
  send_ts ← read_le raw 12 8
  count ← index raw 20
  reset ← index raw 21
  frame_length ← read_le raw 22 2
  done (record {
    magic = magic;
    schema_version = schema;
    channel_id = channel;
    sequence = sequence;
    send_ts = send_ts;
    msg_count = count;
    reset_count = reset;
    frame_length = frame_length;
  })

unfoldable pub schema_findings : ℕ → ℕ → List StructFinding
schema_findings magic ver =
    if not (schema_supported magic ver)
    then finding Rule.schema_version 2 false ∷ []
    else if not (ver == current_schema magic)
    then finding Rule.schema_superseded 2 false ∷ []
    else []

-- `declared` is the frame's own length, `received` the datagram's.
unfoldable pub length_findings : ℕ → ℕ → List StructFinding
length_findings declared received =
    if ltb declared frame_header_len || ltb max_frame_len declared
    then finding Rule.frame_length 22 false ∷ []
    else if ltb received declared
    then finding Rule.frame_length 22 true ∷ []
    else if ltb declared received
    then finding Rule.frame_length 22 false ∷ []
    else []

-- The variables that the message walk computes before its loop.
pub record Limits : Type 0 where
  pub frame_len : ℕ
  pub valid_decl : Bool
  pub end : ℕ
  pub truncated : Bool

unfoldable pub limits : ℕ → ℕ → Limits
limits frame_len received =
    let valid = leb frame_header_len frame_len && leb frame_len max_frame_len in
    let end = if ltb received frame_len then received else frame_len in
    record {
      frame_len = frame_len;
      valid_decl = valid;
      end = end;
      truncated = valid && ltb end frame_len;
    }

-- What one round of the loop does: the loop condition fails, it breaks with a finding, or it
-- takes a message.
pub data Round : Type 0 where
  ended : Round
  broken : StructFinding → Round
  taken : Message → Round

unfoldable pub take_message : List ℕ → ℕ → ℕ → Exec Round
take_message raw off mlen = do
  type_id ← index raw off
  flags ← read_le raw (off + 2) 2
  body ← slice raw (off + msg_header_len) (off + mlen)
  done (
      taken
        (record { type_id = type_id; msg_length = mlen; flags = flags; body = body; offset = off }))

-- The rest of a round, once the message's length byte is read.
unfoldable pub judge_length : List ℕ → Limits → ℕ → ℕ → Exec Round
judge_length raw l off mlen =
    if ltb mlen msg_header_len
    then done (broken (finding Rule.msg_length off false))
    else if ltb l.frame_len (off + mlen)
    then done (broken (finding Rule.frame_length off false))
    else if ltb (length raw) (off + mlen)
    then done (broken (finding Rule.frame_length off l.valid_decl))
    else take_message raw off mlen

unfoldable pub walk_round : List ℕ → Limits → ℕ → Exec Round
walk_round raw l off =
    if not (ltb off l.end)
    then done ended
    else if ltb l.end (off + msg_header_len)
    then done (broken (finding Rule.frame_length off l.truncated))
    else (do mlen ← index raw (off + 1); judge_length raw l off mlen)

pub record Walk : Type 0 where
  pub walked : List Message
  pub problems : List StructFinding
  pub stopped : ℕ

-- The loop of `walkMessages`. Each round takes a byte at least.
unfoldable pub walk_loop : ℕ → List ℕ → Limits → ℕ → Exec Walk
walk_loop zero raw l off = out_of_fuel
walk_loop (suc fuel) raw l off = do
  r ← walk_round raw l off
  elim r [
    | ended ↦ done (record { walked = []; problems = []; stopped = off })
    | broken f ↦ done (record { walked = []; problems = f ∷ []; stopped = off })
    | taken m ↦ do
      w ← walk_loop fuel raw l (off + m.msg_length)
      done (record w { walked = m ∷ w.walked })
  ]

unfoldable pub any_transport : List StructFinding → Bool
any_transport = any (λ f. f.transport)

unfoldable pub count_findings : FrameHeader → Limits → Walk → List StructFinding
unfolding any_transport
count_findings h l w =
    let zero_count = if h.msg_count == 0 then finding Rule.msg_count 20 false ∷ [] else [] in
    let fs = w.problems ++ zero_count in
    if not (any_transport fs) && not l.truncated
    then fs
      ++ (if not (h.msg_count == 0) && not (h.msg_count == length w.walked)
          then finding Rule.msg_count 20 false ∷ []
          else [])
      ++ (if l.valid_decl && not (w.stopped == l.frame_len)
          then finding Rule.frame_length w.stopped false ∷ []
          else [])
    else fs

unfoldable pub walk_messages : List ℕ → FrameHeader → Exec (List Message × List StructFinding)
walk_messages raw h = do
  let l = limits h.frame_length (length raw)
  w ← walk_loop (suc (length raw)) raw l frame_header_len
  done (w.walked, count_findings h l w)

unfoldable pub decode : List ℕ → ℕ → Exec (Frame × List StructFinding)
decode raw expect_magic =
    if ltb (length raw) frame_header_len
    then done (
      record { header = zero_header; messages = []; raw = raw },
      finding Rule.frame_length 0 true ∷ [],
    )
    else (do
      h ← read_header raw
      if not (h.magic == expect_magic)
          then done (
            record { header = h; messages = []; raw = raw },
            finding Rule.magic_mismatch 0 false ∷ [],
          )
          else (do
            (ms, fs) ← walk_messages raw h
            done (
              record { header = h; messages = ms; raw = raw },
              schema_findings expect_magic h.schema_version
                  ++ length_findings h.frame_length (length raw)
                  ++ fs,
            )))

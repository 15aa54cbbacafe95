-- ===== src/Engine/Mbp/Frames.antt =====
-- engine/mbp.go: the bound of the journals, over whole frames.
use edge_feed_spec.Base.{
  ℕ, List, [], ◌∷◌, Bool, not, ◌&&◌, ◌==◌, Bool-cases, Option-cases, inl, inr, nat_eq, pair_eq,
}
use edge_feed_spec.Base.Maps.{lookup}
use edge_feed_spec.Wire.Header.{Message, Frame}
use edge_feed_spec.Wire.MessageType
use edge_feed_spec.Engine.Fields.Levels.{snapshot_level_snapshot_id}
use edge_feed_spec.Engine.Mbp.{OpenSnap, MbpState}
use edge_feed_spec.Engine.Mbp.Deltas.{delta_message, delta_messages, check_mbp}
use edge_feed_spec.Engine.Mbp.Groups.{
  note_frame, snapshot_begin_message, snapshot_level_message, level_of_group,
}
use edge_feed_spec.Engine.Mbp.Finish.{
  finish_mbp_snapshot, snapshot_message, snapshot_messages, check_mbp_snapshot,
}
use edge_feed_spec.Engine.Mbp.Bounds.{AreBounded, delta-AreBounded, finish-AreBounded}

module _ (epoch ch seq : ℕ) (dirty : Bool) (s : MbpState) (a : AreBounded s) where
  begin-AreBounded : (m : Message) → AreBounded (snapshot_begin_message dirty ch seq s m).0
  unfolding snapshot_begin_message
  begin-AreBounded m = elim (Bool-cases (not (m.msg_length == 40))) [
    | inl skipped ↦ rw skipped a
    | inr fits ↦ rw fits a
  ]

  level_of_group-AreBounded :
      (o : OpenSnap) (m : Message) → AreBounded (level_of_group dirty ch seq s o m).0
  unfolding level_of_group
  level_of_group-AreBounded o m =
      elim (Bool-cases (not (snapshot_level_snapshot_id m == o.snap_id))) [
        | inl other ↦ rw other a
        | inr same ↦ rw same a
      ]

  level-AreBounded : (m : Message) → AreBounded (snapshot_level_message dirty ch seq s m).0
  unfolding snapshot_level_message
  level-AreBounded m = elim (Bool-cases (not (m.msg_length == 32))) [
    | inl skipped ↦ rw skipped a
    | inr fits ↦ elim (Option-cases (lookup ch s.open_snap)) [
      | inl closed ↦ rw (fits, closed) a
      | inr (o, opened) ↦ rw (fits, opened) (level_of_group-AreBounded o m)
    ]
  ]

  end-AreBounded : (m : Message) → AreBounded (finish_mbp_snapshot epoch dirty ch seq s m).0
  unfolding finish_mbp_snapshot
  end-AreBounded m = elim (Option-cases (lookup ch s.open_snap)) [
    | inl closed ↦ rw (closed, finish_mbp_snapshot) a
    | inr (o, opened) ↦
        rw (opened, finish_mbp_snapshot) (finish-AreBounded epoch ch seq s a dirty o m)
  ]

  snapshot-AreBounded : (m : Message) → AreBounded (snapshot_message epoch dirty ch seq s m).0
  unfolding snapshot_message
  snapshot-AreBounded m = elim (Bool-cases (m.type_id == MessageType.snapshot_begin)) [
    | inl e ↦ rw e (begin-AreBounded m)
    | inr e ↦ elim (Bool-cases (m.type_id == MessageType.snapshot_level)) [
      | inl e2 ↦ rw (e, e2) (level-AreBounded m)
      | inr e2 ↦
          elim (Bool-cases ((m.type_id == MessageType.snapshot_end) && (m.msg_length == 20))) [
            | inl e3 ↦ rw (e, e2, e3) (end-AreBounded m)
            | inr e3 ↦ rw (e, e2, e3) a
          ]
    ]
  ]

note_frame-AreBounded :
    (s : MbpState) (ch seq : ℕ) → AreBounded s → AreBounded (note_frame s ch seq)
unfolding note_frame
note_frame-AreBounded s ch seq a = elim (Option-cases (lookup ch s.open_snap)) [
  | inl closed ↦ rw (closed, note_frame) a
  | inr (o, opened) ↦ rw (opened, note_frame) a
]

deltas-AreBounded :
    (epoch ch seq : ℕ) (s : MbpState) (ms : List Message)
    → AreBounded s
    → AreBounded (delta_messages epoch ch seq s ms).0
unfolding delta_messages
deltas-AreBounded epoch ch seq s [] a = a
deltas-AreBounded epoch ch seq s (m ∷ ms) a =
    deltas-AreBounded epoch ch seq (delta_message epoch ch seq s m).0 ms
      (delta-AreBounded epoch ch seq s a m)

snapshots-AreBounded :
    (epoch : ℕ) (dirty : Bool) (ch seq : ℕ) (s : MbpState) (ms : List Message)
    → AreBounded s
    → AreBounded (snapshot_messages epoch dirty ch seq s ms).0
unfolding snapshot_messages
snapshots-AreBounded epoch dirty ch seq s [] a = a
snapshots-AreBounded epoch dirty ch seq s (m ∷ ms) a =
    snapshots-AreBounded epoch dirty ch seq (snapshot_message epoch dirty ch seq s m).0 ms
      (snapshot-AreBounded epoch ch seq dirty s a m)

-- When no journal of the state is longer than its bound, none is after any frame of the market data
-- port, nor after any frame of the snapshot port, whatever messages the frame carries.
pub frames-AreBounded :
    (epoch : ℕ) (dirty : Bool) (s : MbpState) (f : Frame) (ch seq : ℕ)
    → AreBounded s
    → AreBounded (check_mbp epoch s f ch).0
      × AreBounded (check_mbp_snapshot epoch dirty s f ch seq).0
unfolding check_mbp check_mbp_snapshot
frames-AreBounded epoch dirty s f ch seq a = (
  deltas-AreBounded epoch ch f.header.sequence s f.messages a,
  snapshots-AreBounded epoch dirty ch seq (note_frame s ch seq) f.messages
      (note_frame-AreBounded s ch seq a),
)

-- ===== src/Engine/Mbp/Bounds.antt =====
-- engine/mbp.go: the bound of the journals.
use edge_feed_spec.Base.{
  ℕ, ◌≤◌, ◌≡◌, List, [], ◌∷◌, Bool, not, ◌==◌, ltb, leb, length, All, length-append,
  length-filter_by-le, arith, Bool-cases, inl, inr, nat_eq, pair_eq, Eq,
}
use edge_feed_spec.Base.Maps.{lookup, put}
use edge_feed_spec.Wire.Header.{Message}
use edge_feed_spec.Wire.MessageType
use edge_feed_spec.Engine.Mbp.{
  InstrKey, Instr, JournalEntry, OpenSnap, MbpState, max_mbp_journal, new_instr, or_new, get,
  put_instr, record_entry,
}
use edge_feed_spec.Engine.Mbp.Sequence.{check_mbp_seq, check_against_last}
use edge_feed_spec.Engine.Mbp.Deltas.{
  apply_delta, level_update_message, book_clear_message, is_malformed_clear, instr_reset_message,
  reset_instr, delta_message, level_entry, clear_entry,
}
use edge_feed_spec.Engine.Mbp.Finish.{rebase, adopt, finish_group, end_findings, is_nil}

abbrev pub IsBounded : Instr → Type 0
IsBounded t = length t.journal ≤ max_mbp_journal

-- Every journal of the state is within the bound.
abbrev pub AreBounded : MbpState → Type 0
AreBounded s = All (λ e. IsBounded e.1) s.instr

lookup-IsBounded :
    (k : InstrKey) (m : List (InstrKey × Instr)) (epoch : ℕ)
    → All (λ e. IsBounded e.1) m
    → IsBounded (or_new epoch (lookup k m))
unfolding lookup new_instr
lookup-IsBounded k [] epoch a = omega arith
lookup-IsBounded k ((j, t) ∷ m) epoch a = elim (Bool-cases (key_eq.beq j k)) [
  | inl same ↦ rw same a.0
  | inr other ↦ rw other (lookup-IsBounded k m epoch a.1)
]
  where
    key_eq : Eq InstrKey
    key_eq = pair_eq

put-AreBounded :
    (k : InstrKey) (t : Instr) (m : List (InstrKey × Instr))
    → IsBounded t
    → All (λ e. IsBounded e.1) m
    → All (λ e. IsBounded e.1) (put k t m)
unfolding put
put-AreBounded k t [] h a = (h, tt)
put-AreBounded k t ((j, u) ∷ m) h a = elim (Bool-cases (key_eq.beq j k)) [
  | inl same ↦ rw same (h, a.1)
  | inr other ↦ rw other (a.0, put-AreBounded k t m h a.1)
]
  where
    key_eq : Eq InstrKey
    key_eq = pair_eq

check_mbp_seq-journal :
    (epoch : ℕ) (t : Instr) (k : InstrKey) (n seq : ℕ)
    → (check_mbp_seq epoch t k n seq).tracker.journal ≡ t.journal
unfolding check_mbp_seq check_against_last
check_mbp_seq-journal epoch t k n seq = ground arith

record_entry-IsBounded : (t : Instr) (e : JournalEntry) → IsBounded t → IsBounded (record_entry t e)
unfolding record_entry
record_entry-IsBounded t e h = elim (Bool-cases (leb max_mbp_journal (length t.journal))) [
  | inl is_full ↦ rw is_full h
  | inr room ↦ rw room (ground (arith, length-append t.journal (e ∷ [])))
]

apply_delta-IsBounded :
    (epoch : ℕ) (t : Instr) (k : InstrKey) (n seq : ℕ) (e : JournalEntry)
    → IsBounded t
    → IsBounded (apply_delta (check_mbp_seq epoch t k n seq) e)
unfolding apply_delta
apply_delta-IsBounded epoch t k n seq e h =
    elim (Bool-cases (check_mbp_seq epoch t k n seq).accepted) [
      | inl taken ↦ rw taken (record_entry-IsBounded _ e kept)
      | inr dropped ↦ rw dropped kept
    ]
  where
    kept : length (check_mbp_seq epoch t k n seq).tracker.journal ≤ max_mbp_journal
    kept = rw (check_mbp_seq-journal epoch t k n seq) h

adopt-IsBounded : (t : Instr) (o : OpenSnap) → IsBounded t → IsBounded (adopt t o)
unfolding adopt rebase
adopt-IsBounded t o h =
    omega (arith, length-filter_by-le (λ e. ltb o.last_k e.per_seq) t.journal, h)

module _ (epoch ch seq : ℕ) (s : MbpState) (a : AreBounded s) where
  tracker-IsBounded : (k : InstrKey) → IsBounded (get s k epoch)
  unfolding get
  tracker-IsBounded k = lookup-IsBounded k s.instr epoch a

  stored : (k : InstrKey) (t : Instr) → IsBounded t → AreBounded (put_instr s k t)
  unfolding put_instr
  stored k t h = put-AreBounded k t s.instr h a

  level_update-AreBounded : (m : Message) → AreBounded (level_update_message epoch ch seq s m).0
  unfolding level_update_message
  level_update-AreBounded m = elim (Bool-cases (not (m.msg_length == 48))) [
    | inl skipped ↦ rw skipped a
    | inr fits ↦
        rw fits
          (stored _ _ (apply_delta-IsBounded epoch _ _ _ seq (level_entry m) (tracker-IsBounded _)))
  ]

  book_clear-AreBounded : (m : Message) → AreBounded (book_clear_message epoch ch seq s m).0
  unfolding book_clear_message
  book_clear-AreBounded m = elim (Bool-cases (not (m.msg_length == 36))) [
    | inl skipped ↦ rw skipped a
    | inr fits ↦ elim (Bool-cases (is_malformed_clear m)) [
      | inl bad ↦
          rw (fits, bad)
            (stored _ _ (rw (check_mbp_seq-journal epoch _ _ _ seq) (tracker-IsBounded _)))
      | inr good ↦
          rw (fits, good)
            (stored _ _
              (apply_delta-IsBounded epoch _ _ _ seq (clear_entry m) (tracker-IsBounded _)))
    ]
  ]

  instr_reset-AreBounded : (m : Message) → AreBounded (instr_reset_message epoch ch s m).0
  unfolding instr_reset_message reset_instr
  instr_reset-AreBounded m = elim (Bool-cases (not (m.msg_length == 28))) [
    | inl skipped ↦ rw skipped a
    | inr fits ↦ rw fits (stored _ _ (omega arith))
  ]

  pub delta-AreBounded : (m : Message) → AreBounded (delta_message epoch ch seq s m).0
  unfolding delta_message
  delta-AreBounded m = elim (Bool-cases (m.type_id == MessageType.level_update)) [
    | inl e ↦ rw e (level_update-AreBounded m)
    | inr e ↦ elim (Bool-cases (m.type_id == MessageType.book_clear)) [
      | inl e2 ↦ rw (e, e2) (book_clear-AreBounded m)
      | inr e2 ↦ elim (Bool-cases (m.type_id == MessageType.instr_reset)) [
        | inl e3 ↦ rw (e, e2, e3) (instr_reset-AreBounded m)
        | inr e3 ↦ rw (e, e2, e3) a
      ]
    ]
  ]

  pub finish-AreBounded :
      (dirty : Bool) (o : OpenSnap) (m : Message)
      → AreBounded (finish_group epoch dirty ch seq s o m).0
  unfolding finish_group put_instr
  finish-AreBounded dirty o m = elim (Bool-cases (is_nil (end_findings dirty ch seq o m))) [
    | inl whole ↦
        rw whole (stored o.key (adopt t o) (adopt-IsBounded t o (tracker-IsBounded o.key)))
    | inr bad ↦ rw bad a
  ]
    where
      t : Instr
      t = get s o.key epoch

-- ===== src/Engine/Mbp/Examples.antt =====
-- engine/mbp.go: runs on concrete deltas, groups and frames.
use edge_feed_spec.Base.{
  ℕ, ◌≡◌, ◌≢◌, ◌↔◌, ◌⊎◌, if◌then◌else◌, ltb, refl, [], ◌∷◌, none, some, true, false, arith, inl,
  All, nat_eq, pair_eq,
}
use edge_feed_spec.Base.Int.{pos, int_eq}
use edge_feed_spec.Base.Maps.{lookup, put, delete}
use edge_feed_spec.Core.Finding.{Status}
use edge_feed_spec.Wire.Header.{Message, Frame}
use edge_feed_spec.Engine.MbpBook.{
  new_mbp_book, Levels, LevelKey, apply_level_update, diff_mbp_levels, diff_book, diff_snap,
}
use edge_feed_spec.Engine.MbpBook.Updates.{updates, step}
use edge_feed_spec.Engine.Mbp.{
  Instr, OpenSnap, MbpState, new_instr, new_mbp_state, record_entry, apply_entry, replay,
  state_as_of, max_mbp_journal,
}
use edge_feed_spec.Engine.Mbp.Sequence.{check_mbp_seq, check_against_last}
use edge_feed_spec.Engine.Mbp.Deltas.{apply_delta, check_mbp}
use edge_feed_spec.Engine.Mbp.Finish.{
  adopt, rebase, oracle_verdict, incomparable, end_findings, check_mbp_snapshot,
}
use edge_feed_spec.Engine.Mbp.Publisher.{Publisher, ladder, entry, entry_of, SameLevels}
use edge_feed_spec.Engine.Mbp.Follow.{Run, IsTrue, Blank, started, first_delta, group}
use edge_feed_spec.Engine.Mbp.Numbers.{Judged, check_mbp_seq-Judged}
use edge_feed_spec.Engine.Mbp.Structure.{
  IsWellFormed, LossExplains, end_findings-nil_iff, end_findings-Lossy,
}
use edge_feed_spec.Engine.Mbp.Bounds.{AreBounded}
use edge_feed_spec.Engine.Mbp.Frames.{frames-AreBounded}
use edge_feed_spec.Engine.Mbp.Verdicts.{oracle_verdict_iff, oracle_never_blames}

-- A publisher whose delta `n` puts one lot on the bid side at the price `n`.
abbrev rising : Publisher
rising = record { opening = new_mbp_book; ops = λ n. updates 0 (pos n) 1 }

abbrev fresh : Instr
fresh = new_instr 0

abbrev key : ℕ × ℕ
key = (0, 7)

-- The tracker after the delta `n`.
abbrev met : Instr → ℕ → Instr
met t n = apply_delta (check_mbp_seq 0 t key n 0) (entry rising n)

abbrev group_at : ℕ → Levels → OpenSnap
group_at k levels = record {
  key = key;
  snap_id = 1;
  anchor = 5;
  total = 1;
  last_k = k;
  depth = 10;
  levels = levels;
  count = 1;
  dup_keys = 0;
  dirty = false;
  clean_count = 0;
  clean_dup_keys = 0;
  last_snap_port_seq = some 3;
}

abbrev level : ℕ → LevelKey × ℕ
level n = ((0, pos n), 1)

abbrev one_level : OpenSnap
one_level = group_at 1 (level 1 ∷ [])

abbrev two_levels : OpenSnap
two_levels = group_at 2 (level 1 ∷ level 2 ∷ [])

abbrev three_levels : OpenSnap
three_levels = group_at 3 (level 1 ∷ level 2 ∷ level 3 ∷ [])

-- A live join whose first delta is 3 adopts a true group from before it, and charges the next true
-- group with the deltas it never saw.
late_group_blames :
    (oracle_verdict (adopt (met fresh 3) one_level) three_levels).0 ≡ Status.violation
unfolding new_instr apply_delta check_mbp_seq record_entry max_mbp_journal apply_entry
    apply_level_update adopt rebase oracle_verdict incomparable state_as_of replay diff_mbp_levels
    diff_book diff_snap entry_of lookup put delete new_mbp_book
late_group_blames = refl

-- The same for a gap after the group's own number: the adoption forgets it.
forgotten_gap_blames :
    (oracle_verdict (adopt (met (met fresh 1) 3) one_level) three_levels).0 ≡ Status.violation
unfolding new_instr apply_delta check_mbp_seq check_against_last record_entry max_mbp_journal
    apply_entry apply_level_update adopt rebase oracle_verdict incomparable state_as_of replay
    diff_mbp_levels diff_book diff_snap entry_of lookup put delete new_mbp_book
forgotten_gap_blames = refl

-- A group with the number 0 leaves the series unset, so that the loss of delta 1 goes unnoticed.
unset_series_blames :
    (oracle_verdict (met (adopt fresh (group_at 0 [])) 2) two_levels).0 ≡ Status.violation
unfolding new_instr apply_delta check_mbp_seq record_entry max_mbp_journal apply_entry
    apply_level_update adopt rebase oracle_verdict incomparable state_as_of replay diff_mbp_levels
    diff_book diff_snap entry_of lookup put delete new_mbp_book
unset_series_blames = refl

-- A group from before the baseline becomes the baseline, without the deltas in between.
older_baseline_blames :
    (oracle_verdict
      (adopt (adopt (met (met (met fresh 1) 2) 3) two_levels) one_level)
      three_levels).0
    ≡ Status.violation
unfolding new_instr apply_delta check_mbp_seq check_against_last record_entry max_mbp_journal
    apply_entry apply_level_update adopt rebase oracle_verdict incomparable state_as_of replay
    diff_mbp_levels diff_book diff_snap entry_of lookup put delete new_mbp_book
older_baseline_blames = refl

fresh-Blank : Blank fresh
unfolding new_instr
fresh-Blank = record {
  unset = refl;
  no_base = refl;
  no_journal = refl;
  no_overflow = refl;
  nothing_dropped = refl;
}

first_met : Run rising (met fresh 1) 0
first_met =
    first_delta 0 key 0 0 (started fresh-Blank) fresh-Blank.unset (omega arith)
      (λ h. ground (arith, fresh-Blank.no_base, h))

one_level-IsTrue : IsTrue rising one_level
unfolding ladder step apply_level_update lookup put new_mbp_book
one_level-IsTrue = record { distinct = (refl, tt); levels = λ k. refl; small = omega arith }

-- A tracker that met delta 1 and adopted the group after it.
abbrev settled : Instr
settled = adopt (met fresh 1) one_level

settled-Run : Run rising settled (if ltb 1 (met fresh 1).dropped_max then 0 else 1)
settled-Run = group one_level first_met one_level-IsTrue (inl (omega arith))

settled_comparable : incomparable settled 1 ≡ none
unfolding new_instr apply_delta check_mbp_seq record_entry max_mbp_journal apply_entry
    apply_level_update adopt rebase incomparable entry_of
settled_comparable = refl

oracle_verdict_iff_example :
    (((oracle_verdict settled one_level).0 ≡ Status.pass)
      ↔ SameLevels (ladder rising 1).levels one_level.levels)
    × (((oracle_verdict settled one_level).0 ≡ Status.violation)
        ↔ ¬ SameLevels (ladder rising 1).levels one_level.levels)
oracle_verdict_iff_example =
    oracle_verdict_iff rising settled (if ltb 1 (met fresh 1).dropped_max then 0 else 1) settled-Run
      one_level one_level-IsTrue.distinct settled_comparable

oracle_never_blames_example :
    ((incomparable settled 1 ≡ none) × ((oracle_verdict settled one_level).0 ≡ Status.pass))
    ⊎ ((incomparable settled 1 ≢ none)
        × ((oracle_verdict settled one_level).0 ≡ Status.unverifiable))
oracle_never_blames_example =
    oracle_never_blames rising settled (if ltb 1 (met fresh 1).dropped_max then 0 else 1) one_level
      settled-Run one_level-IsTrue

-- A tracker at the delta 2.
abbrev joined : Instr
joined = record fresh { last_seq = 2; last_seq_set = true }

check_mbp_seq-Judged_example : Judged 0 joined key 5 0 (check_mbp_seq 0 joined key 5 0)
check_mbp_seq-Judged_example = check_mbp_seq-Judged 0 joined key 5 0 refl (omega arith)

abbrev end_message : Message
end_message = record {
  type_id = 0x22;
  msg_length = 20;
  flags = 1;
  body = 7 ∷ 0 ∷ 0 ∷ 0 ∷ 5 ∷ 0 ∷ 0 ∷ 0 ∷ 0 ∷ 0 ∷ 0 ∷ 0 ∷ 1 ∷ 0 ∷ 0 ∷ 0 ∷ [];
  offset = 24;
}

end_findings-nil_iff_example :
    (end_findings false 0 9 one_level end_message ≡ []) ↔ IsWellFormed one_level end_message
end_findings-nil_iff_example = end_findings-nil_iff false 0 9 one_level end_message

-- A group of another instrument that met a gap after its one level, and went on to three.
abbrev merged_group : OpenSnap
merged_group = record one_level {
  key = (0, 8);
  snap_id = 1;
  total = 1;
  count = 3;
  dirty = true;
  clean_count = 1;
}

end_findings-Lossy_example :
    All (λ e. e.status ≢ Status.violation) (end_findings true 0 9 merged_group end_message)
    ↔ LossExplains merged_group end_message
end_findings-Lossy_example = end_findings-Lossy true 0 9 merged_group end_message (inl refl)

abbrev two_channels : MbpState
two_channels = record new_mbp_state {
  instr = ((0, 7), fresh) ∷ ((1, 7), fresh) ∷ [];
  reset_count = (0, 1) ∷ [];
}

abbrev snapshot_frame : Frame
snapshot_frame = record {
  header = record {
    magic = 0x4442;
    schema_version = 3;
    channel_id = 0;
    sequence = 9;
    send_ts = 0;
    msg_count = 1;
    reset_count = 1;
    frame_length = 44;
  };
  messages = end_message ∷ [];
  raw = [];
}

two_channels-AreBounded : AreBounded two_channels
unfolding new_instr max_mbp_journal
two_channels-AreBounded = (omega arith, (omega arith, tt))

frames-AreBounded_example :
    AreBounded (check_mbp 0 two_channels snapshot_frame 0).0
    × AreBounded (check_mbp_snapshot 0 false two_channels snapshot_frame 0 9).0
frames-AreBounded_example =
    frames-AreBounded 0 false two_channels snapshot_frame 0 9 two_channels-AreBounded

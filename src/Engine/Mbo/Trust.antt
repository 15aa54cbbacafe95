-- ===== src/Engine/Mbo/Trust.antt =====
-- engine/gate.go: when the book of an instrument is trusted.
use edge_feed_spec.Base.{
  ℕ, ◌+◌, ◌%◌, ◌^◌, ◌≤◌, ◌<◌, ◌≡◌, refl, sym, ap, subst, ◌∙◌, ◌⊎◌, List, [], ◌∷◌, none, some, Bool,
  true, false, if◌then◌else◌, ltb, arith, Option-cases, inl, inr,
}
use edge_feed_spec.Engine.Mbo.{InstrTracker, new_tracker}
use edge_feed_spec.Engine.Mbo.Events.{
  Arrival, TrackerEvent, delta, instrument_reset, snapshot_begun, snapshot_completed, forgotten,
  on_event, met, Arrived,
}
use edge_feed_spec.Engine.Mbo.Recovery.{
  reset_tracker, begin_recovery, complete_recovery, gate_consumer,
}
use edge_feed_spec.Engine.Mbo.Deltas.{
  DeltaPlace, first_delta_seq, judge_delta_seq, later_delta_seq, seq_delta, apply_delta_seq,
}

-- The tracker stands at a number, and every number from 1 up to it has arrived.
pub record IsComplete (t : InstrTracker) (events : List TrackerEvent) : Type 0 where
  pub last : ℕ
  pub at_last : t.last_instr_seq ≡ some last
  pub arrived : (n : ℕ) → 1 ≤ n → n ≤ last → Arrived n events

judge_delta_seq-trusted :
    (at : DeltaPlace) (t : InstrTracker) (last n hash : ℕ)
    → (judge_delta_seq at t last n hash).0.book_trusted ≡ true
    → (t.book_trusted ≡ true) × (n ≤ last + 1)
unfolding judge_delta_seq
judge_delta_seq-trusted at t last n hash trusted = (ground arith, ground arith)

later_delta_seq-trusted :
    (at : DeltaPlace) (t : InstrTracker) (last n hash : ℕ)
    → (later_delta_seq at t last n hash).0.book_trusted
      ≡ (judge_delta_seq at t last n hash).0.book_trusted
unfolding later_delta_seq
later_delta_seq-trusted at t last n hash = refl

later_delta_seq-last :
    (at : DeltaPlace) (t : InstrTracker) (last n hash : ℕ)
    → (later_delta_seq at t last n hash).0.last_instr_seq ≡ some (if ltb last n then n else last)
unfolding later_delta_seq
later_delta_seq-last at t last n hash = refl

first_delta_seq-trusted :
    (at : DeltaPlace) (t : InstrTracker) (n hash : ℕ)
    → (first_delta_seq at t n hash).0.book_trusted ≡ true
    → (t.book_trusted ≡ true) ⊎ (n ≡ 1)
unfolding first_delta_seq
first_delta_seq-trusted at t n hash trusted = ground arith

first_delta_seq-last :
    (at : DeltaPlace) (t : InstrTracker) (n hash : ℕ)
    → (first_delta_seq at t n hash).0.last_instr_seq ≡ some n
unfolding first_delta_seq
first_delta_seq-last at t n hash = ground arith

-- A first delta numbered 1 stands for all the numbers up to it.
first_delta_seq-IsComplete :
    (a : Arrival) (t : InstrTracker) (rest : List TrackerEvent)
    → t.last_instr_seq ≡ none
    → (t.book_trusted ≡ true → IsComplete t rest)
    → (first_delta_seq a.place t a.number a.hash).0.book_trusted ≡ true
    → IsComplete (first_delta_seq a.place t a.number a.hash).0 (delta a ∷ rest)
unfolding Arrived
first_delta_seq-IsComplete a t rest unset before trusted =
    elim (first_delta_seq-trusted a.place t a.number a.hash trusted) [
      | inl old ↦ absurd (apart (sym unset ∙ (before old).at_last))
      | inr one ↦ record {
        last = a.number;
        at_last = first_delta_seq-last a.place t a.number a.hash;
        arrived = λ n low high. inl (omega arith);
      }
    ]
  where
    apart : {last : ℕ} → none ≡ some last → ⊥
    apart e = cc

-- A later delta that leaves the book trusted extends the numbers by one at most.
later_delta_seq-IsComplete :
    (a : Arrival) (t : InstrTracker) (rest : List TrackerEvent) (last : ℕ)
    → t.last_instr_seq ≡ some last
    → (t.book_trusted ≡ true → IsComplete t rest)
    → (later_delta_seq a.place t last a.number a.hash).0.book_trusted ≡ true
    → IsComplete (later_delta_seq a.place t last a.number a.hash).0 (delta a ∷ rest)
unfolding Arrived
later_delta_seq-IsComplete a t rest last at_last before trusted = record {
  last = if ltb last a.number then a.number else last;
  at_last = later_delta_seq-last a.place t last a.number a.hash;
  arrived = reached;
}
  where
    judged : (t.book_trusted ≡ true) × (a.number ≤ last + 1)
    judged =
        judge_delta_seq-trusted a.place t last a.number a.hash
          (sym (later_delta_seq-trusted a.place t last a.number a.hash) ∙ trusted)

    old : IsComplete t rest
    old = before judged.0

    same : old.last ≡ last
    same = let e = sym old.at_last ∙ at_last in cc

    split :
        (n : ℕ)
        → n ≤ (if ltb last a.number then a.number else last)
        → (a.number ≡ n) ⊎ (n ≤ old.last)
    split n high = ground arith

    reached :
        (n : ℕ)
        → 1 ≤ n
        → n ≤ (if ltb last a.number then a.number else last)
        → (a.number ≡ n) ⊎ Arrived n rest
    reached n low high = elim (split n high) [
      | inl here ↦ inl here
      | inr there ↦ inr (old.arrived n low there)
    ]

pub seq_delta-first :
    (at : DeltaPlace) (t : InstrTracker) (n hash : ℕ)
    → t.last_instr_seq ≡ none
    → seq_delta at t n hash ≡ first_delta_seq at t n hash
unfolding seq_delta
seq_delta-first at t n hash unset = rw unset refl

pub seq_delta-later :
    (at : DeltaPlace) (t : InstrTracker) (last n hash : ℕ)
    → t.last_instr_seq ≡ some last
    → seq_delta at t n hash ≡ later_delta_seq at t last n hash
unfolding seq_delta
seq_delta-later at t last n hash at_last = rw at_last refl

seq_delta-IsComplete :
    (a : Arrival) (t : InstrTracker) (rest : List TrackerEvent)
    → (t.book_trusted ≡ true → IsComplete t rest)
    → (seq_delta a.place t a.number a.hash).0.book_trusted ≡ true
    → IsComplete (seq_delta a.place t a.number a.hash).0 (delta a ∷ rest)
seq_delta-IsComplete a t rest before trusted = elim (Option-cases t.last_instr_seq) [
  | inl unset ↦
      let first = ap (λ p. p.0) (seq_delta-first a.place t a.number a.hash unset) in
      subst (λ s. IsComplete s (delta a ∷ rest)) (sym first)
        (first_delta_seq-IsComplete a t rest unset before
          (sym (ap (λ s. s.book_trusted) first) ∙ trusted))
  | inr (last, at_last) ↦
      let later = ap (λ p. p.0) (seq_delta-later a.place t last a.number a.hash at_last) in
      subst (λ s. IsComplete s (delta a ∷ rest)) (sym later)
        (later_delta_seq-IsComplete a t rest last at_last before
          (sym (ap (λ s. s.book_trusted) later) ∙ trusted))
]

apply_delta_seq-IsComplete :
    (a : Arrival) (t : InstrTracker) (rest : List TrackerEvent)
    → (t.book_trusted ≡ true → IsComplete t rest)
    → (apply_delta_seq a.place t a.number a.hash).0.book_trusted ≡ true
    → IsComplete (apply_delta_seq a.place t a.number a.hash).0 (delta a ∷ rest)
unfolding apply_delta_seq
apply_delta_seq-IsComplete a t rest before trusted =
    seq_delta-IsComplete a (record t { awaiting_recovery = false }) rest resumed trusted
  where
    resumed : t.book_trusted ≡ true → IsComplete (record t { awaiting_recovery = false }) rest
    resumed old = record {
      last = (before old).last;
      at_last = (before old).at_last;
      arrived = (before old).arrived;
    }

begin_recovery-kept :
    (t : InstrTracker) (anchor k : ℕ)
    → ((begin_recovery t anchor k).book_trusted ≡ t.book_trusted)
      × ((begin_recovery t anchor k).last_instr_seq ≡ t.last_instr_seq)
unfolding begin_recovery
begin_recovery-kept t anchor k = (ground arith, ground arith)

complete_recovery-kept :
    (at : DeltaPlace) (dirty : Bool) (t : InstrTracker) (anchor : ℕ)
    → ((complete_recovery at dirty t anchor).0.book_trusted ≡ t.book_trusted)
      × ((complete_recovery at dirty t anchor).0.last_instr_seq ≡ t.last_instr_seq)
unfolding complete_recovery
complete_recovery-kept at dirty t anchor = (ground arith, ground arith)

-- What keeps the trust, the number and the arrivals keeps the numbers complete.
kept-IsComplete :
    (t after : InstrTracker) (before events : List TrackerEvent)
    → (after.book_trusted ≡ t.book_trusted) × (after.last_instr_seq ≡ t.last_instr_seq)
    → ((n : ℕ) → Arrived n before → Arrived n events)
    → (t.book_trusted ≡ true → IsComplete t before)
    → after.book_trusted ≡ true
    → IsComplete after events
kept-IsComplete t after before events kept carried was trusted =
    let old = was (sym kept.0 ∙ trusted) in
    record {
      last = old.last;
      at_last = kept.1 ∙ old.at_last;
      arrived = λ n low high. carried n (old.arrived n low high);
    }

met-IsComplete :
    (events : List TrackerEvent) → (met events).book_trusted ≡ true → IsComplete (met events) events
unfolding met on_event Arrived new_tracker reset_tracker
met-IsComplete [] trusted = cc
met-IsComplete (delta a ∷ rest) trusted =
    apply_delta_seq-IsComplete a (met rest) rest (met-IsComplete rest) trusted
met-IsComplete (instrument_reset anchor ∷ rest) trusted = cc
met-IsComplete (snapshot_begun at pending anchor k ∷ rest) trusted =
    kept-IsComplete (met rest) (begin_recovery (met rest) anchor k) rest
      (snapshot_begun at pending anchor k ∷ rest) (begin_recovery-kept (met rest) anchor k)
      (λ n here. here) (met-IsComplete rest) trusted
met-IsComplete (snapshot_completed at dirty anchor ∷ rest) trusted =
    kept-IsComplete (met rest) (complete_recovery at dirty (met rest) anchor).0 rest
      (snapshot_completed at dirty anchor ∷ rest)
      (complete_recovery-kept at dirty (met rest) anchor) (λ n here. here) (met-IsComplete rest)
      trusted
met-IsComplete (forgotten ∷ rest) trusted = cc

gate_consumer-facts :
    (known gapless : Bool) (t : InstrTracker) (n last : ℕ)
    → t.last_instr_seq ≡ some last
    → gate_consumer known gapless t n ≡ true
    → (t.book_trusted ≡ true) × ((gapless ≡ true) × (n ≡ (last + 1) % 2 ^ 32))
unfolding gate_consumer
gate_consumer-facts known gapless t n last at_last opens =
    (ground arith, (ground arith, ground arith))

gate_consumer-trusted :
    (known gapless : Bool) (t : InstrTracker) (n : ℕ)
    → gate_consumer known gapless t n ≡ true
    → t.book_trusted ≡ true
unfolding gate_consumer
gate_consumer-trusted known gapless t n opens = ground arith

-- Whatever deltas, resets, snapshots and clearings the tracker of an instrument met, whatever the
-- state of the ports: if the gate of the referential rules opens for a delta numbered `n`, then every
-- delta number from 1 up to but not including `n` has arrived since the tracker was last cleared,
-- and the market data are without loss.
pub gate_consumer-Arrived :
    (known gapless : Bool) (events : List TrackerEvent) (n : ℕ)
    → gate_consumer known gapless (met events) n ≡ true
    → (gapless ≡ true) × ((i : ℕ) → 1 ≤ i → i < n → Arrived i events)
gate_consumer-Arrived known gapless events n opens =
    (opened.1.0, λ i low high. found.arrived i low (below i high))
  where
    found : IsComplete (met events) events
    found = met-IsComplete events (gate_consumer-trusted known gapless (met events) n opens)

    opened :
        ((met events).book_trusted ≡ true) × ((gapless ≡ true) × (n ≡ (found.last + 1) % 2 ^ 32))
    opened = gate_consumer-facts known gapless (met events) n found.last found.at_last opens

    below : (i : ℕ) → i < n → i ≤ found.last
    below i high = let e = opened.1.1 in omega arith

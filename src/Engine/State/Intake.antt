-- ===== src/Engine/State/Intake.antt =====
-- What becomes of a datagram that reaches a port: buffered, dropped as a straggler, or the first
-- one of a new era.
use edge_feed_spec.Base.{
  ℕ, ◌+◌, ◌%◌, ◌≤◌, ◌<◌, ◌≡◌, refl, subst, ap, ◌-◌, List, [], ◌∷◌, Option, Bool, true, false, ◌&&◌,
  ltb, if_true, if_false, length, max, All, arith, Bool-cases, inl, inr, nat_eq,
}
use edge_feed_spec.Base.Maps.{lookup}
use edge_feed_spec.Engine.IdWindow.{u64_mod}
use edge_feed_spec.Engine.State.{
  IntakeTuple, PortTracker, EraOrder, push_and_pop, drain_all, wrap_item, advance_era, taint,
  seed_era, enter, enqueue_seeded, enqueue, changes_era, is_late,
}
use edge_feed_spec.Engine.State.Buffer.{count}
use edge_feed_spec.Engine.State.Process.{Handover, hand_over, process}
use edge_feed_spec.Engine.State.Processed.{OfEra, IsTracker, in_era, Processed, push_and_pop-Pushed}

module _ (window : ℕ) (t : PortTracker) (item : IntakeTuple) (v : IsTracker window t) where
  -- The push of the first item of a new era, onto an empty buffer.
  advanced-Processed :
      (t3 : PortTracker) (o2 : EraOrder)
      → t3.buf ≡ []
      → t3.arrival_counter ≡ t.arrival_counter
      → t3.era ≡ in_era item
      → t3.stragglers ≡ 0
      → t3.era_initialized ≡ true
      → Processed window t item (record {
        old_era = t.buf;
        current = (push_and_pop t3 item window).0;
        dropped = false;
        tracker = (push_and_pop t3 item window).1;
        order = o2;
      })
  unfolding push_and_pop wrap_item
  advanced-Processed t3 o2 empty arrival era calm init =
      let same : wrap_item t3 item ≡ wrap_item t item = rw arrival refl in
      let c =
        push_and_pop-Pushed window t3 item (rw empty tt) (rw empty (omega arith)) (rw empty tt) in
      record {
        none_lost =
            λ p. omega (arith, c.none_lost p, ap (λ b. count p (b ∷ [])) same, ap (count p) empty);
        old_sorted = v.sorted;
        old_era_items = inr v.same_era;
        current_first = c.first;
        current_items = c.popped_era;
        valid = record {
          sorted = c.kept_sorted;
          few = c.kept_few;
          same_era = rw era c.kept_era;
          patient = rw calm (omega arith);
          unseeded = inl init;
        };
        follows = inr era;
        counted = inl refl;
      }

  advance-Processed :
      (o : EraOrder) (late : Bool)
      → t.era_initialized ≡ true
      → Processed window t item (
          hand_over
            (record {
              pre_drain_items = t.buf;
              advances = true;
              new_era = in_era item;
              post_drain_items = [];
              quarantine = false;
              after_stragglers = late;
            })
            (record t { buf = [] })
            o
            item
            window)
  unfolding hand_over advance_era taint
  advance-Processed o true init = advanced-Processed _ _ refl refl refl refl init
  advance-Processed o false init = advanced-Processed _ _ refl refl refl refl init

  stays-Processed :
      (o : EraOrder)
      → t.era_initialized ≡ true
      → t.era ≡ in_era item
      → Processed window t item (record {
        old_era = [];
        current = (push_and_pop (record t { stragglers = 0 }) item window).0;
        dropped = false;
        tracker = (push_and_pop (record t { stragglers = 0 }) item window).1;
        order = o;
      })
  unfolding push_and_pop wrap_item
  stays-Processed o init same =
      let c =
        push_and_pop-Pushed window (record t { stragglers = 0 }) item v.sorted v.few
          (subst (λ e. All (OfEra e) t.buf) same v.same_era) in
      record {
        none_lost = λ p. omega (arith, c.none_lost p);
        old_sorted = tt;
        old_era_items = inr tt;
        current_first = c.first;
        current_items = c.popped_era;
        valid = record {
          sorted = c.kept_sorted;
          few = c.kept_few;
          same_era = rw same c.kept_era;
          patient = omega arith;
          unseeded = inl init;
        };
        follows = inr same;
        counted = inl refl;
      }

  late-Processed :
      (o : EraOrder)
      → t.era_initialized ≡ true
      → t.stragglers < max window 1
      → Processed window t item (record {
        old_era = [];
        current = [];
        dropped = true;
        tracker = record t { stragglers = t.stragglers + 1 };
        order = o;
      })
  late-Processed o init short = record {
    none_lost = λ p. omega arith;
    old_sorted = tt;
    old_era_items = inr tt;
    current_first = tt;
    current_items = tt;
    valid = record {
      sorted = v.sorted;
      few = v.few;
      same_era = v.same_era;
      patient = omega arith;
      unseeded = inl init;
    };
    follows = inl refl;
    counted = inr refl;
  }

  seeded-Processed :
      (o : EraOrder) (p : Option ℕ)
      → t.era_initialized ≡ true
      → Processed window t item
          (let (res, t') = enqueue_seeded t item window p in hand_over res t' o item window)
  unfolding enqueue_seeded hand_over drain_all
  seeded-Processed o p init = elim (Bool-cases (changes_era t (in_era item) p)) [
    | inr stays ↦ rw stays (stays-Processed o init (ground arith))
    | inl changes ↦
        elim (Bool-cases (is_late t (in_era item) p && ltb t.stragglers (max window 1))) [
          | inl late ↦ rw (changes, late) (late-Processed o init (ground arith))
          | inr now ↦ rw (changes, now) (advance-Processed o (is_late t (in_era item) p) init)
        ]
  ]

-- The tracker after its first datagram seeded the era.
abbrev seeded : PortTracker → ℕ → ℕ → PortTracker
seeded t era p = record t {
  era = era;
  era_initialized = true;
  era_pos = p;
  floor_pos = (p + (u64_mod - 1)) % u64_mod;
}

seed_era_known :
    (t : PortTracker) (o : EraOrder) (era : ℕ)
    → t.era_initialized ≡ true
    → seed_era t o era ≡ (t, o)
unfolding seed_era
seed_era_known t o era init = if_true _ _ t.era_initialized init

seed_era_first :
    (t : PortTracker) (o : EraOrder) (era : ℕ)
    → t.era_initialized ≡ false
    → seed_era t o era ≡ (seeded t era (enter o era 0).0, (enter o era 0).1)
unfolding seed_era
seed_era_first t o era init = if_false _ _ t.era_initialized init

-- A port that has not seen a datagram has nothing buffered, so what holds of the seeded tracker
-- holds of it.
unseed :
    (window : ℕ) (t : PortTracker) (item : IntakeTuple) (r : Handover) (p : ℕ)
    → t.era_initialized ≡ false
    → Processed window (seeded t (in_era item) p) item r
    → Processed window t item r
unfolding wrap_item
unseed window t item r p new q = record {
  none_lost = q.none_lost;
  old_sorted = q.old_sorted;
  old_era_items = inl new;
  current_first = q.current_first;
  current_items = q.current_items;
  valid = q.valid;
  follows = q.follows;
  counted = q.counted;
}

seeded-IsTracker :
    (window : ℕ) (t : PortTracker) (era p : ℕ)
    → IsTracker window t
    → t.era_initialized ≡ false
    → IsTracker window (seeded t era p)
seeded-IsTracker window t era p v new =
    let empty : t.buf ≡ [] = ground (arith, v.unseeded) in
    record {
      sorted = v.sorted;
      few = v.few;
      same_era = rw empty tt;
      patient = v.patient;
      unseeded = inl refl;
    }

-- From a tracker within its bounds, whatever Reset Count and sequence number a datagram carries and
-- whatever the order of eras: the items handed to the classifier and those kept are the ones
-- buffered before and, unless it is dropped as a straggler, the new one, none lost and none twice.
-- Those of the era that the port leaves come in order, and no item kept goes before one of the
-- current era that is handed over. The port is in the datagram's era unless it drops it, and the
-- tracker is within its bounds again.
pub process-Processed :
    (window : ℕ) (t : PortTracker) (o : EraOrder) (item : IntakeTuple)
    → IsTracker window t
    → Processed window t item (process t o item window)
unfolding process enqueue
process-Processed window t o item v = elim (Bool-cases t.era_initialized) [
  | inl init ↦
      rw (seed_era_known t o (in_era item) init)
        (seeded-Processed window t item v o (lookup (in_era item) o.pos) init)
  | inr new ↦
      let (p, o1) = enter o (in_era item) 0 in
      rw (seed_era_first t o (in_era item) new) (
        unseed window t item _ p new (
          seeded-Processed window (seeded t (in_era item) p) item
            (seeded-IsTracker window t (in_era item) p v new) o1 (lookup (in_era item) o1.pos)
            refl))
]

-- Whether every datagram of a run is dropped as a straggler.
abbrev pub all_dropped : PortTracker → EraOrder → ℕ → List IntakeTuple → Bool
all_dropped t o window [] = true
all_dropped t o window (item ∷ items) =
    let r = process t o item window in r.dropped && all_dropped r.tracker r.order window items

-- From a tracker within its bounds, a run of datagrams that are all dropped as stragglers is, with
-- the ones dropped before, no longer than the reorder window, or than one if the window is zero.
pub all_dropped-bounded :
    (window : ℕ) (t : PortTracker) (o : EraOrder) (items : List IntakeTuple)
    → IsTracker window t
    → all_dropped t o window items ≡ true
    → t.stragglers + length items ≤ max window 1
all_dropped-bounded window t o [] v h = omega (arith, v.patient)
all_dropped-bounded window t o (item ∷ items) v h =
    let r = process t o item window in
    let q = process-Processed window t o item v in
    let rest = all_dropped-bounded window r.tracker r.order items q.valid (ground arith) in
    ground (arith, rest, q.counted)

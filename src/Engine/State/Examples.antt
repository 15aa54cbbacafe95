-- ===== src/Engine/State/Examples.antt =====
-- Runs of the reorder buffer, the era order and the duplicate check.
use edge_feed_spec.Base.{
  ℕ, ◌+◌, ◌≤◌, ◌≡◌, refl, [], ◌∷◌, some, true, false, length, max, arith, inl, inr, replicate,
}
use edge_feed_spec.Base.Exec.{Finishes}
use edge_feed_spec.Base.Maps.{lookup}
use edge_feed_spec.Core.Finding.{mkt_data}
use edge_feed_spec.Wire.Decode.{zero_header}
use edge_feed_spec.Engine.State.{
  EraOrder, IntakeTuple, PortTracker, new_era_order, new_port_tracker, enter, enqueue, seed_era,
  enqueue_seeded,
}
use edge_feed_spec.Engine.State.Eras.{IsOrder, Entered, enter-Entered, enter-enter}
use edge_feed_spec.Engine.State.Process.{process, hand_over}
use edge_feed_spec.Engine.State.Processed.{IsTracker, Processed}
use edge_feed_spec.Engine.State.Intake.{process-Processed, all_dropped, all_dropped-bounded}
use edge_feed_spec.Engine.Dedup.{observe}
use edge_feed_spec.Engine.Dedup.Ring.{IsRing}
use edge_feed_spec.Engine.Dedup.Verdicts.{Observed, observe-Observed}

-- A channel on which the value 3 started the first era.
abbrev one_era : EraOrder
one_era = record { pos = (3, 1) ∷ []; next = 1 }

one_era-IsOrder : IsOrder one_era
unfolding lookup
one_era-IsOrder = record { bounded = λ era p h. ground arith }

enter-Entered_example : Entered one_era 4 1 (enter one_era 4 1)
enter-Entered_example = enter-Entered one_era 4 1 one_era-IsOrder (omega arith) (omega arith)

enter-enter_example : enter (enter one_era 4 1).1 4 1 ≡ enter one_era 4 1
enter-enter_example =
    enter-enter one_era 4 1 1 one_era-IsOrder (omega arith) (omega arith)
      (enter-Entered one_era 4 1 one_era-IsOrder (omega arith) (omega arith)).later

-- A datagram of an era, with a sequence number.
abbrev datagram : ℕ → ℕ → IntakeTuple
datagram era seq = record {
  frame = record {
    header = record zero_header { reset_count = era; sequence = seq };
    messages = [];
    raw = [];
  };
  port = mkt_data;
  struct_findings = [];
  capture_epoch = 0;
}

new_port_tracker-IsTracker : (window : ℕ) → IsTracker window (new_port_tracker window)
unfolding new_port_tracker
new_port_tracker-IsTracker window = record {
  sorted = tt;
  few = omega arith;
  same_era = tt;
  patient = omega arith;
  unseeded = inr refl;
}

process-Processed_example :
    Processed 2
      (new_port_tracker 2)
      (datagram 0 7)
      (process (new_port_tracker 2) new_era_order (datagram 0 7) 2)
process-Processed_example =
    process-Processed 2 (new_port_tracker 2) new_era_order (datagram 0 7)
      (new_port_tracker-IsTracker 2)

-- A port in the channel's second era, which it entered from the first.
abbrev advanced : PortTracker
advanced = record {
  last_seq = some 9;
  last_send_ts = some 9;
  era = 4;
  era_initialized = true;
  era_pos = 2;
  floor_pos = 1;
  stragglers = 0;
  payload_hashes = [];
  hash_ring = replicate 16 (0, 0);
  hash_ring_cap = 16;
  hash_ring_pos = 0;
  hash_ring_size = 0;
  buf = [];
  arrival_counter = 9;
  dirty_window = false;
  taints = 0;
  capture_dirty = false;
}

abbrev two_eras : EraOrder
two_eras = record { pos = (3, 1) ∷ (4, 2) ∷ []; next = 2 }

advanced-IsTracker : IsTracker 2 advanced
advanced-IsTracker = record {
  sorted = tt;
  few = omega arith;
  same_era = tt;
  patient = omega arith;
  unseeded = inl refl;
}

two_late : all_dropped advanced two_eras 2 (datagram 3 5 ∷ datagram 3 6 ∷ []) ≡ true
unfolding process enqueue seed_era enqueue_seeded hand_over lookup
two_late = refl

all_dropped-bounded_example :
    advanced.stragglers + length (datagram 3 5 ∷ datagram 3 6 ∷ []) ≤ max 2 1
all_dropped-bounded_example =
    all_dropped-bounded 2 advanced two_eras (datagram 3 5 ∷ datagram 3 6 ∷ []) advanced-IsTracker
      two_late

advanced-IsRing : IsRing advanced
advanced-IsRing = record {
  some_slot = omega arith;
  allocated = refl;
  size_fits = omega arith;
  pos_fits = omega arith;
  filling = inr refl;
  distinct = tt;
  as_many = refl;
  present = λ i key h e. absurd (omega arith);
  apart = λ i j key h1 h2 e1 e2. absurd (omega arith);
}

-- A hash for the example: the length of the datagram.
observe-Observed_example :
    Finishes (observe length advanced 10 10 (1 ∷ 2 ∷ []) 4) (Observed advanced (4, 10) 2 10)
observe-Observed_example = observe-Observed length advanced 10 10 (1 ∷ 2 ∷ []) 4 advanced-IsRing

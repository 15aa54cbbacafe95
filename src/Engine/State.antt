-- ===== src/Engine/State.antt =====
-- engine/state.go: the sequencing state of one channel instance on one port. The order of eras is shared by the ports of a
-- channel, so each function takes it beside the tracker and returns it. The fields of the tracker and of the order
-- that no function here reads or writes are left out. The reorder window is never negative.
pub mod Eras
pub mod Buffer
pub mod Process
pub mod Processed
pub mod Intake
pub mod Examples
use edge_feed_spec.Base.{
  ℕ, zero, ◌+◌, ◌*◌, ◌-◌, ◌%◌, List, [], ◌∷◌, ◌++◌, Option, none, some, Bool, true, false, not,
  ◌&&◌, ◌||◌, ltb, leb, ◌==◌, if◌then◌else◌, max, length, replicate, nat_eq, pair_eq,
}
use edge_feed_spec.Base.Maps.{lookup, put, delete}
use edge_feed_spec.Core.Finding.{Port}
use edge_feed_spec.Wire.Header.{Frame, StructFinding}
use edge_feed_spec.Engine.IdWindow.{u64_mod}

-- `pos` maps a Reset Count value to the ordinal of the latest era that started with it.
pub record EraOrder : Type 0 where
  pub pos : List (ℕ × ℕ)
  pub next : ℕ

unfoldable pub new_era_order : EraOrder
new_era_order = record { pos = []; next = 0 }

-- A new era: the counter's next ordinal.
unfoldable pub start_era : EraOrder → ℕ → ℕ × EraOrder
start_era o era = let n = (o.next + 1) % u64_mod in (n, record { pos = put era n o.pos; next = n })

unfoldable pub enter : EraOrder → ℕ → ℕ → ℕ × EraOrder
enter o era from =
    let fresh = start_era o era in
    elim (lookup era o.pos) [ none ↦ fresh | some p ↦ if ltb from p then (p, o) else fresh ]

abbrev pub EraSeq : Type 0
EraSeq = ℕ × ℕ

pub record IntakeTuple : Type 0 where
  pub frame : Frame
  pub port : Port
  pub struct_findings : List StructFinding
  pub capture_epoch : ℕ

pub record BufferItem : Type 0 where
  pub era : ℕ
  pub seq : ℕ
  pub arrival : ℕ
  pub tuple : IntakeTuple

-- The reorder heap as the list of its items in the order `less`: `heap.Pop` returns the least item,
-- and no two items have the same arrival number.
abbrev pub PortBuffer : Type 0
PortBuffer = List BufferItem

unfoldable pub less : BufferItem → BufferItem → Bool
less x y = if not (x.seq == y.seq) then ltb x.seq y.seq else ltb x.arrival y.arrival

unfoldable pub heap_push : BufferItem → PortBuffer → PortBuffer
heap_push b [] = b ∷ []
heap_push b (x ∷ xs) = let rest = heap_push b xs in if less b x then b ∷ x ∷ xs else x ∷ rest

pub record PortTracker : Type 0 where
  pub last_seq : Option ℕ
  pub last_send_ts : Option ℕ
  pub era : ℕ
  pub era_initialized : Bool
  pub era_pos : ℕ
  pub floor_pos : ℕ
  pub stragglers : ℕ
  pub payload_hashes : List (EraSeq × ℕ)
  pub hash_ring : List EraSeq
  pub hash_ring_cap : ℕ
  pub hash_ring_pos : ℕ
  pub hash_ring_size : ℕ
  pub buf : PortBuffer
  pub arrival_counter : ℕ
  pub dirty_window : Bool
  pub taints : ℕ
  pub capture_dirty : Bool

unfoldable pub new_port_tracker : ℕ → PortTracker
new_port_tracker window =
    let cap = if ltb (window * 2) 16 then 16 else window * 2 in
    record {
      last_seq = none;
      last_send_ts = none;
      era = 0;
      era_initialized = false;
      era_pos = 0;
      floor_pos = 0;
      stragglers = 0;
      payload_hashes = [];
      hash_ring = replicate cap (0, 0);
      hash_ring_cap = cap;
      hash_ring_pos = 0;
      hash_ring_size = 0;
      buf = [];
      arrival_counter = 0;
      dirty_window = false;
      taints = 0;
      capture_dirty = false;
    }

unfoldable pub advance_era : PortTracker → EraOrder → ℕ → PortTracker × EraOrder
advance_era t o new_era =
    let (p, o') = enter o new_era t.era_pos in
    (
      record t {
        floor_pos = t.era_pos;
        era_pos = p;
        stragglers = 0;
        era = new_era;
        last_seq = none;
        last_send_ts = none;
        payload_hashes = [];
        hash_ring = replicate (length t.hash_ring) (0, 0);
        hash_ring_pos = 0;
        hash_ring_size = 0;
        dirty_window = false;
        capture_dirty = false;
      },
      o',
    )

unfoldable pub taint : PortTracker → PortTracker
taint t = record t { dirty_window = true; taints = (t.taints + 1) % u64_mod }

pub record EnqueueResult : Type 0 where
  pub pre_drain_items : List BufferItem
  pub advances : Bool
  pub new_era : ℕ
  pub post_drain_items : List BufferItem
  pub quarantine : Bool
  pub after_stragglers : Bool

-- The item that a push at the tracker's next arrival number wraps the tuple in.
unfoldable pub wrap_item : PortTracker → IntakeTuple → BufferItem
wrap_item t item = record {
  era = item.frame.header.reset_count;
  seq = item.frame.header.sequence;
  arrival = (t.arrival_counter + 1) % u64_mod;
  tuple = item;
}

-- What a push leaves in the heap, and the items popped when it passes the window.
unfoldable pub pop_over : PortBuffer → ℕ → List BufferItem × PortBuffer
pop_over [] window = ([], [])
pop_over (x ∷ xs) window = if ltb window (length (x ∷ xs)) then (x ∷ [], xs) else ([], x ∷ xs)

unfoldable pub push_and_pop : PortTracker → IntakeTuple → ℕ → List BufferItem × PortTracker
push_and_pop t item window =
    let b = wrap_item t item in
    let (popped, kept) = pop_over (heap_push b t.buf) window in
    (popped, record t { arrival_counter = b.arrival; buf = kept })

-- `drainAll` pops until the heap is empty.
unfoldable pub drain_all : PortTracker → List BufferItem × PortTracker
drain_all t = (t.buf, record t { buf = [] })

-- The first datagram of a port seeds its era.
unfoldable pub seed_era : PortTracker → EraOrder → ℕ → PortTracker × EraOrder
seed_era t o in_era =
    let (p, o') = enter o in_era 0 in
    if t.era_initialized then (t, o) else (
      record t {
        era = in_era;
        era_initialized = true;
        era_pos = p;
        floor_pos = (p + (u64_mod - 1)) % u64_mod;
      },
      o',
    )

-- `p, known := pt.order.pos[inEra]`: a missing key reads 0.
abbrev pub ordinal : Option ℕ → ℕ
ordinal none = 0
ordinal (some p) = p

abbrev pub known : Option ℕ → Bool
known none = false
known (some p) = true

abbrev pub changes_era : PortTracker → ℕ → Option ℕ → Bool
changes_era t in_era p = not (in_era == t.era) || ltb t.era_pos (ordinal p)

abbrev pub is_late : PortTracker → ℕ → Option ℕ → Bool
is_late t in_era p =
    not (in_era == t.era) && known p && leb t.floor_pos (ordinal p) && ltb (ordinal p) t.era_pos

-- `enqueue`, once the era is seeded and the order looked up.
unfoldable pub enqueue_seeded :
    PortTracker → IntakeTuple → ℕ → Option ℕ → EnqueueResult × PortTracker
enqueue_seeded t item window p =
    let in_era = item.frame.header.reset_count in
    let late = is_late t in_era p in
    let (drained, emptied) = drain_all t in
    let (popped, pushed) = push_and_pop (record t { stragglers = 0 }) item window in
    if changes_era t in_era p
    then (if late && ltb t.stragglers (max window 1)
        then (
          record {
            pre_drain_items = [];
            advances = false;
            new_era = 0;
            post_drain_items = [];
            quarantine = true;
            after_stragglers = false;
          },
          record t { stragglers = t.stragglers + 1 },
        )
        else (
          record {
            pre_drain_items = drained;
            advances = true;
            new_era = in_era;
            post_drain_items = [];
            quarantine = false;
            after_stragglers = late;
          },
          emptied,
        ))
    else (
      record {
        pre_drain_items = [];
        advances = false;
        new_era = 0;
        post_drain_items = popped;
        quarantine = false;
        after_stragglers = false;
      },
      pushed,
    )

unfoldable pub enqueue :
    PortTracker → EraOrder → IntakeTuple → ℕ → EnqueueResult × (PortTracker × EraOrder)
enqueue t o item window =
    let in_era = item.frame.header.reset_count in
    let (seeded, o') = seed_era t o in_era in
    let (res, t') = enqueue_seeded seeded item window (lookup in_era o'.pos) in (res, (t', o'))

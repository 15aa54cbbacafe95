-- ===== src/Engine/Mbo.antt =====
-- engine/gate.go: the per-instrument state of the market-by-order detector.
pub mod Deltas
pub mod Dense
pub mod Events
pub mod Examples
pub mod Lossy
pub mod Recovery
pub mod Trust
use edge_feed_spec.Base.{
  ℕ, zero, suc, ◌+◌, ◌-◌, ◌%◌, List, [], Option, none, some, Bool, true, false, if◌then◌else◌, ltb,
  ◌==◌, length, replicate, set, get_elem?, nat_eq, pair_eq,
}
use edge_feed_spec.Base.Maps.{lookup, put}
use edge_feed_spec.Engine.Book.Books.{Key}

abbrev pub instr_payload_ring_cap : ℕ
instr_payload_ring_cap = 16

-- The arrays have `instr_payload_ring_cap` elements each.
pub record InstrPayloadRing : Type 0 where
  pub keys : List ℕ
  pub vals : List ℕ
  pub pos : ℕ
  pub size : ℕ

unfoldable pub new_ring : InstrPayloadRing
new_ring = record {
  keys = replicate instr_payload_ring_cap 0;
  vals = replicate instr_payload_ring_cap 0;
  pos = 0;
  size = 0;
}

unfoldable pub ring_record : InstrPayloadRing → ℕ → ℕ → InstrPayloadRing
ring_record r seq h = record {
  keys = set r.keys r.pos seq;
  vals = set r.vals r.pos h;
  pos = (r.pos + 1) % instr_payload_ring_cap;
  size = if ltb r.size instr_payload_ring_cap then r.size + 1 else r.size;
}

abbrev or_zero : Option ℕ → ℕ
or_zero none = 0
or_zero (some v) = v

-- The entry that was written `i` writes before the last.
abbrev ring_index : InstrPayloadRing → ℕ → ℕ
ring_index r i = (r.pos + instr_payload_ring_cap - 1 - i) % instr_payload_ring_cap

-- The rounds of `lookup`, from the `i`th on, `left` of them.
unfoldable pub ring_search : InstrPayloadRing → ℕ → ℕ → ℕ → Option ℕ
ring_search r seq i zero = none
ring_search r seq i (suc left) =
    let rest = ring_search r seq (i + 1) left in
    if or_zero (get_elem? r.keys (ring_index r i)) == seq
    then some (or_zero (get_elem? r.vals (ring_index r i)))
    else rest

unfoldable pub ring_lookup : InstrPayloadRing → ℕ → Option ℕ
ring_lookup r seq = ring_search r seq 0 r.size

pub record InstrTracker : Type 0 where
  pub last_instr_seq : Option ℕ
  pub seen_reset : Bool
  pub payloads : InstrPayloadRing
  pub pending_reset_anchor : Option ℕ
  pub recovery_k : Option ℕ
  pub book_trusted : Bool
  pub book_corrupted_by_dup : Bool
  pub awaiting_recovery : Bool
  pub awaiting_recovery_anchor : ℕ

unfoldable pub new_tracker : InstrTracker
new_tracker = record {
  last_instr_seq = none;
  seen_reset = false;
  payloads = new_ring;
  pending_reset_anchor = none;
  recovery_k = none;
  book_trusted = false;
  book_corrupted_by_dup = false;
  awaiting_recovery = false;
  awaiting_recovery_anchor = 0;
}

-- ===== src/Engine/Dedup.antt =====
-- engine/state.go, `recordHash` and `observe`: the hashes of the datagrams that a port classified, in
-- a ring that holds a fixed number of them. `hash_raw` is the hash function, `hash/maphash` in the
-- source; nothing is assumed of it.
pub mod Ring
pub mod Verdicts
use edge_feed_spec.Base.{
  ℕ, ◌+◌, ◌-◌, ◌%◌, List, Option, none, some, Bool, true, false, ◌&&◌, ltb, ◌==◌, if◌then◌else◌,
  length, set, get_elem?, nat_eq, pair_eq,
}
use edge_feed_spec.Base.Maps.{lookup, put, delete}
use edge_feed_spec.Base.Exec.{Exec, done, ◌>>=◌, index}
use edge_feed_spec.Engine.State.{PortTracker, EraSeq}

-- The oldest key of a full ring is evicted before its slot is overwritten.
unfoldable pub evict_slot : PortTracker → Exec PortTracker
evict_slot t =
    if ltb t.hash_ring_size t.hash_ring_cap
    then done (record t { hash_ring_size = t.hash_ring_size + 1 })
    else (do
      old ← index t.hash_ring t.hash_ring_pos
      done (record t { payload_hashes = delete old t.payload_hashes }))

unfoldable pub record_hash : PortTracker → EraSeq → ℕ → Exec PortTracker
record_hash t key h = do
  t' ← evict_slot t
  done (record t' {
    hash_ring = set t'.hash_ring t'.hash_ring_pos key;
    hash_ring_pos = (t'.hash_ring_pos + 1) % t'.hash_ring_cap;
    payload_hashes = put key h t'.payload_hashes;
  })

pub record ObserveResult : Type 0 where
  pub is_dup : Bool
  pub is_divergent_dup : Bool
  pub gap_before : Bool

abbrev jumps : Option ℕ → ℕ → Bool
jumps none seq = false
jumps (some last) seq = ltb last seq && ltb 1 (seq - last)

abbrev advances : Option ℕ → ℕ → Bool
advances none seq = true
advances (some last) seq = ltb last seq

-- The rest of `observe`, for a datagram not seen before.
unfoldable pub observe_new : PortTracker → EraSeq → ℕ → ℕ → ℕ → Exec (ObserveResult × PortTracker)
observe_new t key h seq send_ts = do
  t' ← record_hash t key h
  let gap = jumps t'.last_seq seq
  let moved = record t' { last_seq = some seq; last_send_ts = some send_ts }
  done (
    record { is_dup = false; is_divergent_dup = false; gap_before = gap },
    if advances t'.last_seq seq then moved else t',
  )

unfoldable pub observe :
    (List ℕ → ℕ) → PortTracker → ℕ → ℕ → List ℕ → ℕ → Exec (ObserveResult × PortTracker)
observe hash_raw t seq send_ts raw era = elim (lookup (era, seq) t.payload_hashes) [
  | none ↦ observe_new t (era, seq) (hash_raw raw) seq send_ts
  | some prev ↦
      if prev == hash_raw raw
      then done (record { is_dup = true; is_divergent_dup = false; gap_before = false }, t)
      else done (record { is_dup = false; is_divergent_dup = true; gap_before = false }, t)
]

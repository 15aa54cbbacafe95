-- ===== src/Engine/Mbp.antt =====
-- engine/mbp.go: the market-by-price consumer. Its state for each channel and instrument, and the
-- findings it emits as values.
pub mod Sequence
pub mod Deltas
pub mod Groups
pub mod Finish
pub mod Era
pub mod Publisher
pub mod Arrivals
pub mod Follow
pub mod Journal
pub mod Following
pub mod Runs
pub mod Adoption
pub mod Verdicts
pub mod Merges
pub mod Structure
pub mod Channels
pub mod Bounds
pub mod Frames
pub mod Numbers
pub mod Examples
use edge_feed_spec.Base.{
  ℕ, suc, ◌+◌, List, [], ◌∷◌, ◌++◌, Option, none, some, Bool, true, false, String, if◌then◌else◌,
  ltb, leb, length, filter_by, not, ◌==◌, nat_eq, pair_eq,
}
use edge_feed_spec.Base.Int.{ℤ}
use edge_feed_spec.Base.Maps.{lookup, put, delete}
use edge_feed_spec.Core.Finding.{Port, Status}
use edge_feed_spec.Engine.MbpBook.{
  MbpBook, Levels, new_mbp_book, apply_level_update, apply_book_clear,
}

-- The channel and the instrument.
abbrev pub InstrKey : Type 0
InstrKey = ℕ × ℕ

pub record JournalEntry : Type 0 where
  pub per_seq : ℕ
  pub clear : Bool
  pub side : ℕ
  pub scope : ℕ
  pub price : ℤ
  pub qty : ℕ
  pub from_price : ℤ

unfoldable pub max_mbp_journal : ℕ
max_mbp_journal = 16384

pub record Instr : Type 0 where
  pub book : MbpBook
  pub last_seq : ℕ
  pub last_seq_set : Bool
  pub ready : Bool
  pub gapped : Bool
  pub saw_snapshot_since_delta : Bool
  pub capture_epoch : ℕ
  pub base : Levels
  pub base_k : ℕ
  pub base_set : Bool
  pub journal : List JournalEntry
  pub overflow : Bool
  pub dropped_max : ℕ

-- The literal of `get`: every other field is zero.
unfoldable pub new_instr : ℕ → Instr
new_instr capture_epoch = record {
  book = new_mbp_book;
  last_seq = 0;
  last_seq_set = false;
  ready = false;
  gapped = false;
  saw_snapshot_since_delta = false;
  capture_epoch = capture_epoch;
  base = [];
  base_k = 0;
  base_set = false;
  journal = [];
  overflow = false;
  dropped_max = 0;
}

-- What a journalled delta does to a ladder.
unfoldable pub apply_entry : MbpBook → JournalEntry → MbpBook
apply_entry b e =
    if e.clear
    then apply_book_clear b e.side e.scope e.from_price
    else apply_level_update b e.side e.price e.qty

-- The loop of `stateAsOf`, which breaks at the first entry past `k`.
unfoldable pub replay : ℕ → List JournalEntry → MbpBook → MbpBook
replay k [] b = b
replay k (e ∷ es) b =
    let rest = replay k es (apply_entry b e) in if ltb k e.per_seq then b else rest

unfoldable pub state_as_of : Instr → ℕ → Levels
state_as_of t k = (replay k t.journal (record { levels = t.base; depth_bound = none })).levels

-- `record` of the source.
unfoldable pub record_entry : Instr → JournalEntry → Instr
record_entry t e =
    if leb max_mbp_journal (length t.journal)
    then record t {
      overflow = true;
      dropped_max = if ltb t.dropped_max e.per_seq then e.per_seq else t.dropped_max;
    }
    else record t { journal = t.journal ++ (e ∷ []) }

pub record OpenSnap : Type 0 where
  pub key : InstrKey
  pub snap_id : ℕ
  pub anchor : ℕ
  pub total : ℕ
  pub last_k : ℕ
  pub depth : ℕ
  pub levels : Levels
  pub count : ℕ
  pub dup_keys : ℕ
  pub dirty : Bool
  pub clean_count : ℕ
  pub clean_dup_keys : ℕ
  pub last_snap_port_seq : Option ℕ

pub record MbpState : Type 0 where
  pub instr : List (InstrKey × Instr)
  pub open_snap : List (ℕ × OpenSnap)
  pub saw_begin : List (ℕ × Bool)
  pub reset_count : List (ℕ × ℕ)
  pub left_count : List (ℕ × ℕ)

unfoldable pub new_mbp_state : MbpState
new_mbp_state = record {
  instr = [];
  open_snap = [];
  saw_begin = [];
  reset_count = [];
  left_count = [];
}

abbrev or_new : ℕ → Option Instr → Instr
or_new epoch none = new_instr epoch
or_new epoch (some t) = t

-- The tracker that `get` returns. The callers store it, changed or not: see `put_instr`.
unfoldable pub get : MbpState → InstrKey → ℕ → Instr
get s k epoch = or_new epoch (lookup k s.instr)

-- A tracker written through its pointer.
unfoldable pub put_instr : MbpState → InstrKey → Instr → MbpState
put_instr s k t = record s { instr = put k t s.instr }

unfoldable pub wipe_channel : MbpState → ℕ → MbpState
wipe_channel s ch = record s {
  instr = filter_by (λ e. not (e.0.0 == ch)) s.instr;
  open_snap = delete ch s.open_snap;
}

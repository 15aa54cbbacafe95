-- ===== src/Engine/Mbp/Era.antt =====
-- engine/mbp.go: `mbpObserveEra`, the first frame of a new era of a source address and channel.
use edge_feed_spec.Base.{
  ℕ, Option, none, some, Bool, true, false, not, ◌&&◌, ◌||◌, if◌then◌else◌, leb, ◌==◌, nat_eq,
}
use edge_feed_spec.Base.Maps.{lookup, put}
use edge_feed_spec.Core.Finding.{Feed, Port, mbp, snapshot, mkt_data, ref_data}
use edge_feed_spec.Core.Registry.{same_feed}
use edge_feed_spec.Engine.Mbp.{MbpState, wipe_channel}

-- What the call changes: the state, `mbpSeen` of the era order of the channel instance, absent
-- until it is set, and whether it taints the channel's snapshot series.
pub record Observed : Type 0 where
  pub state : MbpState
  pub mbp_seen : Option ℕ
  pub taints_snapshot : Bool

abbrev pub is_some_of : Option ℕ → ℕ → Bool
is_some_of none n = false
is_some_of (some m) n = m == n

abbrev pub up_to : ℕ → Option ℕ → Bool
up_to n none = false
up_to n (some m) = leb n m

abbrev pub is_absent : Option ℕ → Bool
is_absent none = true
is_absent (some n) = false

abbrev pub is_snapshot : Port → Bool
is_snapshot snapshot = true
is_snapshot mkt_data = false
is_snapshot ref_data = false

-- The Reset Count of the era that the channel's state is built for is known and another.
unfoldable pub enters_new_era : Option ℕ → ℕ → Bool
enters_new_era none era = false
enters_new_era (some last) era = not (last == era)

abbrev pub value_of : Option ℕ → ℕ
value_of none = 0
value_of (some n) = n

-- The rest of the call, for an era of the instance that it has not seen.
unfoldable pub observe_unseen : MbpState → Option ℕ → ℕ → ℕ → Port → ℕ → Observed
observe_unseen s seen pos era port ch =
    let last = lookup ch s.reset_count in
    let counted : MbpState = record s { reset_count = put ch era s.reset_count } in
    let left : MbpState = record counted { left_count = put ch (value_of last) s.left_count } in
    if is_absent seen && is_some_of (lookup ch s.left_count) era
    then record { state = s; mbp_seen = some pos; taints_snapshot = false }
    else if not (enters_new_era last era)
    then record { state = counted; mbp_seen = some pos; taints_snapshot = false }
    else record {
      state = wipe_channel left ch;
      mbp_seen = some pos;
      taints_snapshot = not (is_snapshot port);
    }

unfoldable pub mbp_observe_era : Feed → MbpState → Option ℕ → ℕ → ℕ → Port → ℕ → Observed
mbp_observe_era feed s seen pos era port ch =
    if not (same_feed feed mbp) || up_to pos seen
    then record { state = s; mbp_seen = seen; taints_snapshot = false }
    else observe_unseen s seen pos era port ch

-- ===== src/Engine/Mbp/Channels.antt =====
-- engine/mbp.go: what a new era does to the state of each channel.
use edge_feed_spec.Base.{ℕ, ◌≡◌, ◌≢◌, ◌≤◌, Option, none, some, false, not, nat_eq, pair_eq}
use edge_feed_spec.Base.Maps.{lookup}
use edge_feed_spec.Core.Finding.{Feed, Port, mbp}
use edge_feed_spec.Engine.Mbp.{MbpState}
use edge_feed_spec.Engine.Mbp.Era.{Observed, is_snapshot}

-- The trackers and the group in flight of a channel, in two states.
pub record SameChannel (ch : ℕ) (s s2 : MbpState) : Type 0 where
  pub trackers : (i : ℕ) → lookup (ch, i) s2.instr ≡ lookup (ch, i) s.instr
  pub group : lookup ch s2.open_snap ≡ lookup ch s.open_snap

pub record IsWiped (ch : ℕ) (s : MbpState) : Type 0 where
  pub no_tracker : (i : ℕ) → lookup (ch, i) s.instr ≡ none
  pub no_group : lookup ch s.open_snap ≡ none

-- Why a call leaves the channel alone: another feed, or an era of the instance that it has acted on
-- already; a first era of the instance under the count that the channel left, a straggler's; a
-- channel with no count yet, or with this one.
pub data Skipped (feed : Feed) (s : MbpState) (seen : Option ℕ) (pos era ch : ℕ) : Type 0 where
  other_feed : feed ≢ mbp → Skipped feed s seen pos era ch
  seen_before : (last : ℕ) → seen ≡ some last → pos ≤ last → Skipped feed s seen pos era ch
  straggler : seen ≡ none → lookup ch s.left_count ≡ some era → Skipped feed s seen pos era ch
  first_count : lookup ch s.reset_count ≡ none → Skipped feed s seen pos era ch
  same_count : lookup ch s.reset_count ≡ some era → Skipped feed s seen pos era ch

-- What such a call notes: nothing; the era of the instance; that and the channel's count.
pub Noted :
    {feed : Feed} {s : MbpState} {seen : Option ℕ} {pos era ch : ℕ}
    → Skipped feed s seen pos era ch
    → Observed
    → Type 0
Noted {s = s} {seen = seen} (other_feed other) r = (r.state ≡ s) × (r.mbp_seen ≡ seen)
Noted {s = s} {seen = seen} (seen_before last known le) r = (r.state ≡ s) × (r.mbp_seen ≡ seen)
Noted {s = s} {pos = pos} (straggler unseen left) r = (r.state ≡ s) × (r.mbp_seen ≡ some pos)
Noted {pos = pos} {era = era} {ch = ch} (first_count unknown) r =
    (lookup ch r.state.reset_count ≡ some era) × (r.mbp_seen ≡ some pos)
Noted {pos = pos} {era = era} {ch = ch} (same_count known) r =
    (lookup ch r.state.reset_count ≡ some era) × (r.mbp_seen ≡ some pos)

-- A call wiped the channel: its Reset Count was known and another, and the new one and the one left
-- are noted; the snapshot series is tainted unless its own port led.
pub record Wiped (feed : Feed) (s : MbpState) (seen : Option ℕ) (pos era : ℕ) (port : Port) (ch : ℕ)
    (r : Observed) : Type 0 where
  pub no_reason : ¬ Skipped feed s seen pos era ch
  pub wiped : IsWiped ch r.state
  pub last : ℕ
  pub known : lookup ch s.reset_count ≡ some last
  pub changed : last ≢ era
  pub noted : lookup ch r.state.reset_count ≡ some era
  pub left : lookup ch r.state.left_count ≡ some last
  pub acted_on : r.mbp_seen ≡ some pos
  pub tainted : r.taints_snapshot ≡ not (is_snapshot port)

-- A call left the channel alone, and why.
pub record Kept (feed : Feed) (s : MbpState) (seen : Option ℕ) (pos era ch : ℕ) (r : Observed)
    : Type 0 where
  pub kept : SameChannel ch s r.state
  pub untainted : r.taints_snapshot ≡ false
  pub reason : Skipped feed s seen pos era ch
  pub noted : Noted reason r

-- ===== src/Engine/State/Process.antt =====
-- engine/engine.go, `Process` from its call of `enqueue` on, for the tracker of the datagram's channel
-- instance: what it hands to the classifier, and the sequencing state it leaves.
use edge_feed_spec.Base.{ℕ, List, [], Bool, true, false, if◌then◌else◌}
use edge_feed_spec.Engine.State.{
  BufferItem, IntakeTuple, PortTracker, EraOrder, EnqueueResult, advance_era, taint, push_and_pop,
  enqueue,
}

-- What `Process` hands to the classifier, in order, and the sequencing state it leaves.
pub record Handover : Type 0 where
  pub old_era : List BufferItem
  pub current : List BufferItem
  pub dropped : Bool
  pub tracker : PortTracker
  pub order : EraOrder

-- The rest of `Process` after its call of `enqueue`.
unfoldable pub hand_over : EnqueueResult → PortTracker → EraOrder → IntakeTuple → ℕ → Handover
hand_over res t1 o1 item window =
    let (t2, o2) = advance_era t1 o1 res.new_era in
    let t3 = if res.after_stragglers then taint t2 else t2 in
    let (items, t4) = push_and_pop t3 item window in
    if res.quarantine
    then record { old_era = []; current = []; dropped = true; tracker = t1; order = o1 }
    else if res.advances
    then record {
      old_era = res.pre_drain_items;
      current = items;
      dropped = false;
      tracker = t4;
      order = o2;
    }
    else record {
      old_era = res.pre_drain_items;
      current = res.post_drain_items;
      dropped = false;
      tracker = t1;
      order = o1;
    }

-- `Process` from its call of `enqueue` on, for the tracker of the datagram's channel instance.
unfoldable pub process : PortTracker → EraOrder → IntakeTuple → ℕ → Handover
process t o item window =
    let (res, (t1, o1)) = enqueue t o item window in hand_over res t1 o1 item window

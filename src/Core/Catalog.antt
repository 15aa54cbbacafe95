-- ===== src/Core/Catalog.antt =====
-- core/registry.go: the rules, in the catalog's order.
use edge_feed_spec.Base.{ℕ, List, [], ◌∷◌, Bool, true, false, String}
use edge_feed_spec.Core.Finding.{
  Severity, info, should, must, StateKind, state_none, state_counters, state_order_id_set,
  state_full_book, state_refdata, state_snapshot_group, state_instance_counters, Feed, tob, mid,
  mbo, mbp,
}

pub record RuleMeta : Type 0 where
  pub id : String
  pub severity : Severity
  pub tier : ℕ
  pub state : StateKind
  pub feeds : List Feed
  pub conditional : Bool

abbrev all_feeds : List Feed
all_feeds = tob ∷ mid ∷ mbo ∷ mbp ∷ []

abbrev mbo_only : List Feed
mbo_only = mbo ∷ []

abbrev tob_only : List Feed
tob_only = tob ∷ []

abbrev mid_only : List Feed
mid_only = mid ∷ []

abbrev mbp_only : List Feed
mbp_only = mbp ∷ []

abbrev mbo_mbp : List Feed
mbo_mbp = mbo ∷ mbp ∷ []

abbrev strike_feeds : List Feed
strike_feeds = tob ∷ mbp ∷ []

abbrev rule : String → Severity → ℕ → StateKind → List Feed → Bool → RuleMeta
rule id severity tier state feeds conditional = record {
  id = id;
  severity = severity;
  tier = tier;
  state = state;
  feeds = feeds;
  conditional = conditional;
}

abbrev pub rules : List RuleMeta
rules =
    rule "FRAME.MAGIC_MISMATCH" must 1 state_none all_feeds false
    ∷ rule "FRAME.SCHEMA_VERSION" info 1 state_none all_feeds false
    ∷ rule "FRAME.SCHEMA_VERSION_SUPERSEDED" info 1 state_none all_feeds false
    ∷ rule "FRAME.MSG_COUNT_RANGE" must 1 state_none all_feeds false
    ∷ rule "FRAME.LENGTH_CONSISTENCY" must 1 state_none all_feeds false
    ∷ rule "MSG.LENGTH_PER_TYPE" must 1 state_none all_feeds false
    ∷ rule "MSG.WRONG_PORT_PLACEMENT" must 1 state_none all_feeds false
    ∷ rule "MSG.UNKNOWN_TYPE_SKIPPED" info 1 state_none all_feeds false
    ∷ rule "MSG.SNAPSHOT_FLAG_MATCHES_PORT" must 1 state_none mbp_only false
    ∷ rule "MSG.RESERVED_TYPE_0X03_0X05" should 1 state_none mbo_only false
    ∷ rule "RESERVED.FIELD_BITS_ZERO" should 1 state_none mbo_only false
    ∷ rule "HEARTBEAT.CHANNEL_ID_MATCH" should 1 state_none all_feeds false
    ∷ rule "FIELD.SIDE_ENUM" should 1 state_none mbo_only false
    ∷ rule "FIELD.AGGRESSOR_SIDE_ENUM" info 1 state_none mbo_only false
    ∷ rule "RESET.ANCHOR_SEQ_IS_CURRENT_FRAME" must 1 state_none mbo_mbp false
    ∷ rule "FIELD.QTY_POSITIVE" should 1 state_none mbo_only false
    ∷ rule "SNAP.ORDER_STRUCT_VALID" should 1 state_none mbo_only false
    ∷ rule "FRAME.SEQ_DUP_DIVERGENT" must 2 state_instance_counters all_feeds false
    ∷ rule "DELTA.PERINSTR_DENSITY" must 2 state_counters mbo_only false
    ∷ rule "DELTA.PERINSTR_FIRST_VALUE" should 2 state_counters mbo_only false
    ∷ rule "DELTA.PERINSTR_NO_SNAPSHOT_RESET" must 2 state_counters mbo_only false
    ∷ rule "DELTA.PERINSTR_DUP_DIVERGENT" must 2 state_counters mbo_only false
    ∷ rule "DELTA.PERINSTR_WRAP_BEFORE_RESET" info 2 state_counters mbo_only false
    ∷ rule "FRAME.MKTDATA_SEQ_START" should 2 state_instance_counters mbo_only false
    ∷ rule "FRAME.SEND_TS_MONOTONIC" info 2 state_instance_counters all_feeds false
    ∷ rule "HEARTBEAT.CADENCE" info 2 state_instance_counters all_feeds true
    ∷ rule "BATCH.ID_MONOTONIC" should 2 state_counters mbo_only false
    ∷ rule "FRAME.SEQ_RESET_GAP" must 2 state_instance_counters all_feeds false
    ∷ rule "MBP.DELTA.PERINSTR_DENSITY" must 2 state_counters mbp_only false
    ∷ rule "MBP.DELTA.PERINSTR_NO_SNAPSHOT_RESET" must 2 state_counters mbp_only false
    ∷ rule "MBP.DELTA.ABSOLUTE_APPLY" must 2 state_instance_counters mbp_only false
    ∷ rule "MBP.SNAP.GROUP_STRUCTURE" must 2 state_snapshot_group mbp_only false
    ∷ rule "MBP.SNAP.RECONSTRUCTED_BOOK_MATCHES_SNAPSHOT" must 2 state_full_book mbp_only false
    ∷ rule "REF.EXEC_DANGLING_ORDER" must 2 state_order_id_set mbo_only false
    ∷ rule "REF.CANCEL_DANGLING_ORDER" must 2 state_order_id_set mbo_only false
    ∷ rule "REF.DUPLICATE_LIVE_ORDERADD" must 2 state_order_id_set mbo_only false
    ∷ rule "REF.OPERATION_AFTER_REMOVAL" must 2 state_order_id_set mbo_only false
    ∷ rule "REF.SIDE_PRICE_CONSISTENCY" should 2 state_order_id_set mbo_only false
    ∷ rule "FIELD.SOURCE_ID_CONSISTENCY" info 2 state_order_id_set mbo_only false
    ∷ rule "TRADE.EXEC_GROUPING" info 2 state_order_id_set mbo_only false
    ∷ rule "REF.EXEC_OVERFILL" must 2 state_full_book mbo_only false
    ∷ rule "REF.FULLFILL_FLAG_DISAGREEMENT" must 2 state_full_book mbo_only false
    ∷ rule "BATCH.ATOMICITY_CONSISTENCY" should 2 state_full_book mbo_only false
    ∷ rule "FIELD.ORDERADD_PRICE_BOUND" should 2 state_refdata mbo_only false
    ∷ rule "REF.EXEC_PRICE_BOUND" should 2 state_refdata mbo_only false
    ∷ rule "SNAP.ORDER_PRICE_BOUND" should 2 state_refdata mbo_only false
    ∷ rule "SNAP.BEGIN_ORDER_END_GROUPING" must 2 state_snapshot_group mbo_only false
    ∷ rule "SNAP.TOTAL_ORDERS_COUNT_MATCH" must 2 state_snapshot_group mbo_only false
    ∷ rule "SNAP.END_FIELDS_MATCH_BEGIN" must 2 state_snapshot_group mbo_only false
    ∷ rule "SNAP.ORDER_SNAPSHOT_ID_MATCH" must 2 state_snapshot_group mbo_only false
    ∷ rule "SNAP.SNAPSHOT_ORDER_NO_DUP_ORDER_ID" must 2 state_snapshot_group mbo_only false
    ∷ rule "SNAP.EMPTY_BOOK_WELL_FORMED" info 2 state_snapshot_group mbo_only false
    ∷ rule "SNAP.ANCHOR_IS_MKTDATA_SEQ" must 2 state_counters mbo_only false
    ∷ rule "SNAP.ANCHOR_MONOTONIC_PER_INSTRUMENT" should 2 state_counters mbo_only false
    ∷ rule "SNAP.SNAPSHOT_ID_MONOTONIC" should 2 state_counters mbo_only false
    ∷ rule "SNAP.LAST_INSTRUMENT_SEQ_CONSISTENT_WITH_DELTAS" must 2 state_counters mbo_only false
    ∷ rule "SNAP.ANCHOR_LE_OR_GT_LAST_APPLIED_HANDLING" info 2 state_counters mbo_only false
    ∷ rule "SNAP.ROUND_ROBIN_COVERS_MANIFEST" should 2 state_refdata mbo_only false
    ∷ rule "SNAP.RECONSTRUCTED_BOOK_MATCHES_SNAPSHOT" must 2 state_full_book mbo_only false
    ∷ rule "RESET.SNAPSHOT_FOLLOWS" must 2 state_snapshot_group mbo_only false
    ∷ rule "RESET.RECOVERY_SNAPSHOT_ANCHOR_MATCHES_RESET" must 2 state_snapshot_group mbo_only false
    ∷ rule "RESET.NO_DANGLING_DELTAS_AT_OR_BELOW_ANCHOR" must 2 state_counters mbo_only false
    ∷ rule "REFDATA.MANIFEST_CADENCE" must 2 state_counters all_feeds true
    ∷ rule "REFDATA.DEFINITION_CYCLE_COVERAGE" must 2 state_refdata all_feeds true
    ∷ rule "REFDATA.COUNT_VS_DISTINCT_DEFS" must 2 state_refdata all_feeds false
    ∷ rule "REFDATA.SET_CHANGE_NO_SEQ_BUMP" must 2 state_refdata all_feeds false
    ∷ rule "REFDATA.COUNT_CHANGE_NO_SEQ_BUMP" must 2 state_counters all_feeds false
    ∷ rule "REFDATA.STALE_SEQ_TAG_AFTER_BUMP" must 2 state_refdata all_feeds false
    ∷ rule "REFDATA.VALID_FLAG_WHILE_SERVING" must 2 state_refdata all_feeds false
    ∷ rule "REFDATA.NEVER_REACHES_READY" must 2 state_refdata all_feeds true
    ∷ rule "REFDATA.NO_BURST_DEFINITIONS" should 2 state_refdata all_feeds true
    ∷ rule "REFDATA.SEQ_MONOTONIC_NO_REGRESS" should 2 state_counters all_feeds false
    ∷ rule "REFDATA.SEQ_BUMP_NOT_BY_ONE" should 2 state_counters all_feeds false
    ∷ rule "REFDATA.MANIFEST_SEQ_NONZERO_WHEN_VALID" should 2 state_refdata all_feeds false
    ∷ rule "MANIFEST.STATE_MACHINE" should 2 state_refdata all_feeds false
    ∷ rule "STRIKE.FOLLOWS_DEFINITION" must 1 state_none strike_feeds false
    ∷ rule "STRIKE.FIELDS" must 1 state_none strike_feeds false
    ∷ rule "STRIKE.INTERVAL_NOT_EMPTY" must 1 state_none strike_feeds false
    ∷ rule "STRIKE.PRESENCE_STABLE" must 2 state_refdata strike_feeds false
    ∷ rule "STRIKE.FIXED_STAYS_FIXED" must 2 state_refdata strike_feeds false
    ∷ rule "TOB.QUOTE.STRUCT_LEN_TYPE" must 1 state_none tob_only false
    ∷ rule "TOB.QUOTE.GONE_VS_ZERO_PRICE" must 1 state_none tob_only false
    ∷ rule "TOB.QUOTE.CROSSED_LOCKED" info 1 state_none tob_only false
    ∷ rule "TOB.QUOTE.UPDATE_FLAGS_COHERENCE" should 1 state_none tob_only false
    ∷ rule "TOB.QUOTE.SOURCE_ID_REGISTRY" must 1 state_none tob_only false
    ∷ rule "TOB.QUOTE.SOURCE_COUNT" info 1 state_none tob_only false
    ∷ rule "TOB.QUOTE.REFDATA_KNOWN" should 2 state_refdata tob_only false
    ∷ rule "TOB.TRADE.FIELDS" must 1 state_none tob_only false
    ∷ rule "MID.STRUCT_LEN_TYPE" must 1 state_none mid_only false
    ∷ rule "MID.METHOD_RANGE" info 1 state_none mid_only false
    ∷ rule "MID.QUALITY_FLAGS" should 1 state_none mid_only false
    ∷ rule "MID.TIMESTAMP_ORDERING" should 1 state_none mid_only false
    ∷ rule "MID.METHOD0_REQUIRES_DEFAULT" must 2 state_refdata mid_only false
    ∷ rule "MID.PRICE_BOUND" must 2 state_refdata mid_only false
    ∷ []

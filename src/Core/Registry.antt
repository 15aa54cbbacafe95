-- ===== src/Core/Registry.antt =====
-- core/registry.go: the lookup of a rule, and the rules whose execution is conditional.
use edge_feed_spec.Base.{List, [], ◌∷◌, Option, Bool, true, false, any, if◌then◌else◌, String, ◌&&◌}
use edge_feed_spec.Base.Strings.{str_eq, string_eq}
use edge_feed_spec.Base.Maps.{lookup, put}
use edge_feed_spec.Core.Finding.{Feed, tob, mid, mbo, mbp}
use edge_feed_spec.Core.Catalog.{RuleMeta, rules}

abbrev conditional_exec_ids : List String
conditional_exec_ids =
    "MBP.SNAP.RECONSTRUCTED_BOOK_MATCHES_SNAPSHOT" ∷ "SNAP.RECONSTRUCTED_BOOK_MATCHES_SNAPSHOT"
    ∷ "MBP.SNAP.GROUP_STRUCTURE" ∷ "FIELD.ORDERADD_PRICE_BOUND" ∷ "REF.EXEC_PRICE_BOUND"
    ∷ "SNAP.ORDER_PRICE_BOUND" ∷ "TOB.QUOTE.REFDATA_KNOWN" ∷ "MID.METHOD0_REQUIRES_DEFAULT"
    ∷ "MID.PRICE_BOUND" ∷ "RESET.SNAPSHOT_FOLLOWS" ∷ "RESET.RECOVERY_SNAPSHOT_ANCHOR_MATCHES_RESET"
    ∷ "RESET.NO_DANGLING_DELTAS_AT_OR_BELOW_ANCHOR" ∷ "SNAP.ANCHOR_MONOTONIC_PER_INSTRUMENT"
    ∷ "SNAP.SNAPSHOT_ID_MONOTONIC" ∷ "SNAP.ROUND_ROBIN_COVERS_MANIFEST"
    ∷ "REFDATA.DEFINITION_CYCLE_COVERAGE" ∷ "REFDATA.NO_BURST_DEFINITIONS"
    ∷ "REFDATA.NEVER_REACHES_READY" ∷ "STRIKE.PRESENCE_STABLE" ∷ "STRIKE.FIXED_STAYS_FIXED" ∷ []

unfoldable pub conditional_exec : String → Bool
conditional_exec id = any (λ k. str_eq k id) conditional_exec_ids

abbrev pub same_feed : Feed → Feed → Bool
same_feed tob tob = true
same_feed tob mid = false
same_feed tob mbo = false
same_feed tob mbp = false
same_feed mid tob = false
same_feed mid mid = true
same_feed mid mbo = false
same_feed mid mbp = false
same_feed mbo tob = false
same_feed mbo mid = false
same_feed mbo mbo = true
same_feed mbo mbp = false
same_feed mbp tob = false
same_feed mbp mid = false
same_feed mbp mbo = false
same_feed mbp mbp = true

abbrev pub serves : Feed → RuleMeta → Bool
serves feed r = any (λ f. same_feed f feed) r.feeds

-- The loop of `ConditionalExecRules`, over any table.
unfoldable pub conditional_exec_loop : Feed → List RuleMeta → List String
conditional_exec_loop feed [] = []
conditional_exec_loop feed (r ∷ rs) =
    let rest = conditional_exec_loop feed rs in
    if conditional_exec r.id && serves feed r then r.id ∷ rest else rest

unfoldable pub conditional_exec_rules : Feed → List String
conditional_exec_rules feed = conditional_exec_loop feed rules

-- `byID`, built by a loop that writes each rule in turn.
unfoldable pub by_id : List RuleMeta → List (String × RuleMeta) → List (String × RuleMeta)
by_id [] m = m
by_id (r ∷ rs) m = by_id rs (put r.id r m)

unfoldable pub find_rule : String → Option RuleMeta
find_rule id = lookup id (by_id rules [])

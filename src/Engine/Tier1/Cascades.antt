-- ===== src/Engine/Tier1/Cascades.antt =====
-- engine/tier1.go: which rules the checks of a frame name.
use edge_feed_spec.Base.{
  ℕ, ◌≡◌, ◌≢◌, refl, List, [], ◌∷◌, Option, none, some, Bool, true, false, not, ◌==◌, String, All,
  any,
}
use edge_feed_spec.Base.Strings.{str_eq}
use edge_feed_spec.Base.Exec.{panic}
use edge_feed_spec.Core.Finding.{Feed, tob, mid, Port, Status}
use edge_feed_spec.Core.Registry.{same_feed}
use edge_feed_spec.Core.Catalog.{rules}
use edge_feed_spec.Wire.Header.{Message, Frame}
use edge_feed_spec.Wire.MessageType
use edge_feed_spec.Engine.Emit.{EmitContext, Emission, Config, emit}
use edge_feed_spec.Engine.Emit.Each.{
  Each, nothing, one, both, branch, Each-All, IsRule, IsRule-emitted,
}
use edge_feed_spec.Engine.Tier1.{Place, emit_if, expected_msg_len}
use edge_feed_spec.Engine.Tier1.Strikes.{
  check_tier1_strike, emit_defects, strike_defects, strike_tests, failing, definition_before,
}
use edge_feed_spec.Engine.Tier1.Fields.{
  canonical_findings, quote_findings, trade_findings, check_tier1_tob, midpoint_findings,
  check_tier1_mid, length_is_ok, check_tier1_message,
}
use edge_feed_spec.Engine.Tier1.Frames.{
  known_message, tier1_message, tier1_messages, check_tier1, is_reserved, is_unknown,
}

-- A test that may emit one rule of the catalog.
flag :
    (b : Bool) (rule : String) (st : Status) (at : Place) (i : ℕ)
    → any (λ r. str_eq r.id rule) rules ≡ true
    → Each IsRule (emit_if b rule st at i)
unfolding emit_if
flag b rule st at i h = branch b (one h) nothing

canonical_rules :
    (feed : Feed) (m : Message) (at : Place) → Each IsRule (canonical_findings feed m at)
unfolding canonical_findings
canonical_rules feed m at = branch (m.type_id == MessageType.heartbeat) (flag _ _ _ _ _ refl) (
    branch (m.type_id == MessageType.order_add)
      (both (flag _ _ _ _ _ refl) (both (flag _ _ _ _ _ refl) (flag _ _ _ _ _ refl)))
      (branch (m.type_id == MessageType.order_execute)
        (both (flag _ _ _ _ _ refl) (flag _ _ _ _ _ refl))
        (branch (m.type_id == MessageType.trade) (flag _ _ _ _ _ refl) (
          branch (m.type_id == MessageType.instr_reset) (flag _ _ _ _ _ refl) (
            branch (m.type_id == MessageType.snapshot_order)
              (both (flag _ _ _ _ _ refl) (both (flag _ _ _ _ _ refl) (flag _ _ _ _ _ refl)))
              nothing)))))

quote_rules :
    (registry : Option (ℕ → Bool)) (m : Message) (at : Place)
    → Each IsRule (quote_findings registry m at)
unfolding quote_findings
quote_rules registry m at = both (flag _ _ _ _ _ refl) (
    both (flag _ _ _ _ _ refl) (
      both (flag _ _ _ _ _ refl) (
        both (flag _ _ _ _ _ refl)
          (both (flag _ _ _ _ _ refl) (both (flag _ _ _ _ _ refl) (flag _ _ _ _ _ refl))))))

trade_rules :
    (registry : Option (ℕ → Bool)) (m : Message) (at : Place)
    → Each IsRule (trade_findings registry m at)
unfolding trade_findings
trade_rules registry m at =
    both (flag _ _ _ _ _ refl) (both (flag _ _ _ _ _ refl) (flag _ _ _ _ _ refl))

tob_rules :
    (registry : Option (ℕ → Bool)) (m : Message) (at : Place) (ok : Bool)
    → Each IsRule (check_tier1_tob registry m at ok)
unfolding check_tier1_tob
tob_rules registry m at ok =
    branch (m.type_id == MessageType.quote)
      (both (flag _ _ _ _ _ refl) (branch ok (quote_rules registry m at) nothing))
      (branch (m.type_id == MessageType.trade) (branch ok (trade_rules registry m at) nothing)
        nothing)

midpoint_rules : (m : Message) (at : Place) → Each IsRule (midpoint_findings m at)
unfolding midpoint_findings
midpoint_rules m at = both (flag _ _ _ _ _ refl) (both (flag _ _ _ _ _ refl) (flag _ _ _ _ _ refl))

mid_rules : (m : Message) (at : Place) (ok : Bool) → Each IsRule (check_tier1_mid m at ok)
unfolding check_tier1_mid
mid_rules m at ok =
    branch (not (m.type_id == MessageType.midpoint)) nothing
      (both (flag _ _ _ _ _ refl) (branch ok (midpoint_rules m at) nothing))

message_rules :
    (c : Config) (schema : ℕ) (m : Message) (at : Place)
    → Each IsRule (check_tier1_message c schema m at)
unfolding check_tier1_message
message_rules c schema m at =
    both (branch (length_is_ok c.feed schema m) (canonical_rules c.feed m at) nothing) (
      both
        (branch (same_feed c.feed tob)
          (tob_rules c.source_registry m at (length_is_ok c.feed schema m)) nothing)
        (branch (same_feed c.feed mid) (mid_rules m at (length_is_ok c.feed schema m)) nothing))

defects_rules :
    (at : Place) (i : ℕ) (ds : List String)
    → All (λ d. any (λ r. str_eq r.id d) rules ≡ true) ds
    → Each IsRule (emit_defects at i ds)
defects_rules at i [] a = nothing
defects_rules at i (d ∷ ds) a =
    both (flag true d Status.violation at i a.0) (defects_rules at i ds a.1)

abbrev InCatalog : String → Type 0
InCatalog d = any (λ r. str_eq r.id d) rules ≡ true

failing-InCatalog :
    (ts : List (Bool × String)) → All (λ t. InCatalog t.1) ts → All InCatalog (failing ts)
unfolding failing
failing-InCatalog [] a = tt
failing-InCatalog ((true, d) ∷ ts) a = (a.0, failing-InCatalog ts a.1)
failing-InCatalog ((false, d) ∷ ts) a = failing-InCatalog ts a.1

strike_defects-InCatalog :
    (feed : Feed) (schema : ℕ) (m : Message) (def : Option Message)
    → All InCatalog (strike_defects feed schema m def)
unfolding strike_defects strike_tests
strike_defects-InCatalog feed schema m def =
    failing-InCatalog (strike_tests feed schema m def)
      (refl, (refl, (refl, (refl, (refl, (refl, (refl, (refl, (refl, tt)))))))))

strike_rules :
    (feed : Feed) (schema : ℕ) (prev : Option Message) (m : Message) (at : Place)
    → Each IsRule (check_tier1_strike feed schema prev m at)
unfolding check_tier1_strike
strike_rules feed schema prev m at = both (flag _ _ _ _ _ refl) (
    branch (m.msg_length == expected_msg_len feed schema m.type_id)
      (defects_rules at _ _ (strike_defects-InCatalog feed schema m (definition_before prev)))
      nothing)

tier1_rules :
    (c : Config) (schema : ℕ) (prev : Option Message) (m : Message) (at : Place)
    → Each IsRule (tier1_message c schema prev m at)
unfolding tier1_message known_message
tier1_rules c schema prev m at = branch (is_reserved c.feed m.type_id) (flag _ _ _ _ _ refl) (
    branch (is_unknown c.feed schema m.type_id) (flag _ _ _ _ _ refl) (
      both (flag _ _ _ _ _ refl) (
        both (flag _ _ _ _ _ refl) (
          both (flag _ _ _ _ _ refl) (
            both (message_rules c schema m at) (
              branch (m.type_id == MessageType.strike_interval)
                (strike_rules c.feed schema prev m at) nothing))))))

frame_rules :
    (c : Config) (schema : ℕ) (prev : Option Message) (ms : List Message) (at : Place)
    → Each IsRule (tier1_messages c schema prev ms at)
unfolding tier1_messages
frame_rules c schema prev [] at = nothing
frame_rules c schema prev (m ∷ ms) at =
    both (tier1_rules c schema prev m at) (frame_rules c schema (some m) ms at)

-- Whatever a frame carries, the structural checks name rules of the catalog only, so that none of
-- their findings panics when it is emitted.
pub check_tier1_emits :
    (context : EmitContext) (c : Config) (f : Frame) (port : Port)
    → All (λ e. emit context e ≢ panic) (check_tier1 c f port)
unfolding check_tier1
check_tier1_emits context c f port =
    All-weaken (check_tier1 c f port)
      (Each-All IsRule (check_tier1 c f port) (frame_rules c _ none f.messages _))
  where
    All-weaken : (es : List Emission) → All IsRule es → All (λ e. emit context e ≢ panic) es
    All-weaken [] a = tt
    All-weaken (e ∷ es) a = (IsRule-emitted context e a.0, All-weaken es a.1)

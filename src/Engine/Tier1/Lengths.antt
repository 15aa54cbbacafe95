-- ===== src/Engine/Tier1/Lengths.antt =====
-- engine/tier1.go: what is said of a message whose length is not its type's.
use edge_feed_spec.Base.{
  ℕ, ◌≡◌, refl, List, [], ◌∷◌, Option, none, some, Bool, true, false, not, ◌==◌, String, All, any,
  arith,
}
use edge_feed_spec.Base.Strings.{str_eq}
use edge_feed_spec.Core.Finding.{Feed, tob, mid, Status}
use edge_feed_spec.Core.Registry.{same_feed}
use edge_feed_spec.Wire.Header.{Message}
use edge_feed_spec.Wire.MessageType
use edge_feed_spec.Engine.Emit.{Emission, Config}
use edge_feed_spec.Engine.Emit.Each.{Each, nothing, one, both, branch, Each-All}
use edge_feed_spec.Engine.Tier1.{Place, emit_if, expected_msg_len}
use edge_feed_spec.Engine.Tier1.Strikes.{check_tier1_strike, follows_no_definition}
use edge_feed_spec.Engine.Tier1.Fields.{
  check_tier1_tob, check_tier1_mid, length_is_ok, check_tier1_message,
}
use edge_feed_spec.Engine.Tier1.Frames.{
  wrong_flag, known_message, tier1_message, is_reserved, is_unknown,
}

-- The rules of the message's header and its place. STRIKE.FOLLOWS_DEFINITION compares an ID of the body
-- too, when the length is right.
abbrev pub bodyless_rules : List String
bodyless_rules =
    "MSG.RESERVED_TYPE_0X03_0X05" ∷ "MSG.UNKNOWN_TYPE_SKIPPED" ∷ "MSG.LENGTH_PER_TYPE"
    ∷ "MSG.WRONG_PORT_PLACEMENT" ∷ "MSG.SNAPSHOT_FLAG_MATCHES_PORT" ∷ "TOB.QUOTE.STRUCT_LEN_TYPE"
    ∷ "MID.STRUCT_LEN_TYPE" ∷ "STRIKE.FOLLOWS_DEFINITION" ∷ []

abbrev pub IsBodyless : Emission → Type 0
IsBodyless e = any (λ r. str_eq r e.rule_id) bodyless_rules ≡ true

flag :
    (b : Bool) (rule : String) (st : Status) (at : Place) (i : ℕ)
    → any (λ r. str_eq r rule) bodyless_rules ≡ true
    → Each IsBodyless (emit_if b rule st at i)
unfolding emit_if
flag b rule st at i h = branch b (one h) nothing

tob-IsBodyless :
    (registry : Option (ℕ → Bool)) (m : Message) (at : Place)
    → Each IsBodyless (check_tier1_tob registry m at false)
unfolding check_tier1_tob
tob-IsBodyless registry m at =
    branch (m.type_id == MessageType.quote) (both (flag _ _ _ _ _ refl) nothing)
      (branch (m.type_id == MessageType.trade) nothing nothing)

mid-IsBodyless : (m : Message) (at : Place) → Each IsBodyless (check_tier1_mid m at false)
unfolding check_tier1_mid
mid-IsBodyless m at =
    branch (not (m.type_id == MessageType.midpoint)) nothing (both (flag _ _ _ _ _ refl) nothing)

message-IsBodyless :
    (c : Config) (schema : ℕ) (m : Message) (at : Place)
    → length_is_ok c.feed schema m ≡ false
    → Each IsBodyless (check_tier1_message c schema m at)
unfolding check_tier1_message
message-IsBodyless c schema m at h = rw h (
    both nothing (
      both (branch (same_feed c.feed tob) (tob-IsBodyless c.source_registry m at) nothing)
        (branch (same_feed c.feed mid) (mid-IsBodyless m at) nothing)))

wrong_length :
    (feed : Feed) (schema : ℕ) (m : Message)
    → length_is_ok feed schema m ≡ false
    → (m.msg_length == expected_msg_len feed schema m.type_id) ≡ false
unfolding length_is_ok
wrong_length feed schema m h = ground arith

strike-IsBodyless :
    (feed : Feed) (schema : ℕ) (prev : Option Message) (m : Message) (at : Place)
    → length_is_ok feed schema m ≡ false
    → Each IsBodyless (check_tier1_strike feed schema prev m at)
unfolding check_tier1_strike
strike-IsBodyless feed schema prev m at h =
    rw (wrong_length feed schema m h) (both (flag _ _ _ _ _ refl) nothing)

message-rebodied :
    (c : Config) (schema : ℕ) (m : Message) (at : Place) (body : List ℕ)
    → length_is_ok c.feed schema m ≡ false
    → check_tier1_message c schema (record m { body = body }) at ≡ check_tier1_message c schema m at
unfolding check_tier1_message check_tier1_tob check_tier1_mid length_is_ok
message-rebodied c schema m at body h = rw h refl

-- A message before, with another body.
abbrev pub rebodied : List ℕ → Option Message → Option Message
rebodied body none = none
rebodied body (some prev) = some (record prev { body = body })

strike-rebodied :
    (feed : Feed) (schema : ℕ) (prev : Option Message) (m : Message) (at : Place)
    (body before : List ℕ)
    → length_is_ok feed schema m ≡ false
    → check_tier1_strike feed schema (rebodied before prev) (record m { body = body }) at
      ≡ check_tier1_strike feed schema prev m at
unfolding check_tier1_strike follows_no_definition
strike-rebodied feed schema none m at body before h = rw (wrong_length feed schema m h) refl
strike-rebodied feed schema (some prev) m at body before h = rw (wrong_length feed schema m h) refl

tier1_message-rebodied :
    (c : Config) (schema : ℕ) (prev : Option Message) (m : Message) (at : Place)
    (body before : List ℕ)
    → length_is_ok c.feed schema m ≡ false
    → tier1_message c schema (rebodied before prev) (record m { body = body }) at
      ≡ tier1_message c schema prev m at
unfolding tier1_message known_message wrong_flag
tier1_message-rebodied c schema prev m at body before h =
    rw
      (message-rebodied c schema m at body h, strike-rebodied c.feed schema prev m at body before h)
      refl

charged-IsBodyless :
    (c : Config) (schema : ℕ) (prev : Option Message) (m : Message) (at : Place)
    → length_is_ok c.feed schema m ≡ false
    → All IsBodyless (tier1_message c schema prev m at)
unfolding tier1_message known_message
charged-IsBodyless c schema prev m at h = Each-All IsBodyless (tier1_message c schema prev m at) (
    branch (is_reserved c.feed m.type_id) (flag _ _ _ _ _ refl) (
      branch (is_unknown c.feed schema m.type_id) (flag _ _ _ _ _ refl) (
        both (flag _ _ _ _ _ refl) (
          both (flag _ _ _ _ _ refl) (
            both (flag _ _ _ _ _ refl) (
              both (message-IsBodyless c schema m at h) (
                branch (m.type_id == MessageType.strike_interval)
                  (strike-IsBodyless c.feed schema prev m at h) nothing)))))))

-- A message whose length is not the canonical length of its type is charged only under rules of the
-- message's header and its place, and its findings, with all their fields, do not depend on a byte of
-- its body or of the body of the message before: any other bodies give the same ones.
pub tier1_message-IsBodyless :
    (c : Config) (schema : ℕ) (prev : Option Message) (m : Message) (at : Place)
    → length_is_ok c.feed schema m ≡ false
    → All IsBodyless (tier1_message c schema prev m at)
      × ((body before : List ℕ)
          → tier1_message c schema (rebodied before prev) (record m { body = body }) at
            ≡ tier1_message c schema prev m at)
tier1_message-IsBodyless c schema prev m at h = (
  charged-IsBodyless c schema prev m at h,
  λ body before. tier1_message-rebodied c schema prev m at body before h,
)

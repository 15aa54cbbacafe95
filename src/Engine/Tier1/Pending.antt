-- ===== src/Engine/Tier1/Pending.antt =====
-- engine/tier1.go: the fields of a strike interval that its structural rules accept.
use Prim.Native.Nat.{bit_and}
use edge_feed_spec.Base.{
  ℕ, ◌≡◌, ◌≢◌, ◌↔◌, ◌⊎◌, refl, List, [], ◌∷◌, Option, none, some, Bool, true, false, not, ◌&&◌,
  ◌||◌, ◌==◌, String, All, arith,
}
use edge_feed_spec.Base.Int.{ℤ, pos, ◌<ℤ◌, ltb_ℤ, eqb_ℤ, eqb_ℤ-iff}
use edge_feed_spec.Core.Finding.{Feed}
use edge_feed_spec.Wire.Header.{Message}
use edge_feed_spec.Engine.Fields.Definitions.{
  strike_source_id, strike_bound_flags, strike_lower_bound, strike_upper_bound, strike_fixing_time,
  strike_reserved,
}
use edge_feed_spec.Engine.Tier1.Strikes.{
  strike_lower_present, strike_lower_inclusive, strike_upper_present, strike_upper_inclusive,
  strike_reserved_bits, has_bits, strike_pending, definition_source, other_source, empty_interval,
  failing, strike_tests, strike_defects,
}

abbrev pub Has : Message → ℕ → Type 0
Has m mask = bit_and (strike_bound_flags m) mask ≢ 0

abbrev pub Lacks : Message → ℕ → Type 0
Lacks m mask = bit_and (strike_bound_flags m) mask ≡ 0

-- A present bound; an absent one is not inclusive and is 0.
abbrev pub IsBound : Message → ℕ → ℕ → ℤ → Type 0
IsBound m present inclusive bound = Has m present ⊎ (Lacks m inclusive × (bound ≡ pos 0))

-- The two bounds leave a value between them, when both are present.
abbrev pub IsInhabited : Message → Type 0
IsInhabited m =
    Lacks m strike_lower_present
    ⊎ Lacks m strike_upper_present
    ⊎ (strike_lower_bound m <ℤ strike_upper_bound m)
    ⊎ ((strike_lower_bound m ≡ strike_upper_bound m)
        × Has m strike_lower_inclusive
        × Has m strike_upper_inclusive)

-- A strike interval as the supplement has it, after the definition of its instrument.
pub record IsStrike (feed : Feed) (schema : ℕ) (m : Message) (def : Option Message) : Type 0 where
  pub source :
      (definition_source feed schema def ≡ none)
      ⊎ (definition_source feed schema def ≡ some (strike_source_id m))
  pub no_reserved_bits : Lacks m strike_reserved_bits
  pub lower : IsBound m strike_lower_present strike_lower_inclusive (strike_lower_bound m)
  pub upper : IsBound m strike_upper_present strike_upper_inclusive (strike_upper_bound m)
  pub fixing : Has m 0x05 ⊎ (strike_fixing_time m ≡ 0)
  pub no_reserved_bytes : strike_reserved m ≡ 0
  pub inhabited : IsInhabited m

Passes : Bool × String → Type 0
Passes t = t.0 ≡ false

failing-nil_iff : (ts : List (Bool × String)) → (failing ts ≡ []) ↔ All Passes ts
unfolding failing Passes
failing-nil_iff [] = (λ _. tt, λ _. refl)
failing-nil_iff ((true, d) ∷ ts) = (λ h. cc, λ h. cc)
failing-nil_iff ((false, d) ∷ ts) =
    (λ h. (refl, (failing-nil_iff ts).0 h), λ h. (failing-nil_iff ts).1 h.1)

source_iff : (o : Option ℕ) (src : ℕ) → (other_source o src ≡ false) ↔ ((o ≡ none) ⊎ (o ≡ some src))
source_iff o src = ground arith

bits_iff : (m : Message) (mask : ℕ) → (has_bits (strike_bound_flags m) mask ≡ false) ↔ Lacks m mask
bits_iff m mask = ground arith

IsBound-iff :
    (m : Message) (present inclusive : ℕ) (b : ℤ)
    → (((not (has_bits (strike_bound_flags m) present) && has_bits (strike_bound_flags m) inclusive)
          ≡ false)
        × ((not (has_bits (strike_bound_flags m) present) && not (eqb_ℤ b (pos 0))) ≡ false))
      ↔ IsBound m present inclusive b
IsBound-iff m present inclusive b = (
  λ (h, k). ground (arith, h, k, (eqb_ℤ-iff b (pos 0)).0),
  λ h. ground (arith, h, (eqb_ℤ-iff b (pos 0)).1),
)

fixing_iff :
    (m : Message)
    → ((strike_pending (strike_bound_flags m) && not (strike_fixing_time m == 0)) ≡ false)
      ↔ (Has m 0x05 ⊎ (strike_fixing_time m ≡ 0))
unfolding strike_pending
fixing_iff m = ground arith

zero_iff : (n : ℕ) → (not (n == 0) ≡ false) ↔ (n ≡ 0)
zero_iff n = ground arith

order_iff :
    (l u : ℤ) (inclusive : Bool)
    → ((ltb_ℤ u l || (eqb_ℤ l u && not inclusive)) ≡ false)
      ↔ ((l <ℤ u) ⊎ ((l ≡ u) × (inclusive ≡ true)))
order_iff l u inclusive =
    (λ h. ground (arith, h, (eqb_ℤ-iff l u).0), λ h. ground (arith, h, (eqb_ℤ-iff l u).1))

interval_iff : (m : Message) → (empty_interval m ≡ false) ↔ IsInhabited m
unfolding empty_interval
interval_iff m = (
  λ h. ground (arith, h, (order_iff (strike_lower_bound m) (strike_upper_bound m) inclusive).0),
  λ h. ground (arith, h, (order_iff (strike_lower_bound m) (strike_upper_bound m) inclusive).1),
)
  where
    inclusive : Bool
    inclusive =
        has_bits (strike_bound_flags m) strike_lower_inclusive
        && has_bits (strike_bound_flags m) strike_upper_inclusive

-- The structural rules find no defect in a strike interval exactly if its source is that of the
-- definition before it, where that can be read, it sets no reserved bit or byte, an absent bound is
-- 0 and not inclusive, a pending strike has no fixing time, and two present bounds leave a value
-- between them.
pub strike_defects-nil_iff :
    (feed : Feed) (schema : ℕ) (m : Message) (def : Option Message)
    → (strike_defects feed schema m def ≡ []) ↔ IsStrike feed schema m def
unfolding strike_defects strike_tests Passes
strike_defects-nil_iff feed schema m def = (
  λ h.
      let passes : All Passes (strike_tests feed schema m def) =
        (failing-nil_iff (strike_tests feed schema m def)).0 h in
      let (a, (b, (c, (d, (e, (f, (g, (i, (j, _))))))))) = passes in
      record {
        source = (source_iff (definition_source feed schema def) (strike_source_id m)).0 a;
        no_reserved_bits = (bits_iff m strike_reserved_bits).0 b;
        lower =
            (IsBound-iff m strike_lower_present strike_lower_inclusive (strike_lower_bound m)).0
              (c, e);
        upper =
            (IsBound-iff m strike_upper_present strike_upper_inclusive (strike_upper_bound m)).0
              (d, f);
        fixing = (fixing_iff m).0 g;
        no_reserved_bytes = (zero_iff (strike_reserved m)).0 i;
        inhabited = (interval_iff m).0 j;
      },
  λ s.
      let (c, e) =
        (IsBound-iff m strike_lower_present strike_lower_inclusive (strike_lower_bound m)).1
          s.lower in
      let (d, f) =
        (IsBound-iff m strike_upper_present strike_upper_inclusive (strike_upper_bound m)).1
          s.upper in
      (failing-nil_iff (strike_tests feed schema m def)).1 (
        (source_iff (definition_source feed schema def) (strike_source_id m)).1 s.source,
        (
          (bits_iff m strike_reserved_bits).1 s.no_reserved_bits,
          (
            c,
            (
              d,
              (
                e,
                (
                  f,
                  (
                    (fixing_iff m).1 s.fixing,
                    (
                      (zero_iff (strike_reserved m)).1 s.no_reserved_bytes,
                      ((interval_iff m).1 s.inhabited, tt),
                    ),
                  ),
                ),
              ),
            ),
          ),
        ),
      ),
)

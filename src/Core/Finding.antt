-- ===== src/Core/Finding.antt =====
-- core/finding.go: severities, statuses, the kinds of state a rule reads, and the reasons.
use edge_feed_spec.Base.{List, [], ◌∷◌, Bool, true, false, ◌||◌, String, any, ℕ, ◌≡◌, refl, ◌↔◌, Eq}
use edge_feed_spec.Base.Strings.{str_eq}

pub data Severity : Type 0 where
  info : Severity
  should : Severity
  must : Severity

pub data Status : Type 0 where
  pass : Status
  violation : Status
  suspected : Status
  unverifiable : Status
  na : Status

unfoldable pub counts_as_violation : Status → Bool
counts_as_violation violation = true
counts_as_violation pass = false
counts_as_violation suspected = false
counts_as_violation unverifiable = false
counts_as_violation na = false

pub data StateKind : Type 0 where
  state_none : StateKind
  state_counters : StateKind
  state_order_id_set : StateKind
  state_full_book : StateKind
  state_refdata : StateKind
  state_snapshot_group : StateKind
  state_instance_counters : StateKind

unfoldable pub instance_scoped : StateKind → Bool
instance_scoped state_none = true
instance_scoped state_instance_counters = true
instance_scoped state_counters = false
instance_scoped state_order_id_set = false
instance_scoped state_full_book = false
instance_scoped state_refdata = false
instance_scoped state_snapshot_group = false

pub data Feed : Type 0 where
  tob : Feed
  mid : Feed
  mbo : Feed
  mbp : Feed

pub data Port : Type 0 where
  mkt_data : Port
  ref_data : Port
  snapshot : Port

abbrev pub same_status : Status → Status → Bool
same_status pass pass = true
same_status pass violation = false
same_status pass suspected = false
same_status pass unverifiable = false
same_status pass na = false
same_status violation pass = false
same_status violation violation = true
same_status violation suspected = false
same_status violation unverifiable = false
same_status violation na = false
same_status suspected pass = false
same_status suspected violation = false
same_status suspected suspected = true
same_status suspected unverifiable = false
same_status suspected na = false
same_status unverifiable pass = false
same_status unverifiable violation = false
same_status unverifiable suspected = false
same_status unverifiable unverifiable = true
same_status unverifiable na = false
same_status na pass = false
same_status na violation = false
same_status na suspected = false
same_status na unverifiable = false
same_status na na = true

pub same_status_iff : (a b : Status) → (same_status a b ≡ true) ↔ (a ≡ b)
same_status_iff pass pass = (λ h. refl, λ h. refl)
same_status_iff pass violation = (λ h. cc, λ h. cc)
same_status_iff pass suspected = (λ h. cc, λ h. cc)
same_status_iff pass unverifiable = (λ h. cc, λ h. cc)
same_status_iff pass na = (λ h. cc, λ h. cc)
same_status_iff violation pass = (λ h. cc, λ h. cc)
same_status_iff violation violation = (λ h. refl, λ h. refl)
same_status_iff violation suspected = (λ h. cc, λ h. cc)
same_status_iff violation unverifiable = (λ h. cc, λ h. cc)
same_status_iff violation na = (λ h. cc, λ h. cc)
same_status_iff suspected pass = (λ h. cc, λ h. cc)
same_status_iff suspected violation = (λ h. cc, λ h. cc)
same_status_iff suspected suspected = (λ h. refl, λ h. refl)
same_status_iff suspected unverifiable = (λ h. cc, λ h. cc)
same_status_iff suspected na = (λ h. cc, λ h. cc)
same_status_iff unverifiable pass = (λ h. cc, λ h. cc)
same_status_iff unverifiable violation = (λ h. cc, λ h. cc)
same_status_iff unverifiable suspected = (λ h. cc, λ h. cc)
same_status_iff unverifiable unverifiable = (λ h. refl, λ h. refl)
same_status_iff unverifiable na = (λ h. cc, λ h. cc)
same_status_iff na pass = (λ h. cc, λ h. cc)
same_status_iff na violation = (λ h. cc, λ h. cc)
same_status_iff na suspected = (λ h. cc, λ h. cc)
same_status_iff na unverifiable = (λ h. cc, λ h. cc)
same_status_iff na na = (λ h. refl, λ h. refl)

instance abbrev pub status_eq : Eq Status
status_eq = record { beq = same_status; beq_iff = same_status_iff }

-- The closed vocabulary of reasons.
abbrev pub reason_loss : String
reason_loss = "loss"

abbrev pub reason_capture_loss : String
reason_capture_loss = "capture_loss"

abbrev pub reason_cold_start : String
reason_cold_start = "cold_start"

abbrev pub reason_reorder : String
reason_reorder = "reorder"

abbrev pub reason_pending : String
reason_pending = "pending"

abbrev pub reason_overflow : String
reason_overflow = "overflow"

abbrev pub reason_truncated : String
reason_truncated = "truncated"

abbrev pub reason_insufficient_window : String
reason_insufficient_window = "insufficient_window"

abbrev pub reason_superseded : String
reason_superseded = "superseded"

abbrev pub reason_untrusted : String
reason_untrusted = "untrusted"

abbrev pub reason_bound_subset : String
reason_bound_subset = "bound_subset"

abbrev pub reason_transition : String
reason_transition = "transition"

abbrev pub reason_unspecified : String
reason_unspecified = "unspecified"

abbrev pub reasons : List String
reasons =
    reason_loss ∷ reason_capture_loss ∷ reason_cold_start ∷ reason_reorder ∷ reason_pending
    ∷ reason_overflow ∷ reason_truncated ∷ reason_insufficient_window ∷ reason_superseded
    ∷ reason_untrusted ∷ reason_bound_subset ∷ reason_transition ∷ reason_unspecified ∷ []

unfoldable pub valid_reason : String → Bool
valid_reason s = str_eq s "" || any (λ r. str_eq r s) reasons

-- The publisher's address, the free-form detail and the time, which no code here reads, are left
-- out.
pub record Finding : Type 0 where
  pub rule_id : String
  pub severity : Severity
  pub status : Status
  pub feed : Feed
  pub port : Port
  pub channel_id : ℕ
  pub instrument_id : ℕ
  pub no_instrument_id : Bool
  pub seq : ℕ
  pub reason : String

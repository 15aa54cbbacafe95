-- ===== src/Engine/Emit/Grades.antt =====
-- engine/engine.go: what becomes of a rule's verdict.
use edge_feed_spec.Base.{
  ◌≡◌, ◌≢◌, ◌↔◌, ◌⊎◌, refl, none, some, Bool, true, false, ◌&&◌, String, arith, Bool-cases,
  Option-cases, inl, inr,
}
use edge_feed_spec.Base.Strings.{str_eq}
use edge_feed_spec.Base.Exec.{done, panic}
use edge_feed_spec.Core.Finding.{
  Status, Finding, same_status, same_status_iff, reason_loss, reason_capture_loss, valid_reason,
}
use edge_feed_spec.Core.Catalog.{RuleMeta}
use edge_feed_spec.Core.Registry.{find_rule}
use edge_feed_spec.Engine.Emit.{
  EmitContext, Emission, configured, is_envelope, downgrades, downgraded, owner_of_loss, finding_of,
  emit,
}

-- Nothing silences the rule: its configuration is given if it needs one, and the frame's schema is
-- known if the rule depends on it.
pub record InForce (c : EmitContext) (meta : RuleMeta) (id : String) : Type 0 where
  pub has_config : (meta.conditional ≡ false) ⊎ (configured c.config id ≡ true)
  pub has_schema : (c.cur_unknown_schema ≡ false) ⊎ (is_envelope id ≡ true)

downgrades_iff :
    (c : EmitContext) (meta : RuleMeta) (id : String)
    → (downgrades c meta id ≡ false) ↔ InForce c meta id
unfolding downgrades
downgrades_iff c meta id = ground arith

downgraded-never : (st : Status) → downgraded st ≢ Status.violation
downgraded-never st = ground arith

finding_status :
    (c : EmitContext) (meta : RuleMeta) (e : Emission)
    → ((finding_of c meta e).status ≡ Status.violation)
      ↔ ((e.status ≡ Status.violation) × (downgrades c meta e.rule_id ≡ false))
unfolding finding_of
finding_status c meta e = elim (Bool-cases (downgrades c meta e.rule_id)) [
  | inl down ↦ rw down (λ h. absurd (downgraded-never e.status h), λ (_, h). cc)
  | inr stays ↦ rw stays (λ h. (h, refl), λ (h, _). h)
]

-- A verdict on a rule that the registry knows becomes a finding, which is a violation exactly if the
-- verdict is one and nothing silences the rule: a conditional rule is configured, and the schema of
-- the frame is implemented or the rule is one of the four on the envelope.
pub emit_violation_iff :
    (c : EmitContext) (meta : RuleMeta) (e : Emission)
    → find_rule e.rule_id ≡ some meta
    → (f : Finding) × (emit c e ≡ done f)
      × ((f.status ≡ Status.violation) ↔ ((e.status ≡ Status.violation) × InForce c meta e.rule_id))
unfolding emit
emit_violation_iff c meta e known = (
  finding_of c meta e,
  rw (known, emit) refl,
  (
    λ h.
        let (v, stays) = (finding_status c meta e).0 h in
        (v, (downgrades_iff c meta e.rule_id).0 stays),
    λ (v, force). (finding_status c meta e).1 (v, (downgrades_iff c meta e.rule_id).1 force),
  ),
)

-- Emitting panics exactly for a rule that the registry does not know.
pub emit_panic_iff :
    (c : EmitContext) (e : Emission) → (emit c e ≡ panic) ↔ (find_rule e.rule_id ≡ none)
unfolding emit
emit_panic_iff c e = elim (Option-cases (find_rule e.rule_id)) [
  | inl unknown ↦ rw (unknown, emit) (λ _. refl, λ _. refl)
  | inr (meta, known) ↦ rw (known, emit) (λ h. cc, λ h. cc)
]

-- A finding's reason is in the vocabulary when the verdict's is, and differs from it only by naming
-- the capture as the owner of a loss, for an unverifiable finding of a channel whose series lost
-- datagrams to the capture.
pub owner_of_loss_valid :
    (c : EmitContext) (e : Emission) (st : Status)
    → valid_reason e.reason ≡ true
    → (valid_reason (owner_of_loss c e st) ≡ true)
      × ((owner_of_loss c e st ≡ e.reason)
          ⊎ ((owner_of_loss c e st ≡ reason_capture_loss)
              × (st ≡ Status.unverifiable)
              × (str_eq e.reason reason_loss ≡ true)
              × (c.capture_dirty_on e.port e.channel_id ≡ true)))
unfolding owner_of_loss valid_reason
owner_of_loss_valid c e st h = elim (Bool-cases named) [
  | inl t ↦
      let (lost, named_loss, dirty) = facts t in
      rw (t, owner_of_loss) (refl, inr (refl, lost, named_loss, dirty))
  | inr t ↦ rw (t, owner_of_loss) (h, inl refl)
]
  where
    named : Bool
    named =
        same_status st Status.unverifiable
        && (str_eq e.reason reason_loss && c.capture_dirty_on e.port e.channel_id)

    facts :
        named ≡ true
        → (st ≡ Status.unverifiable)
          × (str_eq e.reason reason_loss ≡ true)
          × (c.capture_dirty_on e.port e.channel_id ≡ true)
    facts t = ground (arith, (same_status_iff st Status.unverifiable).0)

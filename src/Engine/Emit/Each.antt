-- ===== src/Engine/Emit/Each.antt =====
-- engine/engine.go: what every emission of a list satisfies, by the way the list is put together.
use edge_feed_spec.Base.{
  ◌≡◌, ◌≢◌, sym, ◌∙◌, List, [], ◌∷◌, ◌++◌, none, Bool, true, false, String, if◌then◌else◌, All,
  All-append, any, arith, Bool-cases, inl, inr,
}
use edge_feed_spec.Base.Strings.{str_eq}
use edge_feed_spec.Base.Exec.{panic}
use edge_feed_spec.Core.Catalog.{RuleMeta, rules}
use edge_feed_spec.Core.Lookup.{first_row, find_rule-eq-first_row}
use edge_feed_spec.Engine.Emit.{EmitContext, Emission, emit}
use edge_feed_spec.Engine.Emit.Grades.{emit_panic_iff}

pub data Each (P : Emission → Type 0) : List Emission → Type 0 where
  nothing : Each P []
  one : {e : Emission} → P e → Each P (e ∷ [])
  more : {e : Emission} {es : List Emission} → P e → Each P es → Each P (e ∷ es)
  both : {xs ys : List Emission} → Each P xs → Each P ys → Each P (xs ++ ys)
  branch :
      (b : Bool) {xs ys : List Emission} → Each P xs → Each P ys → Each P (if b then xs else ys)

pub Each-All : (P : Emission → Type 0) (es : List Emission) → Each P es → All P es
Each-All P es nothing = tt
Each-All P es (one h) = (h, tt)
Each-All P es (more {es = rest} h k) = (h, Each-All P rest k)
Each-All P es (both {xs} {ys} h k) = All-append P xs ys (Each-All P xs h) (Each-All P ys k)
Each-All P es (branch true {xs} {ys} h k) = Each-All P xs h
Each-All P es (branch false {xs} {ys} h k) = Each-All P ys k

-- A rule of the catalog.
abbrev pub IsRule : Emission → Type 0
IsRule e = any (λ r. str_eq r.id e.rule_id) rules ≡ true

row_found :
    (id : String) (rs : List RuleMeta)
    → any (λ r. str_eq r.id id) rs ≡ true
    → first_row id rs ≢ none
row_found id [] h e = cc
row_found id (r ∷ rs) h e = elim (Bool-cases (str_eq r.id id)) [
  | inl here ↦ ground (arith, here, e)
  | inr later ↦ row_found id rs (ground arith) (ground arith)
]

pub IsRule-emitted : (c : EmitContext) (e : Emission) → IsRule e → emit c e ≢ panic
IsRule-emitted c e h panics =
    row_found e.rule_id rules h
      (sym (find_rule-eq-first_row e.rule_id) ∙ (emit_panic_iff c e).0 panics)

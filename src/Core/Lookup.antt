-- ===== src/Core/Lookup.antt =====
-- The registry's map against its table.
use edge_feed_spec.Base.{
  ◌≡◌, refl, sym, ap, ap₂, subst, if_true, if_false, ◌∙◌, List, [], ◌∷◌, Option, none, some, Bool,
  true, false, not, ◌&&◌, any, if◌then◌else◌, String, arith, Bool-cases, inl, inr,
}
use text.Mathlib.TextEquality.{eq_iff}
use edge_feed_spec.Base.Strings.{str_eq, string_eq}
use edge_feed_spec.Base.Maps.{lookup, put, lookup-put}
use edge_feed_spec.Core.Catalog.{RuleMeta, rules}
use edge_feed_spec.Core.Registry.{by_id, find_rule}

-- The first row of a table with an identifier.
abbrev pub first_row : String → List RuleMeta → Option RuleMeta
first_row id [] = none
first_row id (r ∷ rs) = let rest = first_row id rs in if str_eq r.id id then some r else rest

abbrev or_else : Option RuleMeta → Option RuleMeta → Option RuleMeta
or_else none d = d
or_else (some r) d = some r

-- No two rows have the same identifier.
abbrev unique : List RuleMeta → Bool
unique [] = true
unique (r ∷ rs) = not (any (λ s. str_eq s.id r.id) rs) && unique rs

absent_row :
    (id : String) (rs : List RuleMeta)
    → any (λ s. str_eq s.id id) rs ≡ false
    → first_row id rs ≡ none
absent_row id [] h = refl
absent_row id (r ∷ rs) h = ground (arith, absent_row id rs)

no_later :
    (id : String) (r : RuleMeta) (rs : List RuleMeta)
    → str_eq r.id id ≡ true
    → any (λ s. str_eq s.id r.id) rs ≡ false
    → any (λ s. str_eq s.id id) rs ≡ false
no_later id r rs same none_later =
    subst (λ i. any (λ s. str_eq s.id i) rs ≡ false) ((eq_iff r.id id).0 same) none_later

or_else-none : (o : Option RuleMeta) → or_else o none ≡ o
or_else-none none = refl
or_else-none (some r) = refl

lookup-by_id :
    (id : String) (rs : List RuleMeta) (m : List (String × RuleMeta))
    → unique rs ≡ true
    → lookup id (by_id rs m) ≡ or_else (first_row id rs) (lookup id m)
unfolding by_id
lookup-by_id id [] m h = refl
lookup-by_id id (r ∷ rs) m h =
    lookup-by_id id rs (put r.id r m) (ground arith) ∙ elim (Bool-cases (str_eq r.id id)) [
      | inr other ↦
          ap (or_else (first_row id rs)) (lookup-put r.id r id m ∙ rw other refl)
          ∙ ap (λ o. or_else o (lookup id m)) (sym (if_false (some r) (first_row id rs) _ other))
      | inl same ↦
          ap₂ or_else (absent_row id rs (no_later id r rs same (ground arith)))
            (lookup-put r.id r id m ∙ rw same refl)
          ∙ ap (λ o. or_else o (lookup id m)) (sym (if_true (some r) (first_row id rs) _ same))
    ]

rules-unique : unique rules ≡ true
rules-unique = refl

-- The map finds for any identifier the row that the catalog has for it, and nothing for any other.
pub find_rule-eq-first_row : (id : String) → find_rule id ≡ first_row id rules
unfolding find_rule lookup
find_rule-eq-first_row id =
    lookup-by_id id rules [] rules-unique ∙ or_else-none (first_row id rules)

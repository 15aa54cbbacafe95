-- ===== src/Engine/State/Eras.antt =====
-- engine/state.go, `eraOrder`: the order of eras.
use edge_feed_spec.Base.{
  ℕ, ◌+◌, ◌≤◌, ◌<◌, ◌≡◌, refl, ◌∙◌, ltb→lt, lt→ltb, some, true, ltb, ◌==◌, ==_iff, arith,
  Bool-cases, Option-cases, inl, inr, ◌⊎◌, nat_eq,
}
use edge_feed_spec.Base.Maps.{lookup, lookup-put}
use edge_feed_spec.Engine.IdWindow.{u64_mod}
use edge_feed_spec.Engine.State.{EraOrder, start_era, enter}

-- Every ordinal handed out is positive and at most the counter.
pub record IsOrder (o : EraOrder) : Type 0 where
  pub bounded : (era p : ℕ) → lookup era o.pos ≡ some p → (0 < p) × (p ≤ o.next)

-- What entering the value `era` from the ordinal `from` returns.
pub record Entered (o : EraOrder) (era from : ℕ) (r : ℕ × EraOrder) : Type 0 where
  pub later : from < r.0
  pub stored : lookup era r.1.pos ≡ some r.0
  pub valid : IsOrder r.1
  pub counter : (r.1.next ≡ o.next) ⊎ (r.1.next ≡ o.next + 1)
  pub fresh : (lookup era o.pos ≡ some r.0) ⊎ (o.next < r.0)
  pub others : (j : ℕ) → ((era == j) ≡ true) ⊎ (lookup j r.1.pos ≡ lookup j o.pos)

module _ (o : EraOrder) (era from : ℕ) (v : IsOrder o) (room : o.next + 1 < u64_mod)
    (past : from ≤ o.next) where
  start_era-Entered : Entered o era from (start_era o era)
  unfolding start_era
  start_era-Entered = record {
    later = omega arith;
    stored = lookup-put era _ era o.pos ∙ rw ((==_iff era era).1 refl) refl;
    valid = record {
      bounded = λ j p h. ground (arith, lookup-put era (o.next + 1) j o.pos, v.bounded j p);
    };
    counter = inr (omega arith);
    fresh = inr (omega arith);
    others = λ j. ground (arith, lookup-put era (o.next + 1) j o.pos);
  }

  -- With a valid order whose counter is not about to wrap, and an ordinal that it has given, or 0: a
  -- port that enters a Reset Count value gets a later ordinal than the one it leaves, that of the
  -- value already or a new one, later than every other. It is stored for the value, the other
  -- values keep theirs, and the order stays valid.
  pub enter-Entered : Entered o era from (enter o era from)
  unfolding enter
  enter-Entered = elim (Option-cases (lookup era o.pos)) [
    | inl e ↦ rw (e, enter) start_era-Entered
    | inr (p, e) ↦ elim (Bool-cases (ltb from p)) [
      | inr old ↦ rw (e, enter, old) start_era-Entered
      | inl joined ↦
          rw (e, enter, joined)
            (record {
              later = ltb→lt from p joined;
              stored = e;
              valid = v;
              counter = inl refl;
              fresh = inl e;
              others = λ j. inr refl;
            })
    ]
  ]

-- Under the same conditions, the second port of a channel to enter a value, from any ordinal before
-- the era that the first one got, joins that era and changes nothing.
pub enter-enter :
    (o : EraOrder) (era from from2 : ℕ)
    → IsOrder o
    → o.next + 1 < u64_mod
    → from ≤ o.next
    → from2 < (enter o era from).0
    → enter (enter o era from).1 era from2 ≡ enter o era from
unfolding enter
enter-enter o era from from2 v room past before =
    rw ((enter-Entered o era from v room past).stored, enter, lt→ltb _ _ before) refl

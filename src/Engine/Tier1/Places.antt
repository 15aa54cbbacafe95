-- ===== src/Engine/Tier1/Places.antt =====
-- engine/tier1.go: the tables of message types against each other.
use edge_feed_spec.Base.{
  ℕ, ◌≡◌, ◌≢◌, ◌↔◌, refl, subst, List, [], ◌∷◌, Option, none, some, Bool, true, false, not, ◌&&◌,
  ◌||◌, ◌==◌, if◌then◌else◌, ◌⊎◌, all, any, arith, Bool-cases, Option-cases, ==_iff, inl, inr,
}
use edge_feed_spec.Core.Finding.{Feed, tob, mid, mbo, mbp, Port, mkt_data, ref_data, snapshot}
use edge_feed_spec.Core.Registry.{same_feed}
use edge_feed_spec.Wire.Header.{schema_supported, supported_schemas}
use edge_feed_spec.Engine.Emit.{magic_for}
use edge_feed_spec.Engine.Definition.{
  instr_def_layout_for, instr_def_schema1, instr_def_schema3, instr_def_midpoint,
}
use edge_feed_spec.Engine.Tier1.{
  known_types, is_known, port_types, port_allowed, expected_msg_len, carries_strike_interval,
}
use edge_feed_spec.Engine.Tier1.Frames.{is_unknown}

any-all :
    (f : ℕ → Bool) (xs : List ℕ) (typ : ℕ)
    → any (λ t. t == typ) xs ≡ true
    → all f xs ≡ true
    → f typ ≡ true
any-all f [] typ h a = cc
any-all f (x ∷ xs) typ h a = elim (Bool-cases (x == typ)) [
  | inl same ↦ subst (λ t. f t ≡ true) (same_type same) (ground arith)
  | inr other ↦ any-all f xs typ (ground arith) (ground arith)
]
  where
    same_type : (x == typ) ≡ true → x ≡ typ
    same_type same = (==_iff x typ).0 same

-- The first port that allows a type.
abbrev home : Feed → ℕ → Option Port
home feed typ =
    if port_allowed feed typ mkt_data
    then some mkt_data
    else if port_allowed feed typ ref_data
    then some ref_data
    else if port_allowed feed typ snapshot
    then some snapshot
    else none

abbrev is_at : Port → Option Port → Bool
is_at mkt_data (some mkt_data) = true
is_at mkt_data (some ref_data) = false
is_at mkt_data (some snapshot) = false
is_at mkt_data none = false
is_at ref_data (some mkt_data) = false
is_at ref_data (some ref_data) = true
is_at ref_data (some snapshot) = false
is_at ref_data none = false
is_at snapshot (some mkt_data) = false
is_at snapshot (some ref_data) = false
is_at snapshot (some snapshot) = true
is_at snapshot none = false

is_at-some : (p : Port) (o : Option Port) → is_at p o ≡ true → o ≡ some p
is_at-some mkt_data o h = ground arith
is_at-some ref_data o h = ground arith
is_at-some snapshot o h = ground arith

is_somewhere : Option Port → Bool
is_somewhere none = false
is_somewhere (some p) = true

known_homes : (feed : Feed) → all (λ t. is_somewhere (home feed t)) (known_types feed) ≡ true
unfolding port_allowed port_types known_types is_somewhere
known_homes tob = refl
known_homes mid = refl
known_homes mbo = refl
known_homes mbp = refl

types_at_home :
    (feed : Feed) (port : Port)
    → all (λ t. is_known feed t && is_at port (home feed t)) (port_types feed port) ≡ true
unfolding is_known known_types port_allowed port_types
types_at_home tob mkt_data = refl
types_at_home tob ref_data = refl
types_at_home tob snapshot = refl
types_at_home mid mkt_data = refl
types_at_home mid ref_data = refl
types_at_home mid snapshot = refl
types_at_home mbo mkt_data = refl
types_at_home mbo ref_data = refl
types_at_home mbo snapshot = refl
types_at_home mbp mkt_data = refl
types_at_home mbp ref_data = refl
types_at_home mbp snapshot = refl

settled :
    (feed : Feed) (typ : ℕ) (port : Port)
    → port_allowed feed typ port ≡ true
    → (is_known feed typ && is_at port (home feed typ)) ≡ true
unfolding port_allowed
settled feed typ port h =
    any-all (λ t. is_known feed t && is_at port (home feed t)) (port_types feed port) typ h
      (types_at_home feed port)

allowed_home :
    (feed : Feed) (typ : ℕ) (port : Port)
    → home feed typ ≡ some port
    → port_allowed feed typ port ≡ true
allowed_home feed typ port h = ground arith

home_found :
    (feed : Feed) (typ : ℕ)
    → is_somewhere (home feed typ) ≡ true
    → (port : Port) × (home feed typ ≡ some port)
unfolding is_somewhere
home_found feed typ h = elim (Option-cases (home feed typ)) [
  | inl e ↦ absurd (ground (arith, e, h))
  | inr found ↦ found
]

-- A type is one of a feed's exactly if there is one port of the feed, and no other, that allows it.
pub is_known-port_allowed :
    (feed : Feed) (typ : ℕ)
    → (is_known feed typ ≡ true)
      ↔ ((port : Port) × ((q : Port) → (port_allowed feed typ q ≡ true) ↔ (port ≡ q)))
unfolding is_known
is_known-port_allowed feed typ = (
  λ h.
      let (port, at) =
        home_found feed typ
          (any-all (λ t. is_somewhere (home feed t)) (known_types feed) typ h (known_homes feed)) in
      (
        port,
        λ q. (
          λ allowed. ground (arith, at, is_at-some q (home feed typ), settled feed typ q allowed),
          λ same. allowed_home feed typ q (ground (arith, at, same)),
        ),
      ),
  λ (port, only). ground (arith, settled feed typ port ((only port).1 refl)),
)

abbrev measured : Feed → ℕ → ℕ → Bool
measured feed schema typ = is_unknown feed schema typ || not (expected_msg_len feed schema typ == 0)

measured_known :
    (feed : Feed)
    → (all (measured feed 1) (known_types feed) ≡ true)
      × ((same_feed feed mid ≡ true) ⊎ (all (measured feed 3) (known_types feed) ≡ true))
unfolding is_known known_types expected_msg_len carries_strike_interval instr_def_layout_for
    instr_def_schema1 instr_def_schema3 instr_def_midpoint
measured_known tob = (refl, inr refl)
measured_known mid = (refl, inl refl)
measured_known mbo = (refl, inr refl)
measured_known mbp = (refl, inr refl)

supported :
    (feed : Feed) (schema : ℕ)
    → schema_supported (magic_for feed) schema ≡ true
    → (1 ≡ schema) ⊎ ((3 ≡ schema) × (same_feed feed mid ≡ false))
unfolding schema_supported supported_schemas magic_for
supported tob schema h = ground arith
supported mid schema h = ground arith
supported mbo schema h = ground arith
supported mbp schema h = ground arith

-- Every message that is not skipped as unknown, in a frame whose schema the feed supports, has a
-- canonical length that is checked.
pub expected_msg_len_known :
    (feed : Feed) (schema typ : ℕ)
    → schema_supported (magic_for feed) schema ≡ true
    → is_unknown feed schema typ ≡ false
    → expected_msg_len feed schema typ ≢ 0
unfolding known_types is_known
expected_msg_len_known feed schema typ s known none_expected =
    ground (arith, is_measured (supported feed schema s), known, none_expected)
  where
    is_there : is_known feed typ ≡ true
    is_there = ground (arith, known)

    at_schema :
        (x : ℕ)
        → x ≡ schema
        → all (measured feed x) (known_types feed) ≡ true
        → measured feed schema typ ≡ true
    at_schema x e a =
        subst (λ y. measured feed y typ ≡ true) e
          (any-all (measured feed x) (known_types feed) typ is_there a)

    is_measured :
        (1 ≡ schema) ⊎ ((3 ≡ schema) × (same_feed feed mid ≡ false))
        → measured feed schema typ ≡ true
    is_measured (inl e) = at_schema 1 e (measured_known feed).0
    is_measured (inr (e, other)) = elim (measured_known feed).1 [
      | inl same ↦ absurd (ground (arith, same, other))
      | inr whole ↦ at_schema 3 e whole
    ]

-- ===== src/Engine/Mbp/Structure.antt =====
-- engine/mbp.go: the structure of a snapshot group.
use edge_feed_spec.Base.{
  ℕ, ◌+◌, ◌%◌, ◌^◌, ◌≤◌, ◌≡◌, ◌≢◌, ◌↔◌, ◌⊎◌, refl, List, [], ◌∷◌, ◌++◌, some, true, false, Bool,
  not, ◌&&◌, ◌==◌, if◌then◌else◌, ltb, leb, length, All, All-append, arith, inl, inr, nat_eq,
  pair_eq,
}
use edge_feed_spec.Base.Int.{int_eq}
use edge_feed_spec.Base.Maps.{length-put}
use edge_feed_spec.Core.Finding.{Status}
use edge_feed_spec.Wire.Header.{Message}
use edge_feed_spec.Engine.Fields.Orders.{
  snapshot_end_instrument_id, snapshot_end_anchor_seq, snapshot_end_snapshot_id,
}
use edge_feed_spec.Engine.MbpBook.{LevelKey}
use edge_feed_spec.Engine.Emit.{Emission}
use edge_feed_spec.Engine.Mbp.{OpenSnap}
use edge_feed_spec.Engine.Mbp.Groups.{mbp_group_status, add_level, note_port_seq}
use edge_feed_spec.Engine.Mbp.Merges.{
  positive_iff, Blameless, structure_if-Blameless, MayMerge, count-Blameless_iff,
  repeat-Blameless_iff,
}
use edge_feed_spec.Engine.Mbp.Finish.{end_findings, structure_if, merge_shape, merged}

append-nil_iff {ℓ} : {A : Type ℓ} (xs ys : List A) → (xs ++ ys ≡ []) ↔ ((xs ≡ []) × (ys ≡ []))
append-nil_iff [] ys = (λ h. (refl, h), λ (_, h). h)
append-nil_iff (x ∷ xs) ys = (λ h. cc, λ (h, _). cc)

structure_if-nil_iff :
    (defect : Bool) (st : Status) (seq ch instrument : ℕ)
    → (structure_if defect st seq ch instrument ≡ []) ↔ (defect ≡ false)
structure_if-nil_iff true st seq ch instrument = (λ h. cc, λ h. cc)
structure_if-nil_iff false st seq ch instrument = (λ _. refl, λ _. refl)

-- The End of the group that was opened, with the levels that the Begin declared, each once.
pub record IsWellFormed (o : OpenSnap) (m : Message) : Type 0 where
  pub same_instrument : snapshot_end_instrument_id m ≡ o.key.1
  pub same_anchor : snapshot_end_anchor_seq m ≡ o.anchor
  pub same_snapshot : snapshot_end_snapshot_id m ≡ o.snap_id
  pub complete : o.count ≡ o.total
  pub no_repeat : o.dup_keys ≡ 0

not_same_iff : (x y : ℕ) → (not (x == y) ≡ false) ↔ (x ≡ y)
not_same_iff x y = ground arith

module _ (snap_dirty : Bool) (ch seq : ℕ) (o : OpenSnap) (m : Message) where
  -- An End finds nothing to report exactly if it names the open group's instrument, anchor and
  -- snapshot, and the group has as many levels as it declared and no level twice.
  pub end_findings-nil_iff : (end_findings snap_dirty ch seq o m ≡ []) ↔ IsWellFormed o m
  unfolding end_findings
  end_findings-nil_iff = (
    λ h.
        let (h1, r1) = (append-nil_iff _ _).0 h in
        let (h2, r2) = (append-nil_iff _ _).0 r1 in
        let (h3, r3) = (append-nil_iff _ _).0 r2 in
        let (h4, h5) = (append-nil_iff _ _).0 r3 in
        record {
          same_instrument = (not_same_iff _ _).0 ((structure_if-nil_iff _ _ _ _ _).0 h1);
          same_anchor = (not_same_iff _ _).0 ((structure_if-nil_iff _ _ _ _ _).0 h2);
          same_snapshot = (not_same_iff _ _).0 ((structure_if-nil_iff _ _ _ _ _).0 h3);
          complete = (not_same_iff _ _).0 ((structure_if-nil_iff _ _ _ _ _).0 h4);
          no_repeat = (positive_iff _).0 ((structure_if-nil_iff _ _ _ _ _).0 h5);
        },
    λ w. (append-nil_iff _ _).1 (
      (structure_if-nil_iff _ _ _ _ _).1 ((not_same_iff _ _).1 w.same_instrument),
      (append-nil_iff _ _).1 (
        (structure_if-nil_iff _ _ _ _ _).1 ((not_same_iff _ _).1 w.same_anchor),
        (append-nil_iff _ _).1 (
          (structure_if-nil_iff _ _ _ _ _).1 ((not_same_iff _ _).1 w.same_snapshot),
          (append-nil_iff _ _).1 (
            (structure_if-nil_iff _ _ _ _ _).1 ((not_same_iff _ _).1 w.complete),
            (structure_if-nil_iff _ _ _ _ _).1 ((positive_iff _).1 w.no_repeat),
          ),
        ),
      ),
    ),
  )

-- Loss that the tool saw, in the group or in the channel's snapshot series.
abbrev pub Lossy : Bool → OpenSnap → Type 0
Lossy snap_dirty o = (snap_dirty ≡ true) ⊎ (o.dirty ≡ true)

All-five :
    (a b c d e : List Emission)
    → All Blameless a
    → All Blameless b
    → All Blameless c
    → All Blameless d
    → All Blameless e
    → All Blameless (a ++ (b ++ (c ++ (d ++ e))))
All-five a b c d e pa pb pc pd pe = All-append Blameless a (b ++ (c ++ (d ++ e))) pa (
    All-append Blameless b (c ++ (d ++ e)) pb
      (All-append Blameless c (d ++ e) pc (All-append Blameless d e pd pe)))

gated-Lossy :
    (snap_dirty : Bool) (o : OpenSnap)
    → Lossy snap_dirty o
    → mbp_group_status snap_dirty (some o) ≢ Status.violation
unfolding mbp_group_status
gated-Lossy snap_dirty o h e = ground arith

-- The two defects that loss alone does not make, outside a merge: more levels than declared, and a
-- level twice.
pub LossExplains : OpenSnap → Message → Type 0
LossExplains o m =
    ((o.count ≤ o.total) ⊎ (MayMerge o m × (o.clean_count ≤ o.total)))
    × ((o.dup_keys ≡ 0) ⊎ (MayMerge o m × (o.clean_dup_keys ≡ 0)))

All-right {ℓ} : {A : Type ℓ} (P : A → Type 0) (xs ys : List A) → All P (xs ++ ys) → All P ys
All-right P [] ys h = h
All-right P (x ∷ xs) ys h = All-right P xs ys h.1

All-left {ℓ} : {A : Type ℓ} (P : A → Type 0) (xs ys : List A) → All P (xs ++ ys) → All P xs
All-left P [] ys h = tt
All-left P (x ∷ xs) ys h = (h.0, All-left P xs ys h.1)

-- When the tool saw loss in a group or in its channel's snapshot series, its End is charged with no
-- violation exactly if loss can explain the group's levels: they are no more than declared and none
-- is repeated, or the group met a gap and the End is another instrument's under the same Snapshot
-- ID, and the levels from before the gap show no such defect. Whatever else the End names, and
-- however many levels are missing, is then no violation.
pub end_findings-Lossy :
    (snap_dirty : Bool) (ch seq : ℕ) (o : OpenSnap) (m : Message)
    → Lossy snap_dirty o
    → All (λ e. e.status ≢ Status.violation) (end_findings snap_dirty ch seq o m) ↔ LossExplains o m
unfolding end_findings Blameless LossExplains
end_findings-Lossy snap_dirty ch seq o m lossy = (
  λ h.
      let last =
        All-right Blameless a3 _
          (All-right Blameless a2 _ (All-right Blameless a1 (a2 ++ (a3 ++ (a4 ++ a5))) h)) in
      (counted.0 (All-left Blameless a4 a5 last), repeated.0 (All-right Blameless a4 a5 last)),
  λ (few, once).
      All-five a1 a2 a3 a4 a5
        (structure_if-Blameless _ gate seq ch (snapshot_end_instrument_id m) gated)
        (structure_if-Blameless _ gate seq ch o.key.1 gated)
        (structure_if-Blameless _ gate seq ch o.key.1 gated) (counted.1 few) (repeated.1 once),
)
  where
    gate : Status
    gate = mbp_group_status snap_dirty (some o)

    gated : gate ≢ Status.violation
    gated = gated-Lossy snap_dirty o lossy

    a1 : List Emission
    a1 =
        structure_if (not (snapshot_end_instrument_id m == o.key.1)) gate seq ch
          (snapshot_end_instrument_id m)

    a2 : List Emission
    a2 = structure_if (not (snapshot_end_anchor_seq m == o.anchor)) gate seq ch o.key.1

    a3 : List Emission
    a3 = structure_if (not (snapshot_end_snapshot_id m == o.snap_id)) gate seq ch o.key.1

    a4 : List Emission
    a4 =
        structure_if (not (o.count == o.total))
          (if ltb o.count o.total
            then gate
            else merged (merge_shape o m && leb o.clean_count o.total) gate)
          seq ch o.key.1

    a5 : List Emission
    a5 =
        structure_if (ltb 0 o.dup_keys) (merged (merge_shape o m && (o.clean_dup_keys == 0)) gate)
          seq ch o.key.1

    counted : All Blameless a4 ↔ ((o.count ≤ o.total) ⊎ (MayMerge o m × (o.clean_count ≤ o.total)))
    counted = count-Blameless_iff gate gated o m seq ch o.key.1

    repeated : All Blameless a5 ↔ ((o.dup_keys ≡ 0) ⊎ (MayMerge o m × (o.clean_dup_keys ≡ 0)))
    repeated = repeat-Blameless_iff gate gated o m seq ch o.key.1

-- The levels counted, the ones that stand in the map, and the repeats.
abbrev pub IsCounted : OpenSnap → Type 0
IsCounted o = o.count ≡ (length o.levels + o.dup_keys) % 2 ^ 32

-- A group whose counter is, modulo 2^32, the number of its levels and of its repeats has it so after
-- a further frame and after a further level of any key and quantity.
pub groups_count :
    (o : OpenSnap) (key : LevelKey) (qty seq : ℕ)
    → IsCounted o
    → IsCounted (note_port_seq o seq) × IsCounted (add_level o key qty)
unfolding note_port_seq add_level
groups_count o key qty seq h = (
  ground (arith, h),
  elim (length-put key qty o.levels) [
    | inl (absent, longer) ↦ rw absent (omega (arith, longer, h))
    | inr (w, there, same) ↦ rw there (omega (arith, same, h))
  ],
)

-- ===== src/Engine/Mbp/Merges.antt =====
-- engine/mbp.go: the merge of two snapshot groups that the loss of an End and a Begin makes.
use edge_feed_spec.Base.{
  ℕ, ◌≤◌, ◌≡◌, ◌≢◌, ◌↔◌, ◌⊎◌, refl, sym, ap, subst, if_true, if_false, true, false, Bool, not, ◌&&◌,
  ◌==◌, if◌then◌else◌, ltb, leb, All, arith, Bool-cases, inl, inr, nat_eq, pair_eq,
}
use edge_feed_spec.Base.Int.{int_eq}
use edge_feed_spec.Core.Finding.{Status}
use edge_feed_spec.Wire.Header.{Message}
use edge_feed_spec.Engine.Fields.Orders.{snapshot_end_instrument_id, snapshot_end_snapshot_id}
use edge_feed_spec.Engine.Emit.{Emission}
use edge_feed_spec.Engine.Mbp.{OpenSnap}
use edge_feed_spec.Engine.Mbp.Finish.{structure_if, merge_shape, merged}

pub positive_iff : (x : ℕ) → (ltb 0 x ≡ false) ↔ (x ≡ 0)
positive_iff x = ground arith

unfoldable pub Blameless : Emission → Type 0
Blameless e = e.status ≢ Status.violation

pub structure_if-Blameless :
    (defect : Bool) (st : Status) (seq ch instrument : ℕ)
    → st ≢ Status.violation
    → All Blameless (structure_if defect st seq ch instrument)
unfolding Blameless
structure_if-Blameless true st seq ch instrument h = (h, tt)
structure_if-Blameless false st seq ch instrument h = tt

structure_if-Blameless_iff :
    (defect : Bool) (st : Status) (seq ch instrument : ℕ)
    → All Blameless (structure_if defect st seq ch instrument)
      ↔ ((defect ≡ false) ⊎ (st ≢ Status.violation))
unfolding Blameless
structure_if-Blameless_iff true st seq ch instrument =
    (λ h. inr h.0, λ h. elim h [ inl e ↦ cc | inr other ↦ (other, tt) ])
structure_if-Blameless_iff false st seq ch instrument = (λ _. inl refl, λ _. tt)

-- The shape in which the loss of an End and of the next Begin merges two groups of one Snapshot ID:
-- the open group met a gap, and the End is another instrument's under the same ID.
pub record MayMerge (o : OpenSnap) (m : Message) : Type 0 where
  pub gap : o.dirty ≡ true
  pub foreign : snapshot_end_instrument_id m ≢ o.key.1
  pub same_id : snapshot_end_snapshot_id m ≡ o.snap_id

merge_shape_iff : (o : OpenSnap) (m : Message) → (merge_shape o m ≡ true) ↔ MayMerge o m
unfolding merge_shape
merge_shape_iff o m = (
  λ h. record { gap = ground arith; foreign = ground arith; same_id = ground arith },
  λ w. ground (arith, w.gap, w.foreign, w.same_id),
)

-- What the levels from before the gap leave to the loss.
merged-Blameless_iff :
    (merge clean : Bool) (gate : Status)
    → gate ≢ Status.violation
    → (merged (merge && clean) gate ≢ Status.violation) ↔ ((merge ≡ true) × (clean ≡ true))
merged-Blameless_iff true true gate h = (λ _. (refl, refl), λ _. h)
merged-Blameless_iff true false gate h = (λ e. absurd (e refl), λ e. cc)
merged-Blameless_iff false clean gate h = (λ e. absurd (e refl), λ e. cc)

module _ (gate : Status) (gated : gate ≢ Status.violation) (o : OpenSnap) (m : Message)
    (seq ch instrument : ℕ) where
  -- What `merged` leaves blameless is a merge whose part before the gap is clean.
  clean_iff :
      (clean : Bool)
      → (merged (merge_shape o m && clean) gate ≢ Status.violation)
        ↔ (MayMerge o m × (clean ≡ true))
  clean_iff clean =
      let (there, back) = merged-Blameless_iff (merge_shape o m) clean gate gated in
      let (shape, shaped) = merge_shape_iff o m in
      (λ h. (shape (there h).0, (there h).1), λ (w, c). back (shaped w, c))

  pub count-Blameless_iff :
      All Blameless (
        structure_if
          (not (o.count == o.total))
          (if ltb o.count o.total
            then gate
            else merged (merge_shape o m && leb o.clean_count o.total) gate)
          seq
          ch
          instrument)
      ↔ ((o.count ≤ o.total) ⊎ (MayMerge o m × (o.clean_count ≤ o.total)))
  count-Blameless_iff =
      let over = merged (merge_shape o m && leb o.clean_count o.total) gate in
      let (there, back) =
        structure_if-Blameless_iff (not (o.count == o.total))
          (if ltb o.count o.total then gate else over) seq ch instrument in
      let (clean, cleaned) = clean_iff (leb o.clean_count o.total) in
      elim (Bool-cases (leb o.count o.total)) [
        | inl few ↦ (
          λ _. inl (ground arith),
          λ _. back (elim (Bool-cases (o.count == o.total)) [
            | inl same ↦ inl (ap not same)
            | inr other ↦ inr (
                subst (λ st. st ≢ Status.violation) (sym (if_true gate over _ (ground arith)))
                  gated)
          ]),
        )
        | inr many ↦
            let beyond : ltb o.count o.total ≡ false = ground arith in
            (
              λ h. elim (there h) [
                | inl same ↦ absurd (ground arith)
                | inr free ↦
                    let (w, c) =
                      clean
                        (subst (λ st. st ≢ Status.violation) (if_false gate over _ beyond) free) in
                    inr (w, ground arith)
              ],
              λ h. elim h [
                | inl few ↦ absurd (ground arith)
                | inr (w, c) ↦ back (
                    inr (
                      subst (λ st. st ≢ Status.violation) (sym (if_false gate over _ beyond))
                        (cleaned (w, ground arith))))
              ],
            )
      ]

  pub repeat-Blameless_iff :
      All Blameless (
        structure_if
          (ltb 0 o.dup_keys)
          (merged (merge_shape o m && (o.clean_dup_keys == 0)) gate)
          seq
          ch
          instrument)
      ↔ ((o.dup_keys ≡ 0) ⊎ (MayMerge o m × (o.clean_dup_keys ≡ 0)))
  repeat-Blameless_iff =
      let (there, back) =
        structure_if-Blameless_iff (ltb 0 o.dup_keys)
          (merged (merge_shape o m && (o.clean_dup_keys == 0)) gate) seq ch instrument in
      let (clean, cleaned) = clean_iff (o.clean_dup_keys == 0) in
      (
        λ h. elim (there h) [
          | inl once ↦ inl ((positive_iff o.dup_keys).0 once)
          | inr free ↦ let (w, c) = clean free in inr (w, ground arith)
        ],
        λ h. elim h [
          | inl once ↦ back (inl ((positive_iff o.dup_keys).1 once))
          | inr (w, c) ↦ back (inr (cleaned (w, ground arith)))
        ],
      )

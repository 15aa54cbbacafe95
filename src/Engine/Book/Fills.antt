-- ===== src/Engine/Book/Fills.antt =====
-- Quantity conservation: what an execution does to the order that it names and to the others.
use edge_feed_spec.Base.{
  ℕ, ◌+◌, ◌≤◌, ◌<◌, ◌≡◌, ◌≢◌, ◌↔◌, refl, ◌∙◌, ◌⊎◌, inl, inr, Option, none, some, Bool, true, false,
  ltb, ◌==◌, ==_iff, arith, Bool-cases, nat_eq, ◌-◌, ltb→lt, ltb-false,
}
use edge_feed_spec.Base.Exec.{done, Finishes, Finishes-value, >>=-Finishes}
use edge_feed_spec.Base.Maps.{lookup, put, delete, lookup-put, lookup-delete}
use edge_feed_spec.Engine.IdWindow
use edge_feed_spec.Engine.IdWindow.Invariant.{add-IsValid}
use edge_feed_spec.Engine.Book.{
  BookError, LiveOrder, InstrBook, retire, fill, apply_order_execute, returning, overfill,
  full_fill_disagree,
}
use edge_feed_spec.Engine.Book.Invariant.{IsConsistent, HasRoom}

-- The quantity that still rests under an ID.
unfoldable pub left : InstrBook → ℕ → ℕ
left bk id = elim (lookup id bk.live) [ none ↦ 0 | some lo ↦ lo.remaining ]

-- What an execution of a live visible order must do.
pub record Outcome (bk : InstrBook) (id : ℕ) (lo : LiveOrder) (qty : ℕ) (full : Bool)
    (r : InstrBook × Option BookError) : Type 0 where
  pub clean_iff : (r.1 ≡ none) ↔ ((qty ≤ lo.remaining) × ((full ≡ false) ⊎ (qty ≡ lo.remaining)))
  pub overfill_iff : (r.1 ≡ some overfill) ↔ (lo.remaining < qty)
  pub conserved : (r.1 ≢ none) ⊎ (left r.0 id + qty ≡ lo.remaining)
  pub gone_iff : (lookup id r.0.live ≡ none) ↔ ((full ≡ true) ⊎ (qty ≡ lo.remaining))
  pub others : (j : ℕ) → (id ≡ j) ⊎ (lookup j r.0.live ≡ lookup j bk.live)

module _ (bk : InstrBook) (id : ℕ) (lo : LiveOrder) (qty : ℕ) (c : IsConsistent bk)
    (room : HasRoom bk) (live : lookup id bk.live ≡ some lo) where
  retire_live : Finishes (retire bk id) (λ bk'. bk'.live ≡ delete id bk.live)
  unfolding retire
  retire_live =
      let (w, e, v) =
        Finishes-value (IdWindow.add bk.removed id) _
          (add-IsValid bk.removed id c.removed_valid room.removed_room) in
      rw e refl

  delete_others : (j : ℕ) → (id ≡ j) ⊎ (lookup j (delete id bk.live) ≡ lookup j bk.live)
  delete_others j = ground (arith, lookup-delete id j bk.live)

  gone_id : lookup id (delete id bk.live) ≡ none
  gone_id = lookup-delete id id bk.live ∙ rw ((==_iff id id).1 refl) refl

  -- The outcome, from what becomes of the live orders.
  Outcome-gone :
      (full : Bool) (e : Option BookError) (bk' : InstrBook)
      → bk'.live ≡ delete id bk.live
      → ((e ≢ none) ⊎ (qty ≡ lo.remaining))
      → ((full ≡ true) ⊎ (qty ≡ lo.remaining))
      → ((e ≡ none) ↔ ((qty ≤ lo.remaining) × ((full ≡ false) ⊎ (qty ≡ lo.remaining))))
      → ((e ≡ some overfill) ↔ (lo.remaining < qty))
      → Outcome bk id lo qty full (bk', e)
  Outcome-gone full e bk' same zero why clean over = record {
    clean_iff = clean;
    overfill_iff = over;
    conserved = elim zero [ inl h ↦ inl h | inr h ↦ inr (omega (arith, none_left)) ];
    gone_iff = (λ _. why, λ _. rw same gone_id);
    others = λ j. rw same (delete_others j);
  }
    where
      none_left : left bk' id ≡ 0
      none_left = unfold left in rw (same, gone_id, left) refl

  retired :
      (full : Bool) (e : Option BookError)
      → ((e ≢ none) ⊎ (qty ≡ lo.remaining))
      → ((full ≡ true) ⊎ (qty ≡ lo.remaining))
      → ((e ≡ none) ↔ ((qty ≤ lo.remaining) × ((full ≡ false) ⊎ (qty ≡ lo.remaining))))
      → ((e ≡ some overfill) ↔ (lo.remaining < qty))
      → Finishes (returning e (retire bk id)) (Outcome bk id lo qty full)
  retired full e zero why clean over =
      >>=-Finishes (retire bk id) (λ bk'. done (bk', e)) _ (Outcome bk id lo qty full) retire_live
        (λ bk' same. Outcome-gone full e bk' same zero why clean over)

  fill_full : Finishes (fill bk id lo qty true) (Outcome bk id lo qty true)
  unfolding fill
  fill_full = elim (Bool-cases (ltb lo.remaining qty)) [
    | inl over ↦ rw over (
        retired true (some overfill) (inl (λ h. cc)) (inl refl)
          (λ h. cc, λ h. absurd (omega (arith, ltb→lt _ _ over))) (λ _. ltb→lt _ _ over, λ _. refl))
    | inr fits ↦ elim (Bool-cases (qty == lo.remaining)) [
      | inr e ↦
          rw (fits, e)
            (retired true (some full_fill_disagree) (inl (λ h. cc)) (inl refl)
              (λ h. cc, λ h. ground (arith, h.1)) (λ h. cc, λ h. ground arith))
      | inl e ↦
          rw (fits, e)
            (retired true none (inr ((==_iff _ _).0 e)) (inl refl)
              (λ _. (ltb-false _ _ fits, inr ((==_iff _ _).0 e)), λ _. refl)
              (λ h. cc, λ h. ground arith))
    ]
  ]

  fill_partial : Finishes (fill bk id lo qty false) (Outcome bk id lo qty false)
  unfolding fill left
  fill_partial = elim (Bool-cases (ltb lo.remaining qty)) [
    | inl over ↦ rw over (record {
      clean_iff = (λ h. cc, λ h. absurd (omega (arith, ltb→lt _ _ over)));
      overfill_iff = (λ _. ltb→lt _ _ over, λ _. refl);
      conserved = inl (λ h. cc);
      gone_iff = (λ h. cc live, λ h. ground arith);
      others = λ j. inr refl;
    })
    | inr fits ↦ elim (Bool-cases (lo.remaining - qty == 0)) [
      | inl e ↦
          rw (fits, e)
            (retired false none (inr (ground arith)) (inr (ground arith))
              (λ _. (ltb-false _ _ fits, inl refl), λ _. refl) (λ h. cc, λ h. ground arith))
      | inr e ↦
          rw (fits, e)
            (record {
              clean_iff = (λ _. (ltb-false _ _ fits, inl refl), λ _. refl);
              overfill_iff = (λ h. cc, λ h. ground arith);
              conserved = inr (rw (stays, left) (ground arith));
              gone_iff = (λ h. cc stays, λ h. ground arith);
              others = λ j. ground (arith, lookup-put id rest j bk.live);
            })
    ]
  ]
    where
      rest : LiveOrder
      rest = record lo { remaining = lo.remaining - qty }

      stays : lookup id (put id rest bk.live) ≡ some rest
      stays = lookup-put id rest id bk.live ∙ rw ((==_iff id id).1 refl) refl

-- The execution of a live order of a consistent book reports no error exactly if the quantity does
-- not pass what remains and, with the full-fill flag, equals it; it reports an overfill exactly if
-- the quantity passes what remains. Without an error what is left and the quantity make up what
-- remained; the order leaves the book exactly if it is flagged or filled; no other order changes.
pub execute_Outcome :
    (bk : InstrBook) (id : ℕ) (lo : LiveOrder) (qty : ℕ) (full : Bool)
    → IsConsistent bk
    → HasRoom bk
    → lookup id bk.live ≡ some lo
    → Finishes (apply_order_execute bk id qty full) (Outcome bk id lo qty full)
unfolding apply_order_execute
execute_Outcome bk id lo qty true c room live =
    rw (live, apply_order_execute, c.visible id lo live) (fill_full bk id lo qty c room live)
execute_Outcome bk id lo qty false c room live =
    rw (live, apply_order_execute, c.visible id lo live) (fill_partial bk id lo qty c room live)

-- ===== src/Engine/Oracle/Books.antt =====
-- The difference of a snapshot and a book.
use edge_feed_spec.Base.{
  ℕ, ◌≡◌, ◌↔◌, refl, sym, ap, subst, if_false, ◌∙◌, ◌⊎◌, inl, inr, List, [], ◌∷◌, ◌++◌, Option,
  none, some, true, false, not, ◌==◌, ==_iff, arith, Bool-cases, Option-cases, nat_eq,
  if◌then◌else◌,
}
use edge_feed_spec.Base.Int.{ℤ, eqb_ℤ, eqb_ℤ-iff}
use edge_feed_spec.Base.Maps.{lookup, Distinct}
use edge_feed_spec.Engine.Book.{RestingOrder, is_hidden}
use edge_feed_spec.Engine.Oracle.{
  SnapOrderRecord, OracleDiff, DiffField, of_side, of_price, of_qty, of_flags, of_enter_ts, flag_if,
  field_diffs, snap_order_diffs, delta_order_diffs, each_entry, diff_books,
}

append-nil_iff {ℓ} : {A : Type ℓ} (xs ys : List A) → (xs ++ ys ≡ []) ↔ ((xs ≡ []) × (ys ≡ []))
append-nil_iff [] ys = (λ h. (refl, h), λ (_, h). h)
append-nil_iff (x ∷ xs) ys = (λ h. cc, λ (h, _). cc)

module _ {V : Type 0} (f : ℕ → V → List OracleDiff) where
  each_entry-found :
      (m : List (ℕ × V)) → each_entry f m ≡ [] → (k : ℕ) (v : V) → lookup k m ≡ some v → f k v ≡ []
  unfolding lookup
  each_entry-found [] h k v e = cc
  each_entry-found ((j, w) ∷ m) h k v e =
      let (here, rest) = (append-nil_iff (f j w) (each_entry f m)).0 h in
      elim (Bool-cases (j == k)) [
        | inl same ↦ ground (arith, here, (==_iff j k).0 same)
        | inr other ↦ each_entry-found m rest k v (ground arith)
      ]

  each_entry-nil :
      (m : List (ℕ × V))
      → Distinct m
      → ((k : ℕ) (v : V) → lookup k m ≡ some v → f k v ≡ [])
      → each_entry f m ≡ []
  unfolding lookup
  each_entry-nil [] d h = refl
  each_entry-nil ((j, w) ∷ m) d h = (append-nil_iff (f j w) (each_entry f m)).1 (
    h j w (rw ((==_iff j j).1 refl) refl),
    each_entry-nil m d.1 (λ k v e. h k v (elim (Bool-cases (j == k)) [
      | inl same ↦ ground (arith, d.0, (==_iff j k).0 same)
      | inr other ↦ rw other e
    ])),
  )

-- The same order in both books.
pub record SameOrder (so : SnapOrderRecord) (d : RestingOrder) : Type 0 where
  pub side : so.side ≡ d.side
  pub price : so.price ≡ d.price
  pub qty : so.qty ≡ d.remaining
  pub flags : so.order_flags ≡ d.order_flags
  pub ts : so.enter_ts ≡ d.enter_ts

-- What the two books may hold under one order ID: a snapshot order that is hidden with anything, a
-- visible one with the same order, no snapshot order with none or a hidden one.
abbrev pub Agrees : Option SnapOrderRecord → Option RestingOrder → Type 0
Agrees (some so) delta =
    (is_hidden so.order_flags ≡ true) ⊎ ((d : RestingOrder) × (delta ≡ some d) × SameOrder so d)
Agrees none (some d) = is_hidden d.order_flags ≡ true
Agrees none none = Unit {0}

five-nil_iff :
    (a b c d e : List OracleDiff)
    → (a ++ (b ++ (c ++ (d ++ e))) ≡ []) ↔ ((a ≡ []) × (b ≡ []) × (c ≡ []) × (d ≡ []) × (e ≡ []))
five-nil_iff [] [] [] [] e = (λ h. (refl, refl, refl, refl, h), λ h. h.4)
five-nil_iff [] [] [] (x ∷ d) e = (λ h. ground arith, λ h. ground arith)
five-nil_iff [] [] (x ∷ c) d e = (λ h. ground arith, λ h. ground arith)
five-nil_iff [] (x ∷ b) c d e = (λ h. ground arith, λ h. ground arith)
five-nil_iff (x ∷ a) b c d e = (λ h. ground arith, λ h. ground arith)

differs-nil_iff : (x y id : ℕ) (f : DiffField) → (flag_if (not (x == y)) id f ≡ []) ↔ (x ≡ y)
differs-nil_iff x y id f = (λ h. ground (arith, h), λ h. ground (arith, h))

price_differs-nil_iff :
    (x y : ℤ) (id : ℕ) (f : DiffField) → (flag_if (not (eqb_ℤ x y)) id f ≡ []) ↔ (x ≡ y)
price_differs-nil_iff x y id f = elim (Bool-cases (eqb_ℤ x y)) [
  | inl e ↦ rw e (λ _. (eqb_ℤ-iff x y).0 e, λ _. refl)
  | inr e ↦ rw e (λ h. cc, λ h. ground (arith, (eqb_ℤ-iff x y).1 h, e))
]

field_diffs-nil_iff :
    (id : ℕ) (so : SnapOrderRecord) (d : RestingOrder)
    → is_hidden so.order_flags ≡ false
    → (field_diffs id so d ≡ []) ↔ SameOrder so d
unfolding field_diffs
field_diffs-nil_iff id so d shown = (
  λ h.
      let (side, price, qty, flags, ts) = parts.0 h in
      let same : so.order_flags ≡ d.order_flags =
        (differs-nil_iff so.order_flags d.order_flags id of_flags).0 flags in
      record {
        side = (differs-nil_iff so.side d.side id of_side).0 side;
        price = (price_differs-nil_iff so.price d.price id of_price).0 price;
        qty =
            (differs-nil_iff so.qty d.remaining id of_qty).0
              (sym (if_false _ _ _ (visible same)) ∙ qty);
        flags = same;
        ts = (differs-nil_iff so.enter_ts d.enter_ts id of_enter_ts).0 ts;
      },
  λ s. parts.1 (
    (differs-nil_iff so.side d.side id of_side).1 s.side,
    (price_differs-nil_iff so.price d.price id of_price).1 s.price,
    if_false _ _ _ (visible s.flags) ∙ (differs-nil_iff so.qty d.remaining id of_qty).1 s.qty,
    (differs-nil_iff so.order_flags d.order_flags id of_flags).1 s.flags,
    (differs-nil_iff so.enter_ts d.enter_ts id of_enter_ts).1 s.ts,
  ),
)
  where
    visible : so.order_flags ≡ d.order_flags → is_hidden d.order_flags ≡ false
    visible same = ap is_hidden (sym same) ∙ shown

    parts : (field_diffs id so d ≡ []) ↔ (
        (flag_if (not (so.side == d.side)) id of_side ≡ [])
        × (flag_if (not (eqb_ℤ so.price d.price)) id of_price ≡ [])
        × ((if is_hidden d.order_flags then [] else flag_if (not (so.qty == d.remaining)) id of_qty)
            ≡ [])
        × (flag_if (not (so.order_flags == d.order_flags)) id of_flags ≡ [])
        × (flag_if (not (so.enter_ts == d.enter_ts)) id of_enter_ts ≡ []))
    parts =
        five-nil_iff (flag_if (not (so.side == d.side)) id of_side)
          (flag_if (not (eqb_ℤ so.price d.price)) id of_price)
          (if is_hidden d.order_flags then [] else flag_if (not (so.qty == d.remaining)) id of_qty)
          (flag_if (not (so.order_flags == d.order_flags)) id of_flags)
          (flag_if (not (so.enter_ts == d.enter_ts)) id of_enter_ts)

-- A round of the first loop finds nothing exactly if the books agree on the order.
snap_order_diffs-nil_iff :
    (delta : List (ℕ × RestingOrder)) (id : ℕ) (so : SnapOrderRecord)
    → (snap_order_diffs delta id so ≡ []) ↔ Agrees (some so) (lookup id delta)
unfolding snap_order_diffs
snap_order_diffs-nil_iff delta id so = elim (Bool-cases (is_hidden so.order_flags)) [
  | inl hidden ↦ rw hidden (λ _. inl refl, λ _. refl)
  | inr shown ↦ elim (Option-cases (lookup id delta)) [
    | inl e ↦ rw (shown, e) (λ h. cc, λ h. ground (arith, h))
    | inr (d, e) ↦
        let (found, back) = field_diffs-nil_iff id so d shown in
        rw (shown, e) (λ h. inr (d, refl, found h), λ h. back (ground (arith, h)))
  ]
]

delta_order_diffs-nil_iff :
    (snap : List (ℕ × SnapOrderRecord)) (id : ℕ) (d : RestingOrder)
    → (delta_order_diffs snap id d ≡ [])
      ↔ ((is_hidden d.order_flags ≡ true) ⊎ ((so : SnapOrderRecord) × (lookup id snap ≡ some so)))
unfolding delta_order_diffs
delta_order_diffs-nil_iff snap id d = elim (Bool-cases (is_hidden d.order_flags)) [
  | inl hidden ↦ rw hidden (λ _. inl refl, λ _. refl)
  | inr shown ↦ elim (Option-cases (lookup id snap)) [
    | inl e ↦ rw (shown, e) (λ h. cc, λ h. ground (arith, h))
    | inr (so, e) ↦ rw (shown, e) (λ _. inr (so, refl), λ _. refl)
  ]
]

-- For a snapshot and a book with one entry for each order ID, the oracle's difference is empty
-- exactly if they agree on every ID: a visible order of either stands in both with the same side,
-- price, quantity, flags and time, but a hidden snapshot order hides whatever the book has.
pub diff_books-eq-nil_iff :
    (snap : List (ℕ × SnapOrderRecord)) (delta : List (ℕ × RestingOrder))
    → Distinct snap
    → Distinct delta
    → (diff_books snap delta ≡ []) ↔ ((id : ℕ) → Agrees (lookup id snap) (lookup id delta))
unfolding diff_books
diff_books-eq-nil_iff snap delta ds dd = (
  λ h id.
      let (h1, h2) =
        (append-nil_iff (each_entry (snap_order_diffs delta) snap)
            (each_entry (delta_order_diffs snap) delta)).0
          h in
      agree id (each_entry-found (snap_order_diffs delta) snap h1)
        (each_entry-found (delta_order_diffs snap) delta h2),
  λ h.
      (append-nil_iff (each_entry (snap_order_diffs delta) snap)
          (each_entry (delta_order_diffs snap) delta)).1
        (
          each_entry-nil (snap_order_diffs delta) snap ds (λ id so e.
              (snap_order_diffs-nil_iff delta id so).1
                (subst (λ o. Agrees o (lookup id delta)) e (h id))),
          each_entry-nil (delta_order_diffs snap) delta dd (λ id d e.
              (delta_order_diffs-nil_iff snap id d).1
                (held id d (subst (λ o. Agrees (lookup id snap) o) e (h id)))),
        ),
)
  where
    agree :
        (id : ℕ)
        → ((k : ℕ) (so : SnapOrderRecord)
            → lookup k snap ≡ some so
            → snap_order_diffs delta k so ≡ [])
        → ((k : ℕ) (d : RestingOrder) → lookup k delta ≡ some d → delta_order_diffs snap k d ≡ [])
        → Agrees (lookup id snap) (lookup id delta)
    agree id f g = elim (Option-cases (lookup id snap)) [
      | inr (so, e) ↦ rw e ((snap_order_diffs-nil_iff delta id so).0 (f id so e))
      | inl e ↦ elim (Option-cases (lookup id delta)) [
        | inl e2 ↦ rw (e, e2) tt
        | inr (d, e2) ↦
            rw (e, e2) (ground (arith, (delta_order_diffs-nil_iff snap id d).0 (g id d e2), e))
      ]
    ]

    held :
        (id : ℕ) (d : RestingOrder)
        → Agrees (lookup id snap) (some d)
        → (is_hidden d.order_flags ≡ true) ⊎ ((so : SnapOrderRecord) × (lookup id snap ≡ some so))
    held id d a = elim (Option-cases (lookup id snap)) [
      | inr (so, e) ↦ inr (so, e)
      | inl e ↦ inl (subst (λ o. Agrees o (some d)) e a)
    ]

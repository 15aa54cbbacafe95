-- ===== src/Engine/IdWindow/Invariant.antt =====
-- engine/idwindow.go: the bounds of the window and of its queue.
use edge_feed_spec.Base.{
  ℕ, ◌+◌, ◌*◌, ◌%◌, ◌≤◌, ◌<◌, ◌≡◌, refl, sym, ◌∙◌, ◌==◌, subst₂, List, [], ◌∷◌, some, true, ltb,
  ltb→lt, ltb-false, le→ltb-false, length, length-filter_by-le, nat_eq, arith, Bool-cases, inl, inr,
  leb, subst, ==_iff,
}
use edge_feed_spec.Base.Exec.{Finishes, >>=-Finishes, Finishes-map}
use edge_feed_spec.Base.Maps.{
  lookup, Distinct, lookup-put, put-Distinct, lookup-delete, delete-Distinct, length-delete,
}
use edge_feed_spec.Engine.IdWindow.{
  Entry, IdWindow, u64_mod, new_window, is_current, drop_oldest, evict_loop, compact, enlist, add,
  remove, has,
}
use edge_feed_spec.Engine.IdWindow.Entries.{
  Rising, Rising-append, Rising-filter_by, Rising-lower, Rising-lt, Holds, Holds-append, Holds-last,
  Holds-filter_by, Covered, Covered-without, without, without-Distinct, lookup-without,
  is_current_iff, length-filter_by-current,
}

pub record IsValid (w : IdWindow) : Type 0 where
  pub positive : 1 ≤ w.limit
  pub distinct : Distinct w.members
  pub covered : Covered w.members w.pending
  pub rising : Rising 0 w.pending w.next
  pub small : length w.members ≤ w.limit
  pub short : length w.pending ≤ 2 * w.limit

pub drop_oldest-members :
    (w : IdWindow) (e : Entry) → (drop_oldest w e).members ≡ without w.members e
unfolding drop_oldest
drop_oldest-members w e = ground arith

drop_oldest-rest :
    (w : IdWindow) (e : Entry)
    → ((drop_oldest w e).limit ≡ w.limit) × ((drop_oldest w e).next ≡ w.next)
unfolding drop_oldest
drop_oldest-rest w e = ground arith

-- What holds when the loop ends, for the newest ID.
record Evicted (w w' : IdWindow) (id : ℕ) : Type 0 where
  same_limit : w'.limit ≡ w.limit
  same_next : w'.next ≡ w.next
  distinct : Distinct w'.members
  covered : Covered w'.members w'.pending
  rising : Rising 0 w'.pending w'.next
  small : length w'.members ≤ w'.limit
  newest : lookup id w'.members ≡ some w'.next

fewer_entries :
    (w : IdWindow) (lo : ℕ) (es : List Entry)
    → Distinct w.members
    → Covered w.members es
    → Rising lo es w.next
    → length w.members ≤ length es
fewer_entries w lo es d c r = omega (
  arith,
  length-filter_by-current w.members lo es w.next d c r,
  length-filter_by-le (is_current w.members) es,
)

-- The entry that a full window drops is not the newest.
newest_kept :
    (w : IdWindow) (lo : ℕ) (e : Entry) (es : List Entry) (id : ℕ)
    → w.limit < length w.members
    → 1 ≤ w.limit
    → Distinct w.members
    → Covered w.members (e ∷ es)
    → Rising lo (e ∷ es) w.next
    → lookup id w.members ≡ some w.next
    → lookup id (drop_oldest w e).members ≡ some (drop_oldest w e).next
newest_kept w lo e es id full p d c r fresh =
    let older : e.n < w.next =
      Rising-lt e.n es w.next r.1 (omega (arith, fewer_entries w lo (e ∷ es) d c r)) in
    rw (drop_oldest-members w e, (drop_oldest-rest w e).1)
      (ground (arith, older, lookup-without w.members e id, is_current_iff w.members e))

evict_loop-Evicted :
    (w : IdWindow) (lo : ℕ) (es : List Entry) (id : ℕ)
    → 1 ≤ w.limit
    → Distinct w.members
    → Covered w.members es
    → Rising lo es w.next
    → lookup id w.members ≡ some w.next
    → Finishes (evict_loop w es) (λ w'. Evicted w w' id)
unfolding evict_loop
evict_loop-Evicted w lo [] id p d c r fresh =
    rw (le→ltb-false (length w.members) w.limit (omega (arith, fewer_entries w lo [] d c r)))
      (record {
        same_limit = refl;
        same_next = refl;
        distinct = d;
        covered = c;
        rising = omega arith;
        small = omega (arith, fewer_entries w lo [] d c r);
        newest = fresh;
      })
evict_loop-Evicted w lo (e ∷ es) id p d c r fresh =
    elim (Bool-cases (ltb w.limit (length w.members))) [
      | inr fits ↦ rw fits (record {
        same_limit = refl;
        same_next = refl;
        distinct = d;
        covered = c;
        rising = Rising-lower lo (e ∷ es) w.next r;
        small = ltb-false _ _ fits;
        newest = fresh;
      })
      | inl full ↦ rw full (
          Finishes-map (evict_loop (drop_oldest w e) es) (λ v. Evicted (drop_oldest w e) v id) _
            (evict_loop-Evicted (drop_oldest w e) e.n es id (omega (arith, drop_oldest-rest w e))
              (subst Distinct (sym (drop_oldest-members w e)) (without-Distinct w.members e d))
              (subst (λ ms. Covered ms es) (sym (drop_oldest-members w e))
                (Covered-without w.members e es c))
              (subst (λ (k : ℕ). Rising e.n es k) (sym (drop_oldest-rest w e).1) r.1)
              (newest_kept w lo e es id (ltb→lt _ _ full) p d c r fresh))
            (λ v k. record {
              same_limit = k.same_limit ∙ (drop_oldest-rest w e).0;
              same_next = k.same_next ∙ (drop_oldest-rest w e).1;
              distinct = k.distinct;
              covered = k.covered;
              rising = k.rising;
              small = k.small;
              newest = k.newest;
            }))
    ]

compact-IsValid :
    (w : IdWindow)
    → 1 ≤ w.limit
    → Distinct w.members
    → Covered w.members w.pending
    → Rising 0 w.pending w.next
    → length w.members ≤ w.limit
    → IsValid (compact w) × ((compact w).members ≡ w.members) × ((compact w).next ≡ w.next)
unfolding compact
compact-IsValid w p d c r s = elim (Bool-cases (leb (length w.pending) (2 * w.limit))) [
  | inl few ↦ rw few (
    record {
      positive = p;
      distinct = d;
      covered = c;
      rising = r;
      small = s;
      short = ground (arith, few);
    },
    refl,
    refl,
  )
  | inr many ↦ rw many (
    record {
      positive = p;
      distinct = d;
      covered = λ id n h.
          Holds-filter_by (is_current w.members) id n w.pending
            ((is_current_iff w.members (record { id = id; n = n })).1 h) (c id n h);
      rising = Rising-filter_by (is_current w.members) 0 w.pending w.next r;
      small = s;
      short = omega (arith, length-filter_by-current w.members 0 w.pending w.next d c r);
    },
    refl,
    refl,
  )
]

-- A new window is valid, whatever limit it is given.
pub new_window-IsValid : (limit : ℕ) → IsValid (new_window limit)
unfolding new_window
new_window-IsValid limit = record {
  positive = ground arith;
  distinct = tt;
  covered = λ id n h. unfold lookup in cc;
  rising = omega arith;
  small = omega arith;
  short = omega arith;
}

module _ (w : IdWindow) (id : ℕ) (v : IsValid w) (room : w.next + 1 < u64_mod) where
  enlist-next : (enlist w id).next ≡ w.next + 1
  unfolding enlist
  enlist-next = omega arith

  enlist-fresh : lookup id (enlist w id).members ≡ some (enlist w id).next
  unfolding enlist
  enlist-fresh = rw (lookup-put, (==_iff id id).1 refl) refl

  enlist-Covered : Covered (enlist w id).members (enlist w id).pending
  unfolding enlist
  enlist-Covered = λ j k h. elim (Bool-cases (id == j)) [
    | inl e ↦
        let same : id ≡ j = (==_iff id j).0 e in
        let number : (w.next + 1) % u64_mod ≡ k =
          ground (arith, lookup-put id ((w.next + 1) % u64_mod) j w.members) in
        subst₂ (λ a b. Holds a b (enlist w id).pending) same number
          (Holds-last id ((w.next + 1) % u64_mod) w.pending)
    | inr e ↦
        Holds-append j k w.pending _
          (v.covered j k (ground (arith, lookup-put id ((w.next + 1) % u64_mod) j w.members)))
  ]

  enlist-Rising : Rising 0 (enlist w id).pending (enlist w id).next
  unfolding enlist
  enlist-Rising =
      Rising-append 0 w.pending w.next id ((w.next + 1) % u64_mod) v.rising (omega arith)

  enlist-Distinct : Distinct (enlist w id).members
  unfolding enlist
  enlist-Distinct = put-Distinct id ((w.next + 1) % u64_mod) w.members v.distinct

  enlist-limit : (enlist w id).limit ≡ w.limit
  unfolding enlist
  enlist-limit = refl

  pub add_good :
      Finishes
        (add w id)
        (λ w'. IsValid w' × (lookup id w'.members ≡ some w'.next) × (w'.next ≡ w.next + 1))
  unfolding add
  add_good =
      >>=-Finishes (evict_loop (enlist w id) (enlist w id).pending) _
        (λ u. Evicted (enlist w id) u id) _
        (evict_loop-Evicted (enlist w id) 0 (enlist w id).pending id
          (omega (arith, enlist-limit, v.positive)) enlist-Distinct enlist-Covered enlist-Rising
          enlist-fresh)
        (λ u k.
          let (valid, same, next) =
            compact-IsValid u (omega (arith, k.same_limit, enlist-limit, v.positive)) k.distinct
              k.covered k.rising k.small in
          (valid, rw (same, next) k.newest, next ∙ k.same_next ∙ enlist-next))

-- After an `add` the window is valid again and holds the ID; the eviction loop does not run off
-- the queue. The hypothesis bounds the insertion counter, which wraps at 64 bits.
pub add-IsValid :
    (w : IdWindow) (id : ℕ)
    → IsValid w
    → w.next + 1 < u64_mod
    → Finishes (add w id) (λ w'. IsValid w' × (has w' id ≡ true))
unfolding has
add-IsValid w id v room =
    Finishes-map (add w id) _ _ (add_good w id v room)
      (λ w' (valid, held, _). (valid, rw (held, has) refl))

pub remove-IsValid : (w : IdWindow) (id : ℕ) → IsValid w → IsValid (remove w id)
unfolding remove
remove-IsValid w id v = record {
  positive = v.positive;
  distinct = delete-Distinct id w.members v.distinct;
  covered = λ j k h. v.covered j k (ground (arith, lookup-delete id j w.members));
  rising = v.rising;
  small = ground (arith, length-delete id w.members v.distinct, v.small);
  short = v.short;
}

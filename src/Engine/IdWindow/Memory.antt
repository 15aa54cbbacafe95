-- ===== src/Engine/IdWindow/Memory.antt =====
-- engine/idwindow.go: what a window still tells of an ID over a history of operations.
use edge_feed_spec.Base.{
  ℕ, ◌+◌, ◌%◌, ◌<◌, ◌≡◌, refl, subst, sym, ◌∙◌, ◌⊎◌, inl, inr, List, [], ◌∷◌, some, Bool, true,
  false, length, nat_eq, arith, Bool-cases, if◌then◌else◌, ltb, ◌==◌, ==_iff,
}
use mathlib.Core.Bool.{false≢true}
use edge_feed_spec.Base.Exec.{
  Exec, done, panic, out_of_fuel, ◌>>=◌, Finishes, Finishes-map, Finishes-value,
}
use edge_feed_spec.Base.Maps.{lookup, lookup-put, lookup-delete}
use edge_feed_spec.Engine.IdWindow.{
  Entry, IdWindow, u64_mod, new_window, note_eviction, drop_oldest, evict_loop, compact, enlist,
  add, remove, has, may_have_evicted,
}
use edge_feed_spec.Engine.IdWindow.Invariant.{IsValid, new_window-IsValid, add_good, remove-IsValid}

abbrev pub Remembers : IdWindow → ℕ → Type 0
Remembers w id = (has w id ≡ true) ⊎ (may_have_evicted w id ≡ true)

note_eviction-covers : (w : IdWindow) (id : ℕ) → may_have_evicted (note_eviction w id) id ≡ true
unfolding note_eviction may_have_evicted
note_eviction-covers w id = ground arith

note_eviction-keeps :
    (w : IdWindow) (id j : ℕ)
    → may_have_evicted w j ≡ true
    → may_have_evicted (note_eviction w id) j ≡ true
unfolding note_eviction may_have_evicted
note_eviction-keeps w id j h = ground arith

drop_oldest-Remembers :
    (w : IdWindow) (e : Entry) (j : ℕ) → Remembers w j → Remembers (drop_oldest w e) j
unfolding drop_oldest note_eviction has may_have_evicted
drop_oldest-Remembers w e j r = ground (arith, lookup-delete e.id j w.members)

evict_loop-Remembers :
    (w : IdWindow) (es : List Entry) (j : ℕ) (w' : IdWindow)
    → Remembers w j
    → evict_loop w es ≡ done w'
    → Remembers w' j
unfolding evict_loop has may_have_evicted
evict_loop-Remembers w [] j w' r h = ground arith
evict_loop-Remembers w (e ∷ es) j w' r h = elim (Bool-cases (ltb w.limit (length w.members))) [
  | inl full ↦
      evict_loop-Remembers (drop_oldest w e) es j w' (drop_oldest-Remembers w e j r) (ground arith)
  | inr fits ↦ ground arith
]

compact-Remembers : (w : IdWindow) (j : ℕ) → Remembers w j → Remembers (compact w) j
unfolding compact has may_have_evicted
compact-Remembers w j r = ground arith

enlist-Remembers : (w : IdWindow) (id j : ℕ) → Remembers w j → Remembers (enlist w id) j
unfolding enlist has may_have_evicted
enlist-Remembers w id j r = ground (arith, lookup-put id ((w.next + 1) % u64_mod) j w.members)

-- An `add` forgets no ID without a trace.
pub add-Remembers :
    (w : IdWindow) (id j : ℕ) (w' : IdWindow) → Remembers w j → add w id ≡ done w' → Remembers w' j
unfolding add
add-Remembers w id j w' r h = go (evict_loop (enlist w id) (enlist w id).pending) refl h
  where
    go :
        (m : Exec IdWindow)
        → evict_loop (enlist w id) (enlist w id).pending ≡ m
        → (m >>= λ u. done (compact u)) ≡ done w'
        → Remembers w' j
    go (done u) e h =
        subst (λ v. Remembers v j) (cc)
          (compact-Remembers u j (
            evict_loop-Remembers (enlist w id) (enlist w id).pending j u (enlist-Remembers w id j r)
              e))
    go panic e h = cc
    go out_of_fuel e h = cc

pub data Op : Type 0 where
  adds : ℕ → Op
  removes : ℕ → Op

unfoldable pub run : IdWindow → List Op → Exec IdWindow
run w [] = done w
run w (adds id ∷ ops) = do w' ← add w id; run w' ops
run w (removes id ∷ ops) = run (remove w id) ops

-- Whether the last operation on an ID was an `add`, from whether it was before the history.
abbrev pub last_added : ℕ → List Op → Bool → Bool
last_added j [] b = b
last_added j (adds id ∷ ops) b = last_added j ops (if id == j then true else b)
last_added j (removes id ∷ ops) b = last_added j ops (if id == j then false else b)

remove-Remembers :
    (w : IdWindow) (id j : ℕ) → (id == j) ≡ false → Remembers w j → Remembers (remove w id) j
unfolding remove has may_have_evicted
remove-Remembers w id j ne r = ground (arith, lookup-delete id j w.members)

-- The state of a run, as seen by one ID.
abbrev Tracks : ℕ → Bool → IdWindow → Type 0
Tracks j b w = IsValid w × (b ≡ true → Remembers w j)

newest_held :
    (w : IdWindow) (id j : ℕ)
    → (id == j) ≡ true
    → lookup id w.members ≡ some w.next
    → has w j ≡ true
unfolding has
newest_held w id j same held = rw (← (==_iff id j).0 same, held, has) refl

run-Tracks :
    (w : IdWindow) (ops : List Op) (j : ℕ) (b : Bool)
    → w.next + length ops < u64_mod
    → Tracks j b w
    → Finishes (run w ops) (Tracks j (last_added j ops b))
unfolding run
run-Tracks w [] j b room t = t
run-Tracks w (removes id ∷ ops) j b room t =
    run-Tracks (remove w id) ops j (if id == j then false else b) (unfold remove in omega arith) (
      remove-IsValid w id t.0,
      elim (Bool-cases (id == j)) [
        | inl e ↦ λ h. absurd (false≢true (rw (← h) (rw e refl)))
        | inr e ↦ λ h. remove-Remembers w id j e (t.1 (sym (rw e refl) ∙ h))
      ],
    )
run-Tracks w (adds id ∷ ops) j b room t =
    let (w', e, g) = Finishes-value (add w id) _ (add_good w id t.0 (omega arith)) in
    rw e (
      run-Tracks w' ops j (if id == j then true else b) (omega (arith, g.2)) (
        g.0,
        elim (Bool-cases (id == j)) [
          | inl same ↦ λ h. inl (newest_held w' id j same g.1)
          | inr other ↦ λ h. add-Remembers w id j w' (t.1 (sym (rw other refl) ∙ h)) e
        ],
      ))

abbrev pub Keeps : ℕ → Bool → IdWindow → Type 0
Keeps j b w = IsValid w × ((b ≡ false) ⊎ Remembers w j)

-- Over any history of fewer than 2^64 operations on a new window, of any limit, the code never runs
-- off its queue, and at the end the window is valid (no more members than the limit, a queue of at
-- most twice the limit); an ID whose last operation was an `add` is a member or lies in the range
-- of evicted IDs. So an ID out of that range that is no member was never added, or was removed.
pub run-Remembers :
    (limit : ℕ) (ops : List Op)
    → length ops < u64_mod
    → (j : ℕ) → Finishes (run (new_window limit) ops) (Keeps j (last_added j ops false))
unfolding new_window
run-Remembers limit ops room j =
    Finishes-map (run (new_window limit) ops) _ _
      (run-Tracks (new_window limit) ops j false (omega arith)
        (new_window-IsValid limit, λ h. absurd (false≢true h)))
      (λ w t.
        (t.0, elim (Bool-cases (last_added j ops false)) [ inl e ↦ inr (t.1 e) | inr e ↦ inl e ]))

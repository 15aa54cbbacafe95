-- ===== src/Engine/IdWindow/Members.antt =====
-- engine/idwindow.go: what `add` and `remove` do to the other IDs.
use edge_feed_spec.Base.{
  ℕ, ◌+◌, ◌%◌, ◌≡◌, refl, sym, ◌∙◌, ◌⊎◌, inl, inr, List, [], ◌∷◌, true, false, length, nat_eq,
  arith, Bool-cases, if◌then◌else◌, ltb, ◌==◌,
}
use edge_feed_spec.Base.Exec.{Exec, done, panic, out_of_fuel, ◌>>=◌}
use edge_feed_spec.Base.Maps.{lookup-put, lookup-delete}
use edge_feed_spec.Engine.IdWindow.{
  Entry, IdWindow, u64_mod, note_eviction, drop_oldest, evict_loop, compact, enlist, add, remove,
  has,
}

evict_loop-has :
    (w : IdWindow) (es : List Entry) (j : ℕ) (w' : IdWindow)
    → evict_loop w es ≡ done w'
    → has w' j ≡ true
    → has w j ≡ true
unfolding evict_loop has
evict_loop-has w [] j w' h k = ground arith
evict_loop-has w (e ∷ es) j w' h k = elim (Bool-cases (ltb w.limit (length w.members))) [
  | inl full ↦ drop_has (evict_loop-has (drop_oldest w e) es j w' (ground arith) k)
  | inr fits ↦ ground arith
]
  where
    drop_has : has (drop_oldest w e) j ≡ true → has w j ≡ true
    drop_has h =
        unfold drop_oldest note_eviction has in ground (arith, lookup-delete e.id j w.members)

compact-has : (w : IdWindow) (j : ℕ) → has (compact w) j ≡ has w j
unfolding compact has
compact-has w j = ground arith

enlist-has : (w : IdWindow) (id j : ℕ) → has (enlist w id) j ≡ (if id == j then true else has w j)
unfolding enlist has
enlist-has w id j = ground (arith, lookup-put id ((w.next + 1) % u64_mod) j w.members)

-- A member after an `add` is the added ID or was a member.
pub add-has :
    (w : IdWindow) (id j : ℕ) (w' : IdWindow)
    → add w id ≡ done w'
    → has w' j ≡ true
    → (id ≡ j) ⊎ (has w j ≡ true)
unfolding add
add-has w id j w' h k = go (evict_loop (enlist w id) (enlist w id).pending) refl h
  where
    go :
        (m : Exec IdWindow)
        → evict_loop (enlist w id) (enlist w id).pending ≡ m
        → (m >>= λ u. done (compact u)) ≡ done w'
        → (id ≡ j) ⊎ (has w j ≡ true)
    go (done u) e h =
        let member : has (enlist w id) j ≡ true =
          evict_loop-has (enlist w id) (enlist w id).pending j u e (sym (compact-has u j) ∙ cc) in
        ground (arith, member, enlist-has w id j)
    go panic e h = cc
    go out_of_fuel e h = cc

pub remove-has :
    (w : IdWindow) (id j : ℕ) → has (remove w id) j ≡ (if id == j then false else has w j)
unfolding remove has
remove-has w id j = ground (arith, lookup-delete id j w.members)

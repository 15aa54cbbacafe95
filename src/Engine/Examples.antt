-- ===== src/Engine/Examples.antt =====
-- Runs of the ID window, the order book and the price ladder on small inputs.
use edge_feed_spec.Base.{
  ℕ, ◌+◌, ◌<◌, ◌≡◌, subst, refl, ◌↔◌, List, [], ◌∷◌, none, some, true, false, ◌==◌, arith,
  Bool-cases, inl, inr, subst, nat_eq, pair_eq,
}
use edge_feed_spec.Base.Exec.{Finishes}
use edge_feed_spec.Base.Int.{pos, int_eq}
use edge_feed_spec.Base.Maps.{lookup}
use edge_feed_spec.Engine.IdWindow.{new_window, add, has, u64_mod}
use edge_feed_spec.Engine.IdWindow.Invariant.{IsValid, add-IsValid, new_window-IsValid}
use edge_feed_spec.Engine.IdWindow.Memory.{Op, adds, removes, run, Keeps, last_added, run-Remembers}
use edge_feed_spec.Engine.Book.{
  LiveOrder, InstrBook, new_instr_book, apply_order_execute, is_hidden, max_removed_ids,
  max_hidden_ids,
}
use edge_feed_spec.Engine.Book.Invariant.{IsConsistent, HasRoom, BookOp, step-IsConsistent}
use edge_feed_spec.Engine.Book.Invariant
use edge_feed_spec.Engine.Book.Fills.{Outcome, execute_Outcome}
use edge_feed_spec.Engine.Book.Books.{BookState}
use edge_feed_spec.Engine.MbpBook.{MbpBook, LevelKey, inside, crossed, diff_mbp_levels}
use edge_feed_spec.Engine.MbpBook.Updates.{
  IsLadder, updates, clears, after, step-IsLadder, lookup-step,
}
use edge_feed_spec.Engine.MbpBook.Updates
use edge_feed_spec.Engine.MbpBook.Inside.{IsInside, HasCross, inside-IsInside, crossed_iff}
use edge_feed_spec.Engine.MbpBook.Diff.{diff-eq-nil_iff}

abbrev some_ops : List Op
some_ops = adds 5 ∷ adds 6 ∷ removes 5 ∷ adds 7 ∷ []

run-Remembers_example :
    Finishes (run (new_window 1) some_ops) (Keeps 7 (last_added 7 some_ops false))
run-Remembers_example = run-Remembers 1 some_ops (omega arith) 7

window_room : (new_window 2).next + 1 < u64_mod
unfolding new_window
window_room = omega arith

add-IsValid_example : Finishes (add (new_window 2) 9) (λ w. IsValid w × (has w 9 ≡ true))
add-IsValid_example = add-IsValid (new_window 2) 9 (new_window-IsValid 2) window_room

abbrev an_order : LiveOrder
an_order = record {
  side = 0;
  source_id = 1;
  price = pos 100;
  remaining = 10;
  order_flags = 0;
  enter_ts = 0;
}

-- A book with one live order.
abbrev one_order : InstrBook
one_order = record new_instr_book { live = (4, an_order) ∷ [] }

only_order : (id : ℕ) (lo : LiveOrder) → lookup id one_order.live ≡ some lo → an_order ≡ lo
unfolding lookup
only_order id lo h = elim (Bool-cases (4 == id)) [ inl e ↦ ground arith | inr e ↦ ground arith ]

one_order-IsConsistent : IsConsistent one_order
unfolding new_instr_book lookup is_hidden has new_window
one_order-IsConsistent = record {
  distinct = (refl, tt);
  removed_valid = new_window-IsValid max_removed_ids;
  hidden_valid = new_window-IsValid max_hidden_ids;
  visible = λ id lo h. subst (λ o. is_hidden o.order_flags ≡ false) (only_order id lo h) refl;
  apart = λ id lo h. refl;
}

one_order-HasRoom : HasRoom one_order
unfolding new_instr_book new_window
one_order-HasRoom = record { removed_room = omega arith; hidden_room = omega arith }

step-IsConsistent_example :
    Finishes (Invariant.step one_order (BookOp.cancels 4)) (λ r. IsConsistent r.0)
step-IsConsistent_example =
    step-IsConsistent one_order (BookOp.cancels 4) one_order-IsConsistent one_order-HasRoom

execute_Outcome_example :
    Finishes (apply_order_execute one_order 4 6 false) (Outcome one_order 4 an_order 6 false)
unfolding lookup
execute_Outcome_example =
    execute_Outcome one_order 4 an_order 6 false one_order-IsConsistent one_order-HasRoom refl

abbrev two_books : BookState
two_books = ((1, 7), new_instr_book) ∷ ((2, 7), new_instr_book) ∷ []

abbrev ladder : MbpBook
ladder = record { levels = ((0, pos 99), 5) ∷ ((1, pos 101), 3) ∷ []; depth_bound = none }

ladder-IsLadder : IsLadder ladder
unfolding lookup
ladder-IsLadder = record {
  distinct = (refl, (refl, tt));
  positive = (omega arith, (omega arith, tt));
}

step-IsLadder_example : IsLadder (Updates.step ladder (clears 0 0 (pos 0)))
step-IsLadder_example = step-IsLadder ladder (clears 0 0 (pos 0)) ladder-IsLadder

lookup-step_example :
    lookup (0, pos 99) (Updates.step ladder (updates 0 (pos 99) 0)).levels
    ≡ after (updates 0 (pos 99) 0) (0, pos 99) (lookup (0, pos 99) ladder.levels)
lookup-step_example = lookup-step ladder (updates 0 (pos 99) 0) (0, pos 99)

inside-IsInside_example : IsInside ladder.levels (inside ladder)
inside-IsInside_example = inside-IsInside ladder

crossed_iff_example : (crossed ladder ≡ true) ↔ HasCross ladder.levels
crossed_iff_example = crossed_iff ladder

diff-eq-nil_iff_example :
    (diff_mbp_levels ladder.levels [] ≡ [])
    ↔ ((k : LevelKey) → lookup k ladder.levels ≡ lookup k [])
diff-eq-nil_iff_example = diff-eq-nil_iff ladder.levels [] ladder-IsLadder.distinct tt

-- ===== src/Engine/Oracle/Examples.antt =====
-- A snapshot that differs from the book twice in a row.
use edge_feed_spec.Base.{ℕ, ◌≡◌, ◌≤◌, ◌↔◌, refl, List, [], ◌∷◌, some, true, false, String, nat_eq}
use edge_feed_spec.Base.Int.{pos}
use edge_feed_spec.Base.Maps.{lookup}
use edge_feed_spec.Core.Finding.{Status}
use edge_feed_spec.Engine.Book.{RestingOrder}
use edge_feed_spec.Engine.Oracle.{SnapOrderRecord, OracleDiff, diff_books, confirm_cycles}
use edge_feed_spec.Engine.Oracle.Books.{Agrees, diff_books-eq-nil_iff}
use edge_feed_spec.Engine.Oracle.Cycles.{
  Group, judge, mismatch, streak, suspects_after, judge-confirmed,
}

abbrev snap_orders : List (ℕ × SnapOrderRecord)
snap_orders = (4, record { side = 0; order_flags = 0; enter_ts = 5; price = pos 100; qty = 3 }) ∷ []

abbrev delta_orders : List (ℕ × RestingOrder)
delta_orders =
    (4, record { side = 0; price = pos 100; remaining = 2; order_flags = 0; enter_ts = 5 }) ∷ []

diff_books-eq-nil_iff_example :
    (diff_books snap_orders delta_orders ≡ [])
    ↔ ((id : ℕ) → Agrees (lookup id snap_orders) (lookup id delta_orders))
unfolding lookup
diff_books-eq-nil_iff_example = diff_books-eq-nil_iff snap_orders delta_orders (refl, tt) (refl, tt)

abbrev group : Group
group = record {
  key = (1, 7);
  state = record {
    structural_violation = false;
    has_refdata = true;
    instrument_known = true;
    book_trusted = true;
    book_corrupted_by_dup = false;
    mktdata_contiguous = true;
    last_instr_seq = some 9;
    last_instr_seq_k = 9;
    dirty = false;
  };
  snap = snap_orders;
  delta = delta_orders;
}

-- A signature for the example.
abbrev sign : List OracleDiff → String
sign ds = "qty"

judge-confirmed_example :
    ((judge sign (pos 2) (suspects_after sign (pos 2) (group ∷ [])) group).0.status
      ≡ Status.violation)
    ↔ ((sig : String) × (mismatch sign (pos 2) group ≡ some sig)
        × (confirm_cycles (pos 2) ≤ streak sign (pos 2) group.key sig (group ∷ (group ∷ []))))
judge-confirmed_example = judge-confirmed sign (pos 2) (group ∷ []) group

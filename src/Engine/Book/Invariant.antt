-- ===== src/Engine/Book/Invariant.antt =====
-- engine/book.go, `instrBook`: consistency under the messages that reach the book.
use edge_feed_spec.Base.{
  ℕ, ◌+◌, ◌<◌, ◌≡◌, inl, inr, Option, none, some, Bool, true, false, not, ◌&&◌, ◌||◌, ltb, ◌==◌,
  arith, Bool-cases, Option-cases, if◌then◌else◌, nat_eq, ◌-◌,
}
use edge_feed_spec.Base.Exec.{Exec, done, Finishes, >>=-Finishes, Finishes-value}
use edge_feed_spec.Base.Maps.{
  lookup, Distinct, lookup-put, lookup-delete, put-Distinct, delete-Distinct,
}
use edge_feed_spec.Engine.IdWindow.{u64_mod, has, IdWindow}
use edge_feed_spec.Engine.IdWindow
use edge_feed_spec.Engine.IdWindow.Invariant.{
  IsValid, add-IsValid, remove-IsValid, new_window-IsValid,
}
use edge_feed_spec.Engine.IdWindow.Members.{add-has, remove-has}
use edge_feed_spec.Engine.Book.{
  BookError, LiveOrder, InstrBook, new_instr_book, is_hidden, apply_order_add_full, retire, fill,
  execute_absent, apply_order_execute, apply_order_cancel, returning,
}

-- Live orders are visible and apart from the removed ones.
pub record IsConsistent (bk : InstrBook) : Type 0 where
  pub distinct : Distinct bk.live
  pub removed_valid : IsValid bk.removed
  pub hidden_valid : IsValid bk.hidden_ids
  pub visible :
      (id : ℕ) (lo : LiveOrder) → lookup id bk.live ≡ some lo → is_hidden lo.order_flags ≡ false
  pub apart : (id : ℕ) (lo : LiveOrder) → lookup id bk.live ≡ some lo → has bk.removed id ≡ false

-- The insertion counters of the windows are not about to wrap.
pub record HasRoom (bk : InstrBook) : Type 0 where
  pub removed_room : bk.removed.next + 1 < u64_mod
  pub hidden_room : bk.hidden_ids.next + 1 < u64_mod

pub new_instr_book-IsConsistent : IsConsistent new_instr_book
unfolding new_instr_book lookup
new_instr_book-IsConsistent = record {
  distinct = tt;
  removed_valid = new_window-IsValid _;
  hidden_valid = new_window-IsValid _;
  visible = λ id lo h. cc;
  apart = λ id lo h. cc;
}

-- The order after a partial fill.
abbrev left_over : LiveOrder → ℕ → LiveOrder
left_over lo qty = record lo { remaining = lo.remaining - qty }

module _ (bk : InstrBook) (id : ℕ) (c : IsConsistent bk) (room : HasRoom bk) where
  add_full-IsConsistent : (o : LiveOrder) → Finishes (apply_order_add_full bk id o) IsConsistent
  unfolding apply_order_add_full
  add_full-IsConsistent o = elim (Bool-cases (is_hidden o.order_flags)) [
    | inl hidden ↦
        let (w, e, v) =
          Finishes-value (IdWindow.add bk.hidden_ids id) _
            (add-IsValid bk.hidden_ids id c.hidden_valid room.hidden_room) in
        rw (hidden, e)
          (record {
            distinct = c.distinct;
            removed_valid = c.removed_valid;
            hidden_valid = v.0;
            visible = c.visible;
            apart = c.apart;
          })
    | inr shown ↦ rw shown (record {
      distinct = put-Distinct id o bk.live c.distinct;
      removed_valid = remove-IsValid bk.removed id c.removed_valid;
      hidden_valid = c.hidden_valid;
      visible = λ j lo h. ground (arith, lookup-put id o j bk.live, c.visible j lo);
      apart = λ j lo h.
          ground (arith, lookup-put id o j bk.live, c.apart j lo, remove-has bk.removed id j);
    })
  ]

  retire-IsConsistent : Finishes (retire bk id) IsConsistent
  unfolding retire
  retire-IsConsistent =
      let (w, e, v) =
        Finishes-value (IdWindow.add bk.removed id) _
          (add-IsValid bk.removed id c.removed_valid room.removed_room) in
      rw e (record {
        distinct = delete-Distinct id bk.live c.distinct;
        removed_valid = v.0;
        hidden_valid = c.hidden_valid;
        visible = λ j lo h. ground (arith, lookup-delete id j bk.live, c.visible j lo);
        apart = λ j lo h. elim (Bool-cases (has w j)) [
          | inr out ↦ out
          | inl member ↦
              ground (
                arith,
                lookup-delete id j bk.live,
                c.apart j lo,
                add-has bk.removed id j w e member,
              )
        ];
      })

  returning-IsConsistent :
      (e : Option BookError) (m : Exec InstrBook)
      → Finishes m IsConsistent
      → Finishes (returning e m) (λ r. IsConsistent r.0)
  returning-IsConsistent e m h =
      >>=-Finishes m (λ bk'. done (bk', e)) IsConsistent (λ r. IsConsistent r.0) h (λ bk' k. k)

  maybe_retire : (full : Bool) → Finishes (if full then retire bk id else done bk) IsConsistent
  maybe_retire true = retire-IsConsistent
  maybe_retire false = c

  fill-IsConsistent :
      (lo : LiveOrder) (qty : ℕ) (full : Bool)
      → lookup id bk.live ≡ some lo
      → Finishes (fill bk id lo qty full) (λ r. IsConsistent r.0)
  unfolding fill
  fill-IsConsistent lo qty full live = elim (Bool-cases (ltb lo.remaining qty)) [
    | inl over ↦ rw over (returning-IsConsistent _ _ (maybe_retire full))
    | inr fits ↦ elim (Bool-cases (full && not (qty == lo.remaining))) [
      | inl e ↦ rw (fits, e) (returning-IsConsistent _ _ retire-IsConsistent)
      | inr agree ↦ elim (Bool-cases (full || (lo.remaining - qty == 0))) [
        | inl e ↦ rw (fits, agree, e) (returning-IsConsistent _ _ retire-IsConsistent)
        | inr e ↦
            rw (fits, agree, e)
              (record {
                distinct = put-Distinct id _ bk.live c.distinct;
                removed_valid = c.removed_valid;
                hidden_valid = c.hidden_valid;
                visible = λ j o h. ground (
                  arith,
                  lookup-put id (left_over lo qty) j bk.live,
                  c.visible j o,
                  c.visible id lo live,
                );
                apart = λ j o h. ground (
                  arith,
                  lookup-put id (left_over lo qty) j bk.live,
                  c.apart j o,
                  c.apart id lo live,
                );
              })
      ]
    ]
  ]

  absent-IsConsistent :
      (full : Bool)
      → lookup id bk.live ≡ none
      → Finishes (execute_absent bk id full) (λ r. IsConsistent r.0)
  unfolding execute_absent
  absent-IsConsistent full gone = elim (Bool-cases (has bk.hidden_ids id && full)) [
    | inr e ↦ rw e c
    | inl e ↦
        let (w, eq, v) =
          Finishes-value (IdWindow.add bk.removed id) _
            (add-IsValid bk.removed id c.removed_valid room.removed_room) in
        rw (e, eq)
          (record {
            distinct = c.distinct;
            removed_valid = v.0;
            hidden_valid = c.hidden_valid;
            visible = c.visible;
            apart = λ j lo h. elim (Bool-cases (has w j)) [
              | inr out ↦ out
              | inl member ↦ ground (arith, c.apart j lo, add-has bk.removed id j w eq member)
            ];
          })
  ]

  execute-IsConsistent :
      (qty : ℕ) (full : Bool)
      → Finishes (apply_order_execute bk id qty full) (λ r. IsConsistent r.0)
  unfolding apply_order_execute
  execute-IsConsistent qty full = elim (Option-cases (lookup id bk.live)) [
    | inl e ↦ rw (e, apply_order_execute) (absent-IsConsistent full e)
    | inr (lo, e) ↦ rw (e, apply_order_execute, c.visible id lo e) (fill-IsConsistent lo qty full e)
  ]

  cancel-IsConsistent : Finishes (apply_order_cancel bk id) IsConsistent
  unfolding apply_order_cancel
  cancel-IsConsistent = elim (Option-cases (lookup id bk.live)) [
    | inl e ↦ rw (e, apply_order_cancel) c
    | inr (lo, e) ↦ rw (e, apply_order_cancel) retire-IsConsistent
  ]

-- The messages that reach the book.
pub data BookOp : Type 0 where
  adds : ℕ → LiveOrder → BookOp
  executes : ℕ → ℕ → Bool → BookOp
  cancels : ℕ → BookOp

unfoldable pub step : InstrBook → BookOp → Exec (InstrBook × Option BookError)
step bk (adds id o) = returning none (apply_order_add_full bk id o)
step bk (executes id qty full) = apply_order_execute bk id qty full
step bk (cancels id) = returning none (apply_order_cancel bk id)

-- Every message returns, whatever order it names, and leaves a consistent book: its windows within
-- their bounds, each live order visible and its ID not among the removed ones.
pub step-IsConsistent :
    (bk : InstrBook) (op : BookOp)
    → IsConsistent bk
    → HasRoom bk
    → Finishes (step bk op) (λ r. IsConsistent r.0)
unfolding step
step-IsConsistent bk (adds id o) c room =
    returning-IsConsistent bk id c room none _ (add_full-IsConsistent bk id c room o)
step-IsConsistent bk (executes id qty full) c room = execute-IsConsistent bk id c room qty full
step-IsConsistent bk (cancels id) c room =
    returning-IsConsistent bk id c room none _ (cancel-IsConsistent bk id c room)

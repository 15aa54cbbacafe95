-- ===== src/Engine/Book/Isolation.antt =====
-- engine/book.go, `bookState`: the books of all instruments, as one book for each instrument.
use edge_feed_spec.Base.{
  ℕ, ◌≡◌, List, Option, none, some, not, ◌&&◌, ◌==◌, any, if◌then◌else◌, nat_eq, pair_eq, arith,
}
use edge_feed_spec.Base.Exec.{Exec, done, ◌>>=◌}
use edge_feed_spec.Base.Maps.{lookup}
use edge_feed_spec.Engine.Book.{InstrBook, new_instr_book}
use edge_feed_spec.Engine.IdWindow.{new_window}
use edge_feed_spec.Engine.Book.Invariant.{IsConsistent, HasRoom, BookOp, step}
use edge_feed_spec.Engine.Book.Books.{
  Key, BookState, book, store, on_reset_count, on_manifest_bump, on_instrument_reset,
}

-- A message on the book of an instrument, and the three calls that clear books.
pub data BooksEvent : Type 0 where
  message : ℕ → ℕ → BookOp → BooksEvent
  reset_count_changed : BooksEvent
  manifest_bumped : ℕ → List ℕ → BooksEvent
  instrument_reset : ℕ → ℕ → BooksEvent

-- A message takes its instrument's book, made if missing, and changes it in place.
unfoldable pub on_books : BookState → BooksEvent → Exec BookState
on_books bs (message ch instr op) =
    step (book bs ch instr).0 op >>= λ r. done (store (book bs ch instr).1 ch instr r.0)
on_books bs reset_count_changed = done (on_reset_count bs)
on_books bs (manifest_bumped ch surviving) = done (on_manifest_bump bs ch surviving)
on_books bs (instrument_reset ch instr) = done (on_instrument_reset bs ch instr)

abbrev pub or_new_book : Option InstrBook → InstrBook
or_new_book none = new_instr_book
or_new_book (some bk) = bk

-- What the events mean for one instrument alone, which has a book or has none.
unfoldable pub own_book : Key → Option InstrBook → BooksEvent → Exec (Option InstrBook)
own_book key o (message ch instr op) =
    if (ch == key.0) && (instr == key.1)
    then (step (or_new_book o) op >>= λ r. done (some r.0))
    else done o
own_book key o reset_count_changed = done none
own_book key o (manifest_bumped ch surviving) =
    done (if (key.0 == ch) && not (any (λ i. i == key.1) surviving) then none else o)
own_book key o (instrument_reset ch instr) =
    done (if (ch == key.0) && (instr == key.1) then none else o)

unfoldable pub AreConsistent : BookState → Type 0
AreConsistent bs = (key : Key) (bk : InstrBook) → lookup key bs ≡ some bk → IsConsistent bk

unfoldable pub HaveRoom : BookState → Type 0
HaveRoom bs = (key : Key) (bk : InstrBook) → lookup key bs ≡ some bk → HasRoom bk

-- The books after an event: consistent, and each instrument's is what the event means for it alone.
pub record IsIsolated (bs : BookState) (e : BooksEvent) (after : BookState) : Type 0 where
  pub consistent : AreConsistent after
  pub own : (key : Key) → own_book key (lookup key bs) e ≡ done (lookup key after)

pub new_instr_book-HasRoom : HasRoom new_instr_book
unfolding new_instr_book new_window
new_instr_book-HasRoom = record { removed_room = omega arith; hidden_room = omega arith }

pub some-eq {ℓ} : {A : Type ℓ} {a b : A} → some a ≡ some b → a ≡ b
some-eq h = cc

-- ===== src/Engine/Book/Books.antt =====
-- engine/book.go, `bookState`: the books of all instruments, by channel and instrument.
use edge_feed_spec.Base.{
  ℕ, ◌≡◌, refl, ◌∙◌, List, [], none, some, Bool, true, not, ◌&&◌, ◌||◌, ◌==◌, ==_iff, any,
  filter_by, if◌then◌else◌, nat_eq, pair_eq, arith, Option-cases, inl, inr, ◌⊎◌,
}
use edge_feed_spec.Base.Maps.{lookup, put, delete, lookup-put, lookup-delete, lookup-filter_by}
use edge_feed_spec.Engine.Book.{InstrBook, new_instr_book}

abbrev pub Key : Type 0
Key = ℕ × ℕ

abbrev pub BookState : Type 0
BookState = List (Key × InstrBook)

-- `book` hands out a pointer to the stored book: here the book and the state that holds it.
unfoldable pub book : BookState → ℕ → ℕ → InstrBook × BookState
book bs ch instr = elim (lookup (ch, instr) bs) [
  | none ↦ (new_instr_book, put (ch, instr) new_instr_book bs)
  | some bk ↦ (bk, bs)
]

-- A write through that pointer.
unfoldable pub store : BookState → ℕ → ℕ → InstrBook → BookState
store bs ch instr bk = put (ch, instr) bk bs

unfoldable pub on_reset_count : BookState → BookState
on_reset_count bs = []

unfoldable pub survives : ℕ → List ℕ → Key → Bool
survives ch surviving key = not (key.0 == ch) || any (λ i. i == key.1) surviving

unfoldable pub on_manifest_bump : BookState → ℕ → List ℕ → BookState
on_manifest_bump bs ch surviving = filter_by (λ e. survives ch surviving e.0) bs

unfoldable pub on_instrument_reset : BookState → ℕ → ℕ → BookState
on_instrument_reset bs ch instr = delete (ch, instr) bs

-- What a reset, a manifest bump and an instrument reset leave of the book of any instrument: a
-- bump on a channel drops exactly the books of that channel's instruments that do not survive, an
-- instrument reset exactly the one book, a Reset Count all of them.
pub books_after :
    (bs : BookState) (ch : ℕ) (surviving : List ℕ) (instr : ℕ) (key : Key)
    → (lookup key (on_manifest_bump bs ch surviving)
        ≡ (if (key.0 == ch) && not (any (λ i. i == key.1) surviving) then none else lookup key bs))
      × (lookup key (on_instrument_reset bs ch instr)
          ≡ (if (ch == key.0) && (instr == key.1) then none else lookup key bs))
      × (lookup key (on_reset_count bs) ≡ none)
unfolding on_manifest_bump on_instrument_reset on_reset_count survives lookup
books_after bs ch surviving instr key = (
  lookup-filter_by (survives ch surviving) key bs ∙ ground arith,
  lookup-delete (ch, instr) key bs,
  refl,
)

-- The book that `book` hands out is the one stored, and no other instrument's book changes.
pub book_stored :
    (bs : BookState) (ch instr : ℕ) (key : Key)
    → (lookup (ch, instr) (book bs ch instr).1 ≡ some (book bs ch instr).0)
      × (((ch == key.0) && (instr == key.1) ≡ true)
          ⊎ (lookup key (book bs ch instr).1 ≡ lookup key bs))
unfolding book
book_stored bs ch instr key = elim (Option-cases (lookup (ch, instr) bs)) [
  | inl e ↦
      rw (e, book)
        (
          lookup-put (ch, instr) new_instr_book (ch, instr) bs
              ∙ rw ((==_iff ch ch).1 refl, (==_iff instr instr).1 refl) refl,
          ground (arith, lookup-put (ch, instr) new_instr_book key bs),
        )
  | inr (bk, e) ↦ rw (e, book) (e, inr refl)
]

-- ===== src/Engine/MbpBook/Inside.antt =====
-- The inside market against the set of levels.
use edge_feed_spec.Base.{◌≡◌, ◌↔◌, ◌⊎◌, inl, inr, [], ◌∷◌, true, false, ◌&&◌, ◌==◌, arith}
use edge_feed_spec.Base.Int.{pos, ltb_ℤ, ◌<ℤ◌, ◌≤ℤ◌}
use edge_feed_spec.Engine.MbpBook.{
  MbpBook, LevelKey, Levels, Quotes, side_bid, see_level, inside_loop, inside, crossed,
}

-- Some level of a ladder satisfies a predicate.
abbrev pub Exists : (LevelKey → Type 0) → Levels → Type 0
Exists P [] = ⊥
Exists P (e ∷ es) = P e.0 ⊎ Exists P es

abbrev pub Every : (LevelKey → Type 0) → Levels → Type 0
Every P [] = Unit {0}
Every P (e ∷ es) = P e.0 × Every P es

abbrev pub IsBid : LevelKey → Type 0
IsBid k = (k.0 == side_bid) ≡ true

abbrev pub IsAsk : LevelKey → Type 0
IsAsk k = (k.0 == side_bid) ≡ false

-- What a run of the loop from `q` over some levels makes of the best bid and the best ask.
record Summary (q : Quotes) (es : Levels) (r : Quotes) : Type 0 where
  bid_keeps : (q.has_bid ≡ false) ⊎ ((r.has_bid ≡ true) × (q.bid ≤ℤ r.bid))
  bid_tops : Every (λ k. IsAsk k ⊎ ((r.has_bid ≡ true) × (k.1 ≤ℤ r.bid))) es
  bid_real :
      (r.has_bid ≡ false)
      ⊎ (((q.has_bid ≡ true) × (q.bid ≡ r.bid)) ⊎ Exists (λ k. IsBid k × (k.1 ≡ r.bid)) es)
  ask_keeps : (q.has_ask ≡ false) ⊎ ((r.has_ask ≡ true) × (r.ask ≤ℤ q.ask))
  ask_tops : Every (λ k. IsBid k ⊎ ((r.has_ask ≡ true) × (r.ask ≤ℤ k.1))) es
  ask_real :
      (r.has_ask ≡ false)
      ⊎ (((q.has_ask ≡ true) × (q.ask ≡ r.ask)) ⊎ Exists (λ k. IsAsk k × (k.1 ≡ r.ask)) es)

inside_loop-Summary : (q : Quotes) (es : Levels) → Summary q es (inside_loop q es)
unfolding inside_loop see_level
inside_loop-Summary q [] = record {
  bid_keeps = ground arith;
  bid_tops = tt;
  bid_real = ground arith;
  ask_keeps = ground arith;
  ask_tops = tt;
  ask_real = ground arith;
}
inside_loop-Summary q (e ∷ es) =
    let s = inside_loop-Summary (see_level q e.0) es in
    record {
      bid_keeps = ground (arith, s.bid_keeps);
      bid_tops = (ground (arith, s.bid_keeps), s.bid_tops);
      bid_real = ground (arith, s.bid_real);
      ask_keeps = ground (arith, s.ask_keeps);
      ask_tops = (ground (arith, s.ask_keeps), s.ask_tops);
      ask_real = ground (arith, s.ask_real);
    }

Exists-map :
    (P Q : LevelKey → Type 0) (es : Levels)
    → ((k : LevelKey) → P k → Q k)
    → Exists P es
    → Exists Q es
Exists-map P Q [] f x = x
Exists-map P Q (e ∷ es) f (inl p) = inl (f e.0 p)
Exists-map P Q (e ∷ es) f (inr x) = inr (Exists-map P Q es f x)

-- A level of some kind, with what every level satisfies.
Exists-use :
    (P Q : LevelKey → Type 0) (C : Type 0) (es : Levels)
    → ((k : LevelKey) → P k → Q k → C)
    → Every P es
    → Exists Q es
    → C
Exists-use P Q C [] f a x = absurd x
Exists-use P Q C (e ∷ es) f a (inl q) = f e.0 a.0 q
Exists-use P Q C (e ∷ es) f a (inr x) = Exists-use P Q C es f a.1 x

-- The quotes are the highest bid and the lowest ask, and there is one exactly if the side has a
-- level: each level is on the other side, or its side has a quote at least as good; a quote that
-- there is stands at a level.
pub record IsInside (es : Levels) (q : Quotes) : Type 0 where
  pub bid_tops : Every (λ k. IsAsk k ⊎ ((q.has_bid ≡ true) × (k.1 ≤ℤ q.bid))) es
  pub bid_real : (q.has_bid ≡ false) ⊎ Exists (λ k. IsBid k × (k.1 ≡ q.bid)) es
  pub ask_tops : Every (λ k. IsBid k ⊎ ((q.has_ask ≡ true) × (q.ask ≤ℤ k.1))) es
  pub ask_real : (q.has_ask ≡ false) ⊎ Exists (λ k. IsAsk k × (k.1 ≡ q.ask)) es

-- `inside` returns the best bid and the best ask of the book, in whatever order it visits the levels.
pub inside-IsInside : (b : MbpBook) → IsInside b.levels (inside b)
unfolding inside
inside-IsInside b =
    let q0 : Quotes = record { bid = pos 0; has_bid = false; ask = pos 0; has_ask = false } in
    let s = inside_loop-Summary q0 b.levels in
    record {
      bid_tops = s.bid_tops;
      bid_real = ground (arith, s.bid_real);
      ask_tops = s.ask_tops;
      ask_real = ground (arith, s.ask_real);
    }

-- Some bid stands strictly above some ask.
abbrev pub HasCross : Levels → Type 0
HasCross es = Exists (λ k. IsBid k × Exists (λ l. IsAsk l × (l.1 <ℤ k.1)) es) es

-- The book counts as crossed exactly if some bid stands strictly above some ask: a locked book is
-- not crossed, nor is a one-sided one.
pub crossed_iff : (b : MbpBook) → (crossed b ≡ true) ↔ HasCross b.levels
unfolding crossed
crossed_iff b = (λ h. from_quotes (ground arith) (ground arith) (ground arith), to_quotes)
  where
    q : Quotes
    q = inside b

    s : IsInside b.levels q
    s = inside-IsInside b

    from_quotes : q.has_bid ≡ true → q.has_ask ≡ true → q.ask <ℤ q.bid → HasCross b.levels
    from_quotes hb ha lt = elim s.bid_real [
      | inl nb ↦ cc
      | inr bids ↦ elim s.ask_real [
        | inl na ↦ cc
        | inr asks ↦
            Exists-map _ _ b.levels
              (λ k p. (p.0, Exists-map _ _ b.levels (λ l r. (r.0, rw (r.1, p.1) lt)) asks)) bids
      ]
    ]

    to_quotes :
        HasCross b.levels
        → ((inside b).has_bid && (inside b).has_ask && ltb_ℤ (inside b).ask (inside b).bid) ≡ true
    to_quotes x =
        Exists-use _ _ _ b.levels
          (λ k top p. Exists-use _ _ _ b.levels (λ l low r. ground arith) s.ask_tops p.1) s.bid_tops
          x

-- ===== src/Engine/State/Processed.antt =====
-- engine/state.go and `Process` of engine/engine.go: what is stated of a datagram's intake.
use edge_feed_spec.Base.{
  ℕ, ◌+◌, ◌≤◌, ◌≡◌, refl, List, [], ◌∷◌, Bool, true, false, ltb, if◌then◌else◌, length, max, All,
  arith, Bool-cases, inl, inr, ◌⊎◌, nat_eq,
}
use edge_feed_spec.Engine.State.{
  BufferItem, IntakeTuple, PortTracker, PortBuffer, heap_push, pop_over, push_and_pop, wrap_item,
}
use edge_feed_spec.Engine.State.Buffer.{
  Before, Sorted, count, pop_over-Popped, heap_push-Sorted, length-heap_push, count-heap_push,
  All-heap_push,
}
use edge_feed_spec.Engine.State.Process.{Handover}

abbrev pub OfEra : ℕ → BufferItem → Type 0
OfEra era b = b.era ≡ era

-- The buffer is in order, within the window, and holds items of the port's era; fewer datagrams in
-- a row than the window, or than one, were dropped.
pub record IsTracker (window : ℕ) (t : PortTracker) : Type 0 where
  pub sorted : Sorted t.buf
  pub few : length t.buf ≤ window
  pub same_era : All (OfEra t.era) t.buf
  pub patient : t.stragglers ≤ max window 1
  pub unseeded : (t.era_initialized ≡ true) ⊎ (t.buf ≡ [])

abbrev pub in_era : IntakeTuple → ℕ
in_era item = item.frame.header.reset_count

-- The items handed to the classifier and those kept are the ones buffered before and, unless it is
-- dropped, the new one. The old era's items come first and in order, and none that is kept
-- goes before one that is handed over. The port is in the datagram's era, or dropped it.
pub record Processed (window : ℕ) (t : PortTracker) (item : IntakeTuple) (r : Handover)
    : Type 0 where
  pub none_lost :
      (p : BufferItem → Bool)
      → count p r.old_era + count p r.current + count p r.tracker.buf
        ≡ count p t.buf + (if r.dropped then 0 else count p (wrap_item t item ∷ []))
  pub old_sorted : Sorted r.old_era
  pub old_era_items : (t.era_initialized ≡ false) ⊎ All (OfEra t.era) r.old_era
  pub current_first : All (λ x. All (Before x) r.tracker.buf) r.current
  pub current_items : All (OfEra (in_era item)) r.current
  pub valid : IsTracker window r.tracker
  pub follows : (r.dropped ≡ true) ⊎ (r.tracker.era ≡ in_era item)
  pub counted : (r.dropped ≡ false) ⊎ (r.tracker.stragglers ≡ t.stragglers + 1)

-- What a push on a buffer of the item's era does.
pub record Pushed (window : ℕ) (t : PortTracker) (item : IntakeTuple)
    (r : List BufferItem × PortTracker) : Type 0 where
  pub none_lost :
      (p : BufferItem → Bool)
      → count p r.0 + count p r.1.buf ≡ count p t.buf + count p (wrap_item t item ∷ [])
  pub first : All (λ x. All (Before x) r.1.buf) r.0
  pub popped_era : All (OfEra (in_era item)) r.0
  pub kept_sorted : Sorted r.1.buf
  pub kept_few : length r.1.buf ≤ window
  pub kept_era : All (OfEra (in_era item)) r.1.buf

pop_over-All :
    (P : BufferItem → Type 0) (xs : PortBuffer) (window : ℕ)
    → All P xs
    → All P (pop_over xs window).0 × All P (pop_over xs window).1
unfolding pop_over
pop_over-All P [] window h = (tt, tt)
pop_over-All P (x ∷ xs) window h = elim (Bool-cases (ltb window (length (x ∷ xs)))) [
  | inl e ↦ rw e ((h.0, tt), h.1)
  | inr e ↦ rw e (tt, h)
]

pub push_and_pop-Pushed :
    (window : ℕ) (t : PortTracker) (item : IntakeTuple)
    → Sorted t.buf
    → length t.buf ≤ window
    → All (OfEra (in_era item)) t.buf
    → Pushed window t item (push_and_pop t item window)
unfolding push_and_pop wrap_item
push_and_pop-Pushed window t item s f e =
    let b = wrap_item t item in
    let c =
      pop_over-Popped (heap_push b t.buf) window (heap_push-Sorted b t.buf s)
        (omega (arith, length-heap_push b t.buf)) in
    let eras =
      pop_over-All (OfEra (in_era item)) (heap_push b t.buf) window
        (All-heap_push (OfEra (in_era item)) b t.buf refl e) in
    record {
      none_lost = λ p. ground (arith, c.none_lost p, count-heap_push p b t.buf);
      first = c.first;
      popped_era = eras.0;
      kept_sorted = c.kept_sorted;
      kept_few = c.kept_few;
      kept_era = eras.1;
    }

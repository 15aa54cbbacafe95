-- ===== src/Engine/Mbp/Follow.antt =====
-- engine/mbp.go: a tracker that follows a publisher's deltas and snapshot groups.
use edge_feed_spec.Base.{
  ℕ, suc, ◌+◌, ◌-◌, ◌^◌, ◌≤◌, ◌<◌, ◌≡◌, ◌⊎◌, [], true, false, if◌then◌else◌, ltb, leb, length, Bool,
  nat_eq, pair_eq,
}
use edge_feed_spec.Base.Int.{int_eq}
use edge_feed_spec.Base.Maps.{Distinct}
use edge_feed_spec.Engine.Mbp.{InstrKey, Instr, OpenSnap, max_mbp_journal}
use edge_feed_spec.Engine.Mbp.Sequence.{check_mbp_seq}
use edge_feed_spec.Engine.Mbp.Deltas.{apply_delta}
use edge_feed_spec.Engine.Mbp.Finish.{adopt}
use edge_feed_spec.Engine.Mbp.Publisher.{Publisher, ladder, entry, SameLevels}

-- A tracker that has nothing yet: a new one, or one that an instrument reset cleared.
pub record Blank (t : Instr) : Type 0 where
  pub unset : t.last_seq_set ≡ false
  pub no_base : t.base_set ≡ false
  pub no_journal : t.journal ≡ []
  pub no_overflow : t.overflow ≡ false
  pub nothing_dropped : t.dropped_max ≡ 0

-- A snapshot of the publisher's ladder after some number of deltas.
pub record IsTrue (p : Publisher) (o : OpenSnap) : Type 0 where
  pub distinct : Distinct o.levels
  pub levels : SameLevels o.levels (ladder p o.last_k).levels
  pub small : o.last_k + 1 < 2 ^ 32

-- The number up to which deltas may be missing from the journal, after one more arrives.
abbrev pub full : Instr → Bool
full t = leb max_mbp_journal (length t.journal)

unfoldable pub hole_after : Instr → ℕ → ℕ → ℕ
hole_after t hole n =
    if leb n t.last_seq
    then hole
    else if full t
    then n
    else if leb n (t.last_seq + 1)
    then hole
    else n - 1

-- What a tracker goes through that meets the deltas of a publisher in any order, with any lost or
-- repeated, and true snapshot groups. Two arrivals are excluded: a first delta that does not
-- continue an adopted group, and a group captured before the last hole of the journal.
pub data Run (p : Publisher) : Instr → ℕ → Type 0 where
  started : {t : Instr} → Blank t → Run p t 0
  first_delta :
      {t : Instr} {hole : ℕ} (epoch : ℕ) (k : InstrKey) (n seq : ℕ)
      → Run p t hole
      → t.last_seq_set ≡ false
      → n + 2 < 2 ^ 32
      → (t.base_set ≡ true → n ≡ t.base_k)
      → Run p (apply_delta (check_mbp_seq epoch t k (suc n) seq) (entry p (suc n))) n
  delta :
      {t : Instr} {hole : ℕ} (epoch : ℕ) (k : InstrKey) (n seq : ℕ)
      → Run p t hole
      → t.last_seq_set ≡ true
      → n + 1 < 2 ^ 32
      → Run p (apply_delta (check_mbp_seq epoch t k n seq) (entry p n)) (hole_after t hole n)
  group :
      {t : Instr} {hole : ℕ} (o : OpenSnap)
      → Run p t hole
      → IsTrue p o
      → (hole ≤ o.last_k) ⊎ (o.last_k < t.dropped_max)
      → Run p (adopt t o) (if ltb o.last_k t.dropped_max then hole else o.last_k)

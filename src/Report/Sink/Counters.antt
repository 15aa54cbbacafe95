-- ===== src/Report/Sink/Counters.antt =====
-- report/sink.go, `Aggregator.Record`: one increment of a nested counter.
use edge_feed_spec.Base.{
  ℕ, ◌+◌, ◌≡◌, ◌∙◌, ap, List, ◌&&◌, if◌then◌else◌, String, Eq, arith, Bool-cases, inl, inr,
}
use edge_feed_spec.Base.Strings.{str_eq, string_eq}
use edge_feed_spec.Base.Maps.{put, lookup-put}
use edge_feed_spec.Core.Finding.{status_eq}
use edge_feed_spec.Report.Sink.{counter, row, bump}

module _ {K : Type 0} ⦃e : Eq K⦄ where
  counter-put :
      (k j : K) (n : ℕ) (m : List (K × ℕ))
      → counter j (put k n m) ≡ (if e.beq k j then n else counter j m)
  unfolding counter
  counter-put k j n m = ground (arith, lookup-put k n j m)

  row-put :
      (id jd : String) (r : List (K × ℕ)) (m : List (String × List (K × ℕ)))
      → row jd (put id r m) ≡ (if str_eq id jd then r else row jd m)
  unfolding row
  row-put id jd r m = ground (arith, lookup-put id r jd m)

  raised :
      (j k : K) (r r2 : List (K × ℕ))
      → r ≡ r2
      → (if e.beq k j then counter k r + 1 else counter j r)
        ≡ counter j r2 + (if e.beq k j then 1 else 0)
  raised j k r r2 same = elim (Bool-cases (e.beq k j)) [
    | inr other ↦ rw other (omega (arith, ap (counter j) same))
    | inl here ↦
        rw here
          (omega (arith, ap (counter k) same, ap (λ x. counter x r2) ((e.beq_iff k j).0 here)))
  ]

  -- One `++` raises one counter by one.
  pub counter-bump :
      (id jd : String) (k j : K) (m : List (String × List (K × ℕ)))
      → counter j (row jd (bump id k m))
        ≡ counter j (row jd m) + (if str_eq id jd && e.beq k j then 1 else 0)
  unfolding bump
  counter-bump id jd k j m =
      let r = row id m in
      ap (counter j) (row-put id jd (put k (counter k r + 1) r) m)
      ∙ elim (Bool-cases (str_eq id jd)) [
        | inr other ↦ rw other (omega arith)
        | inl same ↦ rw same (
            counter-put k j (counter k r + 1) r
            ∙ raised j k r (row jd m) (ap (λ x. row x m) ((string_eq.beq_iff id jd).0 same)))
      ]

-- ===== src/Engine/Fields/Reads.antt =====
-- The reads of a message's body against its bytes.
use edge_feed_spec.Base.{
  ℕ, zero, suc, ◌+◌, ◌/◌, ◌%◌, ◌^◌, ◌<◌, ◌≤◌, ◌≡◌, ◌∙◌, refl, sym, ap, List, [], ◌∷◌, ◌++◌, length,
  take, drop, append_assoc, length-append, arith,
}
use edge_feed_spec.Base.Bytes.{
  AreBytes, le_value, put_le, le_value-lt, le_value-put_le, length-put_le, AreBytes-drop,
}
use edge_feed_spec.Wire.Header.{Message}
use edge_feed_spec.Wire.Build.{u8, u16, u32, u64}
use edge_feed_spec.Engine.Fields.{bytes_at, body_u8, body_u16_le, body_u32_le, body_u64_le}

AreBytes-take : (n : ℕ) (s : List ℕ) → AreBytes s → AreBytes (take n s)
AreBytes-take zero s h = tt
AreBytes-take (suc n) [] h = h
AreBytes-take (suc n) (x ∷ xs) h = (h.0, AreBytes-take n xs h.1)

length-take_le : (n : ℕ) (s : List ℕ) → length (take n s) ≤ n
length-take_le zero s = omega arith
length-take_le (suc n) [] = omega arith
length-take_le (suc n) (x ∷ xs) = omega (arith, length-take_le n xs)

bytes_at-lt : (n : ℕ) (m : Message) (off : ℕ) → AreBytes m.body → bytes_at n m off < 256 ^ n
bytes_at-lt n m off h =
    le_value-lt n (take n (drop off m.body)) (length-take_le n (drop off m.body))
      (AreBytes-take n (drop off m.body) (AreBytes-drop off m.body h))

-- What a body of bytes yields at any offset, past its end too, fits the width that is read.
pub body_reads_fit :
    (m : Message) (off : ℕ)
    → AreBytes m.body
    → (body_u8 m off < 2 ^ 8)
      × (body_u16_le m off < 2 ^ 16)
      × (body_u32_le m off < 2 ^ 32)
      × (body_u64_le m off < 2 ^ 64)
unfolding body_u8 body_u16_le body_u32_le body_u64_le
body_reads_fit m off h = (
  ground (arith, bytes_at-lt 1 m off h),
  ground (arith, bytes_at-lt 2 m off h),
  ground (arith, bytes_at-lt 4 m off h),
  ground (arith, bytes_at-lt 8 m off h),
)

drop-front : (xs ys : List ℕ) → drop (length xs) (xs ++ ys) ≡ ys
drop-front [] ys = refl
drop-front (x ∷ xs) ys = drop-front xs ys

take-front : (xs ys : List ℕ) → take (length xs) (xs ++ ys) ≡ xs
take-front [] ys = refl
take-front (x ∷ xs) ys = ap (λ t. x ∷ t) (take-front xs ys)

take-put_le : (n v : ℕ) (ys : List ℕ) → take n (put_le n v ++ ys) ≡ put_le n v
unfolding put_le
take-put_le zero v ys = refl
take-put_le (suc n) v ys = ap (λ t. (v % 256) ∷ t) (take-put_le n (v / 256) ys)

module _ (m : Message) where
  -- A number written between two parts of a body.
  abbrev Holds : List ℕ → ℕ → ℕ → List ℕ → Type 0
  Holds before n v after = m.body ≡ before ++ (put_le n v ++ after)

  bytes_at-put_le :
      (before after : List ℕ) (n v : ℕ)
      → Holds before n v after
      → v < 256 ^ n
      → bytes_at n m (length before) ≡ v
  bytes_at-put_le before after n v h small =
      ap (λ b. le_value (take n (drop (length before) b))) h
      ∙ ap (λ b. le_value (take n b)) (drop-front before (put_le n v ++ after))
      ∙ ap le_value (take-put_le n v after)
      ∙ le_value-put_le n v small

  long_enough :
      (before after : List ℕ) (n v : ℕ) → Holds before n v after → length before + n ≤ length m.body
  long_enough before after n v h = omega (
    arith,
    ap (length {0}) h,
    length-append before (put_le n v ++ after),
    length-append (put_le n v) after,
    length-put_le n v,
  )

  u8_read :
      (before after : List ℕ) (v : ℕ)
      → Holds before 1 v after
      → v < 2 ^ 8
      → body_u8 m (length before) ≡ v
  unfolding body_u8
  u8_read before after v h k =
      ground
        (arith, long_enough before after 1 v h, bytes_at-put_le before after 1 v h (omega arith))

  u16_read :
      (before after : List ℕ) (v : ℕ)
      → Holds before 2 v after
      → v < 2 ^ 16
      → body_u16_le m (length before) ≡ v
  unfolding body_u16_le
  u16_read before after v h k =
      ground
        (arith, long_enough before after 2 v h, bytes_at-put_le before after 2 v h (omega arith))

  u32_read :
      (before after : List ℕ) (v : ℕ)
      → Holds before 4 v after
      → v < 2 ^ 32
      → body_u32_le m (length before) ≡ v
  unfolding body_u32_le
  u32_read before after v h k =
      ground
        (arith, long_enough before after 4 v h, bytes_at-put_le before after 4 v h (omega arith))

  u64_read :
      (before after : List ℕ) (v : ℕ)
      → Holds before 8 v after
      → v < 2 ^ 64
      → body_u64_le m (length before) ≡ v
  unfolding body_u64_le
  u64_read before after v h k =
      ground
        (arith, long_enough before after 8 v h, bytes_at-put_le before after 8 v h (omega arith))

-- The bytes that the builder appends for a field of each width.
abbrev pub four_fields : List ℕ → ℕ → ℕ → ℕ → ℕ → List ℕ
four_fields before a b c d = u64 (u32 (u16 (u8 before a) b) c) d

-- In a body that the builder extends by a field of each width, each value that fits its width is
-- read back at the offset where its field begins, whatever stands before and after.
pub body_reads-four_fields :
    (m : Message) (before after : List ℕ) (a b c d : ℕ)
    → m.body ≡ four_fields before a b c d ++ after
    → a < 2 ^ 8
    → b < 2 ^ 16
    → c < 2 ^ 32
    → d < 2 ^ 64
    → (body_u8 m (length before) ≡ a)
      × (body_u16_le m (length (u8 before a)) ≡ b)
      × (body_u32_le m (length (u16 (u8 before a) b)) ≡ c)
      × (body_u64_le m (length (u32 (u16 (u8 before a) b) c)) ≡ d)
unfolding u8 u16 u32 u64 put_le
body_reads-four_fields m before after a b c d h ha hb hc hd = (
  u8_read m before (put_le 2 b ++ (put_le 4 c ++ (put_le 8 d ++ after))) a
      (h ∙ at4 ∙ at3 ∙ at2 ∙ append_assoc before (a ∷ []) rest2 ∙ one) ha,
  u16_read m p1 (put_le 4 c ++ (put_le 8 d ++ after)) b (h ∙ at4 ∙ at3 ∙ at2) hb,
  u32_read m p2 (put_le 8 d ++ after) c (h ∙ at4 ∙ at3) hc,
  u64_read m p3 after d (h ∙ at4) hd,
)
  where
    p1 : List ℕ
    p1 = before ++ (a ∷ [])

    p2 : List ℕ
    p2 = p1 ++ put_le 2 b

    p3 : List ℕ
    p3 = p2 ++ put_le 4 c

    rest2 : List ℕ
    rest2 = put_le 2 b ++ (put_le 4 c ++ (put_le 8 d ++ after))

    at4 : (p3 ++ put_le 8 d) ++ after ≡ p3 ++ (put_le 8 d ++ after)
    at4 = append_assoc p3 (put_le 8 d) after

    at3 : p3 ++ (put_le 8 d ++ after) ≡ p2 ++ (put_le 4 c ++ (put_le 8 d ++ after))
    at3 = append_assoc p2 (put_le 4 c) (put_le 8 d ++ after)

    at2 : p2 ++ (put_le 4 c ++ (put_le 8 d ++ after)) ≡ p1 ++ rest2
    at2 = append_assoc p1 (put_le 2 b) (put_le 4 c ++ (put_le 8 d ++ after))

    low : a % 256 ≡ a
    low = omega arith

    one : before ++ ((a ∷ []) ++ rest2) ≡ before ++ (put_le 1 a ++ rest2)
    one = ap (λ x. before ++ (x ∷ rest2)) (sym low)

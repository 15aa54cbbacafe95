-- ===== src/Base/Bytes.antt =====
-- Byte slices as lists of numbers, and little-endian integers (Go's encoding/binary).
use Prim.Native.Nat.{ℕ, zero, suc, ◌+◌, ◌-◌, ◌*◌, ◌/◌, ◌%◌, ◌^◌, ◌≤◌, ◌<◌}
use mathlib.Core.Path.{◌≡◌, refl}
use mathlib.Core.Bool.{◌&&◌}
use mathlib.Core.List.{List, [], ◌∷◌}
use native.Mathlib.Omega.{arith}
use edge_feed_spec.Base.Tests.{if◌then◌else◌, leb}
use edge_feed_spec.Base.Lists.{length, take, drop, All}
use edge_feed_spec.Base.Exec.{Exec, done, panic, index}

abbrev pub IsByte : ℕ → Type 0
IsByte b = b < 256

abbrev pub AreBytes : List ℕ → Type 0
AreBytes = All IsByte

-- The number that bytes stand for, lowest byte first.
unfoldable pub le_value : List ℕ → ℕ
le_value [] = 0
le_value (b ∷ bs) = b + 256 * le_value bs

-- The lowest `n` bytes of a number, lowest first (`PutUint16`, `PutUint64`).
unfoldable pub put_le : ℕ → ℕ → List ℕ
put_le zero v = []
put_le (suc n) v = (v % 256) ∷ put_le n (v / 256)

-- `LittleEndian.Uint…(s[off:])` over `n` bytes: panics where the slice is too short.
unfoldable pub read_le : List ℕ → ℕ → ℕ → Exec ℕ
read_le s off n = if leb (off + n) (length s) then done (le_value (take n (drop off s))) else panic

-- `s[lo:hi]`, for a slice whose capacity is its length.
unfoldable pub slice : List ℕ → ℕ → ℕ → Exec (List ℕ)
slice s lo hi = if leb lo hi && leb hi (length s) then done (take (hi - lo) (drop lo s)) else panic

pub length-put_le : (n v : ℕ) → length (put_le n v) ≡ n
unfolding put_le
length-put_le zero v = refl
length-put_le (suc n) v = omega (arith, length-put_le n (v / 256))

pub put_le-AreBytes : (n v : ℕ) → AreBytes (put_le n v)
unfolding put_le
put_le-AreBytes zero v = tt
put_le-AreBytes (suc n) v = (omega arith, put_le-AreBytes n (v / 256))

pub le_value-lt : (n : ℕ) (bs : List ℕ) → length bs ≤ n → AreBytes bs → le_value bs < 256 ^ n
unfolding le_value
le_value-lt zero [] h r = omega arith
le_value-lt (suc n) [] h r = omega (arith, le_value-lt n [] (omega arith) r)
le_value-lt zero (b ∷ bs) h r = absurd (omega arith)
le_value-lt (suc n) (b ∷ bs) h r = omega (arith, le_value-lt n bs (omega arith) r.1)

pub le_value-put_le : (n v : ℕ) → v < 256 ^ n → le_value (put_le n v) ≡ v
unfolding le_value put_le
le_value-put_le zero v h = omega arith
le_value-put_le (suc n) v h = omega (arith, le_value-put_le n (v / 256) (omega arith))

low_byte : (b x : ℕ) → b < 256 → (b + 256 * x) % 256 ≡ b
low_byte b x h = omega arith

high_bytes : (b x : ℕ) → b < 256 → (b + 256 * x) / 256 ≡ x
high_bytes b x h = omega arith

pub put_le-le_value : (bs : List ℕ) → AreBytes bs → put_le (length bs) (le_value bs) ≡ bs
unfolding le_value put_le
put_le-le_value [] h = refl
put_le-le_value (b ∷ bs) h =
    ground
      (arith, put_le-le_value bs h.1, low_byte b (le_value bs) h.0, high_bytes b (le_value bs) h.0)

pub index_in_range : (s : List ℕ) (i : ℕ) → i < length s → (b : ℕ) × (index s i ≡ done b)
unfolding index
index_in_range [] i h = absurd (omega arith)
index_in_range (x ∷ xs) zero h = (x, refl)
index_in_range (x ∷ xs) (suc i) h = index_in_range xs i (omega arith)

pub AreBytes-drop : (n : ℕ) (s : List ℕ) → AreBytes s → AreBytes (drop n s)
AreBytes-drop zero s h = h
AreBytes-drop (suc n) [] h = h
AreBytes-drop (suc n) (x ∷ xs) h = AreBytes-drop n xs h.1

-- ===== src/Common/Int.antt =====
-- Go's signed integers: `int` fields, and `time.Duration` with its 64-bit wrap-around.
use Prim.Native.Nat.{ℕ, suc, ◌+◌, ◌-◌, ◌*◌, ◌^◌, ◌%◌, ◌≤◌, min}
use mathlib.Core.Path.{◌≡◌, refl}
use mathlib.Core.Bool.{Bool}
use native.Mathlib.Omega.{arith}
use alerts.Common.Tests.{ltb, leb, if◌then◌else◌}

-- `negsuc n` is -(n + 1).
pub data ℤ : Type 0 where
  pos : ℕ → ℤ
  negsuc : ℕ → ℤ

abbrev pub pos_part : ℤ → ℕ
pos_part (pos n) = n
pos_part (negsuc n) = 0

abbrev pub neg_part : ℤ → ℕ
neg_part (pos n) = 0
neg_part (negsuc n) = suc n

abbrev pub ltb_ℤ : ℤ → ℤ → Bool
ltb_ℤ a b = ltb (pos_part a + neg_part b) (pos_part b + neg_part a)

abbrev pub leb_ℤ : ℤ → ℤ → Bool
leb_ℤ a b = leb (pos_part a + neg_part b) (pos_part b + neg_part a)

-- The value of an int64 whose exact value would be x.
unfoldable pub wrap_64 : ℤ → ℤ
wrap_64 x = signed (bits x)
  where
    bits : ℤ → ℕ
    bits (pos n) = n % 2 ^ 64
    bits (negsuc n) = 2 ^ 64 - 1 - n % 2 ^ 64

    signed : ℕ → ℤ
    signed m = if ltb m (2 ^ 63) then pos m else negsuc (2 ^ 64 - m - 1)

-- n * k for a positive k, before the wrap
unfoldable pub scale : ℤ → ℕ → ℤ
scale (pos n) k = pos (n * k)
scale (negsuc n) k = negsuc (suc n * k - 1)

-- time.Second, in the nanoseconds of a time.Duration
abbrev pub second : ℕ
second = 1000000000

-- t.Sub(u) of two instants: the difference, saturated at the ends of int64.
unfoldable pub sub_time : ℕ → ℕ → ℤ
sub_time t u =
    if leb u t then pos (min (t - u) (2 ^ 63 - 1)) else negsuc (min (u - t - 1) (2 ^ 63 - 1))

wraps_over : wrap_64 (scale (pos 9223372037) second) ≡ negsuc 9223372036709551615
unfolding wrap_64 scale
wraps_over = refl

pub sub_time-le : (t u : ℕ) → pos_part (sub_time t u) ≤ t - u
unfolding sub_time
sub_time-le t u = ground arith

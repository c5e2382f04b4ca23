-- ===== src/Signal/Masks.antt =====
-- Signal masks read bit by bit: the operations `|`, `& ~` and the test `& BIT(s)`.
use c_loyha.Base.{ℕ, ◌-◌, ◌<◌, ◌^◌, min, ◌≡◌, ◌≢◌, true, ◌==◌, arith}
use c_loyha.Base.{if◌then◌else◌, bit_or}
use c_loyha.Base.Bits.{complement, bit_at, bit_at-bit_and, bit_at-complement, bit_at-bit_or}
use c_loyha.Base.Bits.{bit_at-two-pow, bit_and-two-pow, bit_at-le_one, bit_and-le, bit_or-lt}
use c_loyha.Signal.{bit, clear, has}
use native.Mathlib.Nat.{one-le-pow, pow-le-pow_right}

pub bit_at-clear :
    (j a b : ℕ) → j < 32 → b < 2 ^ 32 → bit_at (clear a b) j ≡ min (bit_at a j) (1 - bit_at b j)
bit_at-clear j a b small fits =
    rw (bit_at-bit_and j a (complement 32 b), bit_at-complement 32 j b small fits)

pub clear-lt : (a b : ℕ) → a < 2 ^ 32 → clear a b < 2 ^ 32
clear-lt a b fits = omega (arith, bit_and-le 32 a (complement 32 b) fits)

pub bit-lt : (s : ℕ) → s < 32 → bit s < 2 ^ 32
bit-lt s h = omega (arith, pow-le-pow_right {n = 2} (omega arith) {i = s} {j = 31} (omega arith))

-- The test reads the bit.
pub has-bit_at : (a s : ℕ) → a < 2 ^ 32 → has a s ≡ (bit_at a s == 1)
has-bit_at a s fits = ground (arith, bit_and-two-pow 32 s a fits, bit_at-le_one s a, one-le-pow s 2)

pub bit_at-insert : (j a s : ℕ) → bit_at (bit_or a (bit s)) j ≡ (if s == j then 1 else bit_at a j)
bit_at-insert j a s =
    ground (arith, bit_at-bit_or j a (bit s), bit_at-two-pow s j, bit_at-le_one j a)

pub insert-lt : (a s : ℕ) → a < 2 ^ 32 → s < 32 → bit_or a (bit s) < 2 ^ 32
insert-lt a s fits small = bit_or-lt 32 a (bit s) fits (bit-lt s small)

pub has_nonzero : (a s : ℕ) → has a s ≡ true → a ≢ 0
has_nonzero a s h z = ground (arith, bit_and-le 32 a (bit s) (omega arith))

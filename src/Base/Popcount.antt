-- ===== src/Base/Popcount.antt =====
-- The number of bits that are set among the `w` lowest.
use Prim.Native.Nat.{ℕ, zero, suc, ◌+◌, ◌/◌, ◌%◌, ◌<◌, ◌≤◌}
use mathlib.Core.Path.{◌≡◌, refl}
use native.Mathlib.Omega.{arith}
use c_loyha.Base.Tests.{◌==◌, if◌then◌else◌}
use c_loyha.Base.Bits.{bit_at}

pub popcount : ℕ → ℕ → ℕ
popcount zero x = 0
popcount (suc w) x = x % 2 + popcount w (x / 2)

pub popcount-le : (w x : ℕ) → popcount w x ≤ w
unfolding popcount
popcount-le zero x = omega arith
popcount-le (suc w) x = omega (arith, popcount-le w (x / 2))

pub popcount_same :
    (w x y : ℕ) → ((i : ℕ) → i < w → bit_at y i ≡ bit_at x i) → popcount w y ≡ popcount w x
unfolding popcount bit_at
popcount_same zero x y h = refl
popcount_same (suc w) x y h =
    omega
      (arith, h 0 (omega arith), popcount_same w (x / 2) (y / 2) (λ i lt. h (suc i) (omega arith)))

-- Taking one set bit away makes the count one less.
pub popcount_remove :
    (w x y s : ℕ)
    → s < w
    → bit_at x s ≡ 1
    → ((i : ℕ) → i < w → bit_at y i ≡ (if s == i then 0 else bit_at x i))
    → popcount w y + 1 ≡ popcount w x
unfolding popcount bit_at
popcount_remove zero x y s lt set h = absurd (omega arith)
popcount_remove (suc w) x y zero lt set h = omega (
  arith,
  h 0 (omega arith),
  popcount_same w (x / 2) (y / 2) (λ i small. ground (arith, h (suc i) (omega arith))),
)
popcount_remove (suc w) x y (suc s) lt set h = ground (
  arith,
  h 0 (omega arith),
  popcount_remove w (x / 2) (y / 2) s (omega arith) set
      (λ i small. ground (arith, h (suc i) (omega arith))),
)

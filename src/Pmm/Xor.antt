-- ===== src/Pmm/Xor.antt =====
-- The buddy of a block and the block that they make together: what `^` and `& ~` of one bit do.
use c_loyha.Base.{ℕ, zero, suc, ◌+◌, ◌-◌, ◌*◌, ◌/◌, ◌%◌, ◌^◌, ◌≤◌, ◌<◌, ◌≡◌}
use c_loyha.Base.{refl, ap, ap₂, ◌∙◌, min, arith, bit_and, bit_xor}
use c_loyha.Base.Bits.{bit_at, bit_xor_step, bit_and_step, complement}
use native.Mathlib.Nat.{pow-suc}
use Prim.Native.Nat.{differ, bit_xor-bitwise}

pub pow_mono : (i w : ℕ) → i < w → 2 ^ i < 2 ^ w
pow_mono i zero lt = absurd (omega arith)
pow_mono zero (suc zero) lt = omega arith
pow_mono zero (suc (suc w)) lt = omega (arith, pow_mono 0 (suc w) (omega arith), pow-suc 2 (suc w))
pow_mono (suc i) (suc w) lt = omega (arith, pow_mono i w (omega arith), pow-suc 2 i, pow-suc 2 w)

differ_one : (x : ℕ) → x ≤ 1 → differ x 1 ≡ 1 - x
differ_one zero le = refl
differ_one (suc zero) le = refl
differ_one (suc (suc x)) le = absurd (omega arith)

differ_none : (x : ℕ) → differ x 0 ≡ x
differ_none zero = refl
differ_none (suc x) = refl

bit_xor_none : (w a : ℕ) → a < 2 ^ w → bit_xor a 0 ≡ a
bit_xor_none zero a fits = let z : a ≡ 0 = omega arith in rw z (omega (arith, bit_xor-bitwise 0 0))
bit_xor_none (suc w) a fits = omega (
  arith,
  bit_xor_step a 0,
  differ_none (a % 2),
  bit_xor_none w (a / 2) (omega (arith, pow-suc 2 w)),
)

two-pow-suc_half : (i : ℕ) → (2 ^ suc i / 2 ≡ 2 ^ i) × (2 ^ suc i % 2 ≡ 0)
two-pow-suc_half i = (omega (arith, pow-suc 2 i), omega (arith, pow-suc 2 i))

-- `^` with one bit adds it or takes it away.
pub bit_xor-two-pow :
    (w i a : ℕ) → a < 2 ^ w → bit_xor a (2 ^ i) + 2 * (bit_at a i * 2 ^ i) ≡ a + 2 ^ i
unfolding bit_at
bit_xor-two-pow w zero a fits = omega (
  arith,
  bit_xor_step a 1,
  differ_one (a % 2) (omega arith),
  bit_xor_none w (a / 2) (omega arith),
)
bit_xor-two-pow w (suc i) a fits =
    let (half, even) = two-pow-suc_half i in
    let shifted : bit_xor a (2 ^ suc i) ≡ bit_xor (a / 2) (2 ^ i) * 2 + differ (a % 2) 0 =
      bit_xor_step a (2 ^ suc i)
      ∙ ap₂ (λ (x y : ℕ). bit_xor (a / 2) x * 2 + differ (a % 2) y) half even in
    omega (
      arith,
      shifted,
      differ_none (a % 2),
      bit_xor-two-pow w i (a / 2) (omega arith),
      pow-suc 2 i,
      ap (λ (t : ℕ). bit_at (a / 2) i * t) (pow-suc 2 i),
    )

bit_and_ones : (w a : ℕ) → a < 2 ^ w → bit_and a (2 ^ w - 1) ≡ a
bit_and_ones zero a fits = let z : a ≡ 0 = omega arith in rw z (omega (arith, bit_and_step 0 0))
bit_and_ones (suc w) a fits =
    let half : (2 ^ suc w - 1) / 2 ≡ 2 ^ w - 1 = omega (arith, pow-suc 2 w) in
    let odd : (2 ^ suc w - 1) % 2 ≡ 1 = omega (arith, pow-suc 2 w) in
    let shifted : bit_and a (2 ^ suc w - 1) ≡ bit_and (a / 2) (2 ^ w - 1) * 2 + min (a % 2) 1 =
      bit_and_step a (2 ^ suc w - 1)
      ∙ ap₂ (λ (x y : ℕ). bit_and (a / 2) x * 2 + min (a % 2) y) half odd in
    omega (arith, shifted, bit_and_ones w (a / 2) (omega (arith, pow-suc 2 w)))

-- `& ~` of one bit takes it away.
pub bit_and-complement :
    (w i a : ℕ) → i < w → a < 2 ^ w → bit_and a (complement w (2 ^ i)) + bit_at a i * 2 ^ i ≡ a
unfolding bit_at
bit_and-complement zero i a lt fits = absurd (omega arith)
bit_and-complement (suc w) zero a lt fits =
    let half : complement (suc w) 1 / 2 ≡ 2 ^ w - 1 = omega (arith, pow-suc 2 w) in
    let even : complement (suc w) 1 % 2 ≡ 0 = omega (arith, pow-suc 2 w) in
    let shifted : bit_and a (complement (suc w) 1)
        ≡ bit_and (a / 2) (2 ^ w - 1) * 2 + min (a % 2) 0 =
      bit_and_step a (complement (suc w) 1)
      ∙ ap₂ (λ (x y : ℕ). bit_and (a / 2) x * 2 + min (a % 2) y) half even in
    omega (arith, shifted, bit_and_ones w (a / 2) (omega (arith, pow-suc 2 w)))
bit_and-complement (suc w) (suc i) a lt fits =
    let room : 2 ^ i < 2 ^ w = pow_mono i w (omega arith) in
    let half : complement (suc w) (2 ^ suc i) / 2 ≡ complement w (2 ^ i) =
      omega (arith, pow-suc 2 w, pow-suc 2 i) in
    let odd : complement (suc w) (2 ^ suc i) % 2 ≡ 1 = omega (arith, pow-suc 2 w, pow-suc 2 i) in
    let shifted : bit_and a (complement (suc w) (2 ^ suc i))
        ≡ bit_and (a / 2) (complement w (2 ^ i)) * 2 + min (a % 2) 1 =
      bit_and_step a (complement (suc w) (2 ^ suc i))
      ∙ ap₂ (λ (x y : ℕ). bit_and (a / 2) x * 2 + min (a % 2) y) half odd in
    omega (
      arith,
      shifted,
      bit_and-complement w i (a / 2) (omega arith) (omega (arith, pow-suc 2 w)),
      pow-suc 2 i,
      ap (λ (t : ℕ). bit_at (a / 2) i * t) (pow-suc 2 i),
    )

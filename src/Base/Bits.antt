-- ===== src/Base/Bits.antt =====
-- The bit operations of the fixed-width types, read bit by bit: what `|`, `&`, `^` and `~` do to
-- the bit at each place.
use Prim.Native.Nat.{ℕ, zero, suc, ◌+◌, ◌-◌, ◌*◌, ◌/◌, ◌%◌, ◌^◌, ◌≤◌, ◌<◌, min, max}
use Prim.Native.Nat.{bit_and, bit_or, bit_xor, digits, bitwise, differ}
use Prim.Native.Nat.{bit_and-bitwise, bit_or-bitwise, bit_xor-bitwise}
use mathlib.Core.Path.{◌≡◌, refl, ap, ◌∙◌}
use c_loyha.Base.Tests.{◌==◌, if◌then◌else◌, Bool-cases}
use mathlib.Core.Bool.{false}
use mathlib.Core.Logic.{inl, inr}
use native.Mathlib.Nat.{pow-suc}
use native.Mathlib.Decide.{dec_le}
use native.Mathlib.Omega.{arith}

-- The bit of `x` at place `i`, as 0 or 1.
unfoldable pub bit_at : ℕ → ℕ → ℕ
bit_at x zero = x % 2
bit_at x (suc i) = bit_at (x / 2) i

-- The operations are recursions on binary digits with fuel. One unit of fuel too many changes
-- nothing, so half a number, which needs less, may be given its own value for fuel.
module _ (rest : ℕ → ℕ) (op : ℕ → ℕ → ℕ) where
  one_more_fuel : (k y x : ℕ) → x ≤ k → digits rest op (suc k) x y ≡ digits rest op k x y
  one_more_fuel zero y zero fits = refl
  one_more_fuel zero y (suc x) fits = elim fits [ ]
  one_more_fuel (suc k) y zero fits = refl
  one_more_fuel (suc k) y (suc x) fits =
      ap (λ t. t * 2 + op (suc x % 2) (y % 2)) (one_more_fuel k (y / 2) (suc x / 2) (omega arith))

  enough_fuel : (k x y : ℕ) → x ≤ k → digits rest op k x y ≡ bitwise rest op x y
  enough_fuel zero zero y fits = refl
  enough_fuel zero (suc x) y fits = elim fits [ ]
  enough_fuel (suc k) x y fits = elim (dec_le x k) [
    | yes less ↦ one_more_fuel k y x less ∙ enough_fuel k x y less
    | no last ↦ let all : x ≡ suc k = omega arith in rw all refl
  ]

  lowest_digit :
      (x y : ℕ)
      → bitwise rest op (suc x) y ≡ bitwise rest op (suc x / 2) (y / 2) * 2 + op (suc x % 2) (y % 2)
  lowest_digit x y =
      ap (λ t. t * 2 + op (suc x % 2) (y % 2)) (enough_fuel x (suc x / 2) (y / 2) (omega arith))

-- One equation for the lowest digit of each operation.
pub bit_or_step : (a b : ℕ) → bit_or a b ≡ bit_or (a / 2) (b / 2) * 2 + max (a % 2) (b % 2)
bit_or_step zero b = omega (arith, bit_or-bitwise 0 (b / 2), bit_or-bitwise 0 b)
bit_or_step (suc a) b =
    let halves = bit_or-bitwise (suc a / 2) (b / 2) in
    omega (arith, lowest_digit (λ y. y) max a b, halves, bit_or-bitwise (suc a) b)

pub bit_and_step : (a b : ℕ) → bit_and a b ≡ bit_and (a / 2) (b / 2) * 2 + min (a % 2) (b % 2)
bit_and_step zero b = omega (arith, bit_and-bitwise 0 (b / 2), bit_and-bitwise 0 b)
bit_and_step (suc a) b =
    let halves = bit_and-bitwise (suc a / 2) (b / 2) in
    omega (arith, lowest_digit (λ y. 0) min a b, halves, bit_and-bitwise (suc a) b)

pub bit_xor_step : (a b : ℕ) → bit_xor a b ≡ bit_xor (a / 2) (b / 2) * 2 + differ (a % 2) (b % 2)
bit_xor_step zero b = omega (arith, bit_xor-bitwise 0 (b / 2), bit_xor-bitwise 0 b)
bit_xor_step (suc a) b =
    let halves = bit_xor-bitwise (suc a / 2) (b / 2) in
    omega (arith, lowest_digit (λ y. y) differ a b, halves, bit_xor-bitwise (suc a) b)

-- What each operation does at each place.
bit_or_half : (a b : ℕ) → bit_or a b / 2 ≡ bit_or (a / 2) (b / 2)
bit_or_half a b = omega (arith, bit_or_step a b)

bit_and_half : (a b : ℕ) → bit_and a b / 2 ≡ bit_and (a / 2) (b / 2)
bit_and_half a b = omega (arith, bit_and_step a b)

pub bit_at-bit_or : (i a b : ℕ) → bit_at (bit_or a b) i ≡ max (bit_at a i) (bit_at b i)
unfolding bit_at
bit_at-bit_or zero a b = omega (arith, bit_or_step a b)
bit_at-bit_or (suc i) a b = rw bit_or_half (bit_at-bit_or i (a / 2) (b / 2))

pub bit_at-bit_and : (i a b : ℕ) → bit_at (bit_and a b) i ≡ min (bit_at a i) (bit_at b i)
unfolding bit_at
bit_at-bit_and zero a b = omega (arith, bit_and_step a b)
bit_at-bit_and (suc i) a b = rw bit_and_half (bit_at-bit_and i (a / 2) (b / 2))

pub bit_at-le_one : (i a : ℕ) → bit_at a i ≤ 1
unfolding bit_at
bit_at-le_one zero a = omega arith
bit_at-le_one (suc i) a = bit_at-le_one i (a / 2)

-- `~x` of `w` bits.
abbrev pub complement : ℕ → ℕ → ℕ
complement w x = 2 ^ w - 1 - x

pub bit_at-complement : (w i x : ℕ) → i < w → x < 2 ^ w → bit_at (complement w x) i ≡ 1 - bit_at x i
unfolding bit_at
bit_at-complement zero i x h lt = absurd (omega arith)
bit_at-complement (suc w) zero x h lt = omega (arith, pow-suc 2 w)
bit_at-complement (suc w) (suc i) x h lt =
    let half : complement (suc w) x / 2 ≡ complement w (x / 2) = omega (arith, pow-suc 2 w) in
    rw half (bit_at-complement w i (x / 2) (omega arith) (omega (arith, pow-suc 2 w)))

bit_at-zero : (j : ℕ) → bit_at 0 j ≡ 0
unfolding bit_at
bit_at-zero zero = refl
bit_at-zero (suc j) = bit_at-zero j

two-pow-suc_half : (i : ℕ) → 2 ^ suc i / 2 ≡ 2 ^ i
two-pow-suc_half i = omega (arith, pow-suc 2 i)

-- `1 << i` has its one bit at place `i`.
pub bit_at-two-pow : (i j : ℕ) → bit_at (2 ^ i) j ≡ (if i == j then 1 else 0)
unfolding bit_at
bit_at-two-pow zero zero = refl
bit_at-two-pow zero (suc j) = ground (arith, bit_at-zero j)
bit_at-two-pow (suc i) zero = ground (arith, pow-suc 2 i)
bit_at-two-pow (suc i) (suc j) = rw two-pow-suc_half (ground (arith, bit_at-two-pow i j))

pub bit_or-lt : (w a b : ℕ) → a < 2 ^ w → b < 2 ^ w → bit_or a b < 2 ^ w
bit_or-lt zero zero zero p q = omega arith
bit_or-lt zero zero (suc b) p q = absurd (omega arith)
bit_or-lt zero (suc a) b p q = absurd (omega arith)
bit_or-lt (suc w) a b p q =
    let below : bit_or (a / 2) (b / 2) < 2 ^ w =
      bit_or-lt w (a / 2) (b / 2) (omega (arith, pow-suc 2 w)) (omega (arith, pow-suc 2 w)) in
    omega (arith, bit_or_step a b, pow-suc 2 w)

pub bit_and-le : (w a b : ℕ) → a < 2 ^ w → bit_and a b ≤ a
bit_and-le zero zero b p = omega (arith, bit_and-bitwise 0 b)
bit_and-le zero (suc a) b p = absurd (omega arith)
bit_and-le (suc w) a b p =
    omega (arith, bit_and_step a b, bit_and-le w (a / 2) (b / 2) (omega (arith, pow-suc 2 w)))

-- `a & (1 << i)` is the bit at place `i`, in its place.
bit_and-zero : (w a : ℕ) → a < 2 ^ w → bit_and a 0 ≡ 0
bit_and-zero zero a p = rw (one a p) refl
  where
    one : (a : ℕ) → a < 2 ^ 0 → a ≡ 0
    one a p = omega arith
bit_and-zero (suc w) a p =
    omega (arith, bit_and_step a 0, bit_and-zero w (a / 2) (omega (arith, pow-suc 2 w)))

pub bit_and-two-pow : (w i a : ℕ) → a < 2 ^ w → bit_and a (2 ^ i) ≡ bit_at a i * 2 ^ i
unfolding bit_at
bit_and-two-pow w zero a p = omega (arith, bit_and_step a 1, bit_and-zero w (a / 2) (omega arith))
bit_and-two-pow w (suc i) a p =
    let shifted : bit_and a (2 ^ suc i)
        ≡ bit_and (a / 2) (2 ^ i) * 2 + min (a % 2) (2 ^ suc i % 2) =
      rw (bit_and_step a (2 ^ suc i), two-pow-suc_half i) refl in
    omega (
      arith,
      bit_and-two-pow w i (a / 2) (omega arith),
      pow-suc 2 i,
      ap (λ (t : ℕ). bit_at (a / 2) i * t) (pow-suc 2 i),
    )

-- A number with no bit set is 0.
pub zero_of_bits : (w a : ℕ) → a < 2 ^ w → ((i : ℕ) → i < w → bit_at a i ≡ 0) → a ≡ 0
unfolding bit_at
zero_of_bits zero a p h = omega arith
zero_of_bits (suc w) a p h = omega (
  arith,
  h 0 (omega arith),
  zero_of_bits w (a / 2) (omega (arith, pow-suc 2 w)) (λ i lt. h (suc i) (omega arith)),
)

pub eq_of_bits :
    (w a b : ℕ) → a < 2 ^ w → b < 2 ^ w → ((i : ℕ) → i < w → bit_at a i ≡ bit_at b i) → a ≡ b
unfolding bit_at
eq_of_bits zero a b p q h = omega arith
eq_of_bits (suc w) a b p q h = omega (
  arith,
  h 0 (omega arith),
  eq_of_bits w (a / 2) (b / 2) (omega (arith, pow-suc 2 w)) (omega (arith, pow-suc 2 w))
      (λ i lt. h (suc i) (omega arith)),
)

-- `__builtin_ctz` of a word of `w` bits that is not 0: its lowest place with a bit.
unfoldable pub ctz : ℕ → ℕ → ℕ
ctz zero x = 0
ctz (suc w) x = let higher = suc (ctz w (x / 2)) in if x % 2 == 1 then 0 else higher

zero_below :
    (x c : ℕ)
    → (x % 2 == 1) ≡ false
    → ((j : ℕ) → j < c → bit_at (x / 2) j ≡ 0)
    → (j : ℕ) → j < suc c
    → bit_at x j ≡ 0
unfolding bit_at
zero_below x c even h zero lt = ground arith
zero_below x c even h (suc j) lt = h j (omega arith)

pub ctz_lowest :
    (w x : ℕ)
    → x < 2 ^ w
    → 0 < x
    → (ctz w x < w) × (bit_at x (ctz w x) ≡ 1) × ((j : ℕ) → j < ctz w x → bit_at x j ≡ 0)
unfolding ctz bit_at
ctz_lowest zero x p q = absurd (omega arith)
ctz_lowest (suc w) x p q = elim (Bool-cases (x % 2 == 1)) [
  | inl odd ↦ rw odd (omega arith, ground arith, λ j h. absurd (omega arith))
  | inr even ↦
      let (small, found, below) =
        ctz_lowest w (x / 2) (omega (arith, pow-suc 2 w)) (ground arith) in
      rw even (omega arith, found, zero_below x (ctz w (x / 2)) even below)
]

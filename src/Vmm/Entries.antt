-- ===== src/Vmm/Entries.antt =====
-- The fields of an entry of a page table that is put together by `|`.
use c_loyha.Base.{
  ℕ, zero, suc, ◌+◌, ◌*◌, ◌/◌, ◌%◌, ◌^◌, ◌<◌, ◌≡◌, refl, sym, ap, ap₂, ◌∙◌, arith, bit_or,
}
use c_loyha.Base.{Bool, true, false, if◌then◌else◌}
use c_loyha.Base.Bits.{bit_or_step, bit_or-lt}
use Prim.Native.Nat.{bit_or-bitwise}
use c_loyha.Vmm.{pte_addr, pte_flags, pte_present, pte_huge, table_entry, leaf_entry}
use native.Mathlib.Nat.{pow-suc}

zero_bit_or : (b : ℕ) → bit_or 0 b ≡ b
zero_bit_or b = omega (arith, bit_or-bitwise 0 b)

bit_or_fits : (w a : ℕ) → a < 2 ^ w → bit_or a 0 ≡ a
bit_or_fits zero a fits = let z : a ≡ 0 = omega arith in rw z (zero_bit_or 0)
bit_or_fits (suc w) a fits =
    omega (arith, bit_or_step a 0, bit_or_fits w (a / 2) (omega (arith, pow-suc 2 w)))

lt_two_pow : (a : ℕ) → a < 2 ^ a
lt_two_pow zero = omega arith
lt_two_pow (suc a) = omega (arith, lt_two_pow a, pow-suc 2 a)

bit_or_none : (a : ℕ) → bit_or a 0 ≡ a
bit_or_none a = bit_or_fits a a (lt_two_pow a)

-- `|` of two numbers goes by their low `k` bits and by the rest.
bit_or_parts :
    (k a b c d : ℕ)
    → a < 2 ^ k
    → b < 2 ^ k
    → bit_or (a + 2 ^ k * c) (b + 2 ^ k * d) ≡ bit_or a b + 2 ^ k * bit_or c d
bit_or_parts zero a b c d la lb =
    let za : a ≡ 0 = omega arith in
    let zb : b ≡ 0 = omega arith in
    let ec : 0 + 2 ^ 0 * c ≡ c = omega arith in
    let ed : 0 + 2 ^ 0 * d ≡ d = omega arith in
    let z : bit_or 0 0 ≡ 0 = zero_bit_or 0 in
    let one_part : 0 + 2 ^ 0 * bit_or c d ≡ bit_or c d = omega arith in
    rw (za, zb) (ap₂ bit_or ec ed ∙ sym (ap (λ (t : ℕ). t + 2 ^ 0 * bit_or c d) z ∙ one_part))
bit_or_parts (suc k) a b c d la lb =
    let twice_c : 2 ^ suc k * c ≡ 2 * (2 ^ k * c) =
      omega (arith, ap (λ (t : ℕ). t * c) (pow-suc 2 k)) in
    let twice_d : 2 ^ suc k * d ≡ 2 * (2 ^ k * d) =
      omega (arith, ap (λ (t : ℕ). t * d) (pow-suc 2 k)) in
    let twice_r : 2 ^ suc k * bit_or c d ≡ 2 * (2 ^ k * bit_or c d) =
      omega (arith, ap (λ (t : ℕ). t * bit_or c d) (pow-suc 2 k)) in
    let half_a : (a + 2 ^ suc k * c) / 2 ≡ a / 2 + 2 ^ k * c = omega arith in
    let half_b : (b + 2 ^ suc k * d) / 2 ≡ b / 2 + 2 ^ k * d = omega arith in
    let digit_a : (a + 2 ^ suc k * c) % 2 ≡ a % 2 = omega arith in
    let digit_b : (b + 2 ^ suc k * d) % 2 ≡ b % 2 = omega arith in
    let below =
      bit_or_parts k (a / 2) (b / 2) c d (omega (arith, pow-suc 2 k))
        (omega (arith, pow-suc 2 k)) in
    let halves : bit_or ((a + 2 ^ suc k * c) / 2) ((b + 2 ^ suc k * d) / 2)
        ≡ bit_or (a / 2) (b / 2) + 2 ^ k * bit_or c d =
      ap₂ bit_or half_a half_b ∙ below in
    omega (arith, bit_or_step (a + 2 ^ suc k * c) (b + 2 ^ suc k * d), bit_or_step a b, halves)

-- A number whose low 12 bits are given.
pub bit_or_low :
    (lo p f : ℕ) → lo < 4096 → f < 4096 → bit_or (lo + 4096 * p) f ≡ bit_or lo f + 4096 * p
bit_or_low lo p f small small' =
    let none_high : f ≡ f + 4096 * 0 = omega arith in
    ap (bit_or (lo + 4096 * p)) none_high
    ∙ bit_or_parts 12 lo f p 0 small small'
    ∙ ap (λ (t : ℕ). bit_or lo f + 4096 * t) (bit_or_none p)

page_or : (p f : ℕ) → f < 4096 → bit_or (p * 4096) f ≡ 4096 * p + f
page_or p f small =
    let e : p * 4096 ≡ 0 + 4096 * p = omega arith in
    ap (λ (t : ℕ). bit_or t f) e
    ∙ bit_or_low 0 p f (omega arith) small
    ∙ omega (arith, zero_bit_or f)

table_flags : (user : Bool) → bit_or 3 (if user then 4 else 0) ≡ (if user then 7 else 3)
table_flags true = refl
table_flags false = refl

-- `t | flags` of a table: the address, and the bits that the walk tests.
table_entry_eq :
    (p : ℕ) (user : Bool) → table_entry (p * 4096) user ≡ 4096 * p + (if user then 7 else 3)
table_entry_eq p user =
    let one : bit_or (p * 4096) 1 ≡ 1 + 4096 * p = omega (arith, page_or p 1 (omega arith)) in
    let two : bit_or (bit_or (p * 4096) 1) 2 ≡ 3 + 4096 * p =
      ap (λ (t : ℕ). bit_or t 2) one ∙ bit_or_low 1 p 2 (omega arith) (omega arith) in
    ap (λ (t : ℕ). bit_or t (if user then 4 else 0)) two
    ∙ bit_or_low 3 p (if user then 4 else 0) (omega arith) (ground arith)
    ∙ ap (λ (t : ℕ). t + 4096 * p) (table_flags user)
    ∙ omega arith

pub table_entry_lem :
    (p : ℕ) (user : Bool)
    → p < 0x10000000000
    → (pte_addr (table_entry (p * 4096) user) ≡ p * 4096)
      × (pte_present (table_entry (p * 4096) user) ≡ true)
      × (pte_huge (table_entry (p * 4096) user) ≡ false)
table_entry_lem p true fits = rw (table_entry_eq p true) (omega arith, ground arith, ground arith)
table_entry_lem p false fits = rw (table_entry_eq p false) (omega arith, ground arith, ground arith)

-- The flags stand below and above the address.
flags_or :
    (p lo hi : ℕ)
    → lo < 4096
    → p < 0x10000000000
    → bit_or (p * 4096) (lo + 0x10000000000000 * hi) ≡ lo + 4096 * (p + 0x10000000000 * hi)
flags_or p lo hi small fits =
    let low : p * 4096 ≡ 0 + 4096 * p = omega arith in
    let high : lo + 0x10000000000000 * hi ≡ lo + 4096 * (0 + 0x10000000000 * hi) = omega arith in
    let all : p ≡ p + 0x10000000000 * 0 = omega arith in
    let upper : bit_or p (0 + 0x10000000000 * hi) ≡ p + 0x10000000000 * hi =
      ap (λ (t : ℕ). bit_or t (0 + 0x10000000000 * hi)) all
      ∙ bit_or_parts 40 p 0 0 hi fits (omega arith)
      ∙ ap₂ (λ (x y : ℕ). x + 0x10000000000 * y) (bit_or_none p) (zero_bit_or hi) in
    ap₂ bit_or low high
    ∙ bit_or_parts 12 0 lo p (0 + 0x10000000000 * hi) (omega arith) small
    ∙ ap₂ (λ (x y : ℕ). x + 4096 * y) (zero_bit_or lo) upper

leaf_entry_eq :
    (p flags : ℕ)
    → p < 0x10000000000
    → leaf_entry (p * 4096) flags
      ≡ bit_or (flags % 4096) 1 + 4096 * (p + 0x10000000000 * (flags / 0x10000000000000))
leaf_entry_eq p flags fits =
    let lo = flags % 4096 in
    let hi = flags / 0x10000000000000 in
    let parts : pte_flags flags ≡ lo + 0x10000000000000 * hi = omega arith in
    ap (λ (t : ℕ). bit_or (bit_or (p * 4096) t) 1) parts
    ∙ ap (λ (t : ℕ). bit_or t 1) (flags_or p lo hi (omega arith) fits)
    ∙ bit_or_low lo (p + 0x10000000000 * hi) 1 (omega arith) (omega arith)

pub leaf_entry_lem :
    (p flags : ℕ)
    → p < 0x10000000000
    → (pte_addr (leaf_entry (p * 4096) flags) ≡ p * 4096)
      × (pte_present (leaf_entry (p * 4096) flags) ≡ true)
      × (pte_flags (leaf_entry (p * 4096) flags) ≡ bit_or (pte_flags flags) 1)
leaf_entry_lem p flags fits =
    let lo = flags % 4096 in
    let hi = flags / 0x10000000000000 in
    let small : bit_or lo 1 < 4096 = bit_or-lt 12 lo 1 (omega arith) (omega arith) in
    let odd = bit_or_step lo 1 in
    let given : pte_flags flags ≡ lo + 4096 * (0x10000000000 * hi) = omega arith in
    let kept : bit_or (pte_flags flags) 1 ≡ bit_or lo 1 + 4096 * (0x10000000000 * hi) =
      ap (λ (t : ℕ). bit_or t 1) given
      ∙ bit_or_low lo (0x10000000000 * hi) 1 (omega arith) (omega arith) in
    rw (leaf_entry_eq p flags fits)
      (omega (arith, small), ground (arith, small, odd), omega (arith, small, kept))

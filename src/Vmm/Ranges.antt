-- ===== src/Vmm/Ranges.antt =====
-- `vmm_user_range_ok` of kernel/mm/vmm.c: whether a program may access a range.
use c_loyha.Base.{ℕ, zero, suc, ◌+◌, ◌*◌, ◌/◌, ◌%◌, ◌≤◌, ◌<◌, ◌≡◌, ◌≢◌, inl, inr, refl, arith}
use c_loyha.Base.{
  Bool, true, false, not, ◌&&◌, ◌||◌, ◌==◌, ltb, if◌then◌else◌, Bool-cases, Option-cases, Option,
  none, some,
}
use native.Mathlib.Decide.{ℕ_discrete}
use c_loyha.Vma.{page_size, align_down, user_space_end, u64}
use c_loyha.Vmm.{Vmm, pte_user, pte_writable, is_user_address, vmm_translate}

-- The tests of one page; an address 0 counts as none.
abbrev pub page_ok : Option (ℕ × ℕ) → Bool → Bool
page_ok none write = false
page_ok (some (phys, flags)) write =
    not (phys == 0) && (pte_user flags && not (write && not (pte_writable flags)))

-- The loop, with `fuel` pages left at most.
unfoldable pub range_from : (fuel : ℕ) → Vmm → ℕ → ℕ → ℕ → Bool → Bool
range_from zero st pml4 page fin write = true
range_from (suc fuel) st pml4 page fin write =
    let rest = range_from fuel st pml4 (page + page_size) fin write in
    if not (ltb page fin)
    then true
    else if page_ok (vmm_translate st pml4 page) write
    then rest
    else false

unfoldable pub vmm_user_range_ok : Vmm → ℕ → ℕ → ℕ → Bool → Bool
vmm_user_range_ok st pml4 virt len write =
    let fin = u64 (virt + len) in
    if len == 0
    then true
    else if ltb fin virt || not (is_user_address virt) || ltb user_space_end fin
    then false
    else range_from (len / page_size + 2) st pml4 (align_down virt) fin write

-- The page of `a` is mapped, not to frame 0, for programs, and for writing where that is asked.
abbrev pub ForPrograms : Vmm → ℕ → ℕ → Bool → Type 0
ForPrograms st pml4 a write =
    (phys : ℕ) × (flags : ℕ) × (vmm_translate st pml4 a ≡ some (phys, flags))
    × (phys ≢ 0)
    × (pte_user flags ≡ true)
    × (write ≡ true → pte_writable flags ≡ true)

-- Each page of the range is mapped so.
unfoldable pub AllOk : Vmm → ℕ → ℕ → ℕ → Bool → Type 0
AllOk st pml4 page fin write =
    (a : ℕ) → a % page_size ≡ 0 → page ≤ a → a < fin → ForPrograms st pml4 a write

page_ok-ForPrograms :
    (st : Vmm) (pml4 a : ℕ) (write : Bool)
    → page_ok (vmm_translate st pml4 a) write ≡ true
    → ForPrograms st pml4 a write
page_ok-ForPrograms st pml4 a write fine = elim (Option-cases (vmm_translate st pml4 a)) [
  | inl unmapped ↦ let clash : false ≡ true = rw unmapped at fine in absurd cc
  | inr ((phys, flags), mapped) ↦
      let tests : (not (phys == 0) && (pte_user flags && not (write && not (pte_writable flags))))
          ≡ true =
        rw mapped at fine in
      (phys, flags, mapped, ground arith, ground arith, λ writes. ground arith)
]

ForPrograms-page_ok :
    (st : Vmm) (pml4 a : ℕ) (write : Bool)
    → ForPrograms st pml4 a write
    → page_ok (vmm_translate st pml4 a) write ≡ true
ForPrograms-page_ok st pml4 a write (phys, flags, mapped, frame, user, writes) =
    rw mapped (ground (arith, writes))

module _ (st : Vmm) (pml4 fin : ℕ) (write : Bool) where
  range_from-AllOk :
      (fuel page : ℕ)
      → page % page_size ≡ 0
      → fin ≤ page + fuel * page_size
      → range_from fuel st pml4 page fin write ≡ true
      → AllOk st pml4 page fin write
  unfolding range_from AllOk
  range_from-AllOk zero page aligned enough done a on_page from below =
      absurd (omega (arith, enough, from, below))
  range_from-AllOk (suc fuel) page aligned enough done a on_page from below =
      let more : ltb page fin ≡ true = ground arith in
      elim (Bool-cases (page_ok (vmm_translate st pml4 page) write)) [
        | inr bad ↦ let clash : false ≡ true = rw (range_from, more, bad) at done in absurd cc
        | inl fine ↦ elim (ℕ_discrete a page) [
          | yes here ↦ rw here (page_ok-ForPrograms st pml4 page write fine)
          | no other ↦
              range_from-AllOk fuel (page + page_size) (omega arith) (omega arith)
                (rw (range_from, more, fine) at done) a on_page (omega arith) below
        ]
      ]

  AllOk-range_from :
      (fuel page : ℕ)
      → page % page_size ≡ 0
      → AllOk st pml4 page fin write
      → range_from fuel st pml4 page fin write ≡ true
  unfolding range_from AllOk
  AllOk-range_from zero page aligned all = refl
  AllOk-range_from (suc fuel) page aligned all = elim (Bool-cases (ltb page fin)) [
    | inr over ↦ rw (range_from, over) refl
    | inl more ↦
        rw
          (
            range_from,
            more,
            ForPrograms-page_ok st pml4 page write (all page aligned (omega arith) (ground arith)),
          )
          (AllOk-range_from fuel (page + page_size) (omega arith)
            (λ a on_page from below. all a on_page (omega arith) below))
  ]

-- For a range that is not empty and does not wrap around, `vmm_user_range_ok` is true exactly when the
-- range lies in the half of programs and each of its pages is mapped, not to the address 0, with the
-- user flag, and with the writable flag where writing is asked for.
pub vmm_user_range_ok_lem :
    (st : Vmm) (pml4 virt len : ℕ) (write : Bool)
    → 0 < len
    → virt + len < 0x10000000000000000
    → (vmm_user_range_ok st pml4 virt len write ≡ true
        → (virt + len ≤ user_space_end) × AllOk st pml4 (align_down virt) (virt + len) write)
      × (virt + len ≤ user_space_end
          → AllOk st pml4 (align_down virt) (virt + len) write
          → vmm_user_range_ok st pml4 virt len write ≡ true)
unfolding vmm_user_range_ok
vmm_user_range_ok_lem st pml4 virt len write positive sum =
    let fin : u64 (virt + len) ≡ virt + len = omega arith in
    let some_len : (len == 0) ≡ false = ground arith in
    elim (Bool-cases
      (ltb (virt + len) virt || not (is_user_address virt) || ltb user_space_end (virt + len))) [
        | inl outside ↦
            rw (vmm_user_range_ok, some_len, fin, outside)
              (λ h. absurd cc, λ low all. absurd (ground arith))
        | inr inside ↦
            rw (vmm_user_range_ok, some_len, fin, inside)
              (
                λ done. (
                  ground arith,
                  range_from-AllOk st pml4 (virt + len) write (len / page_size + 2)
                      (align_down virt) (omega arith) (omega arith) done,
                ),
                λ low all.
                    AllOk-range_from st pml4 (virt + len) write (len / page_size + 2)
                      (align_down virt) (omega arith) all,
              )
      ]

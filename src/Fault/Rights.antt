-- ===== src/Fault/Rights.antt =====
-- `mm_handle_fault` of kernel/mm/mm.c: which faults are answered at all.
use c_loyha.Base.{ℕ, ◌*◌, ◌<◌, ◌≡◌, ◌⊎◌, refl, inl, inr, ◌∙◌, arith, List}
use c_loyha.Base.{Bool, true, false, not, ◌&&◌, ◌||◌, Bool-cases, Option-cases, Option, none, some}
use c_loyha.Vma.{Vma, align_down, find_vma}
use c_loyha.Vma.Stack.{grow_stack}
use c_loyha.Vmm.{Vmm, has_bit, is_user_address}
use c_loyha.Vmm.Tree.{Places}
use c_loyha.Vmm.Space.{Space}
use c_loyha.Vmm.Tables.{not-Grown}
use c_loyha.Fault.{prot_write, prot_exec, fault_page, region_at, with_regions, mm_handle_fault}
use c_loyha.Fault.Entry.{UserData}
use c_loyha.Fault.Outcome.{FaultDone, Grown-FaultDone}
use c_loyha.Fault.Touch.{KnowsNx}
use c_loyha.Fault.Shared.{FaultOutcome}
use c_loyha.Fault.Handling.{fault_page-FaultOutcome}

-- The address lies in a region that allows the access.
abbrev pub Allowed : List Vma → ℕ → ℕ → Type 0
Allowed vmas addr err =
    (v : Vma) × (find_vma vmas addr ≡ some v)
    × (has_bit err 1 ≡ true → prot_write v.prot ≡ true)
    × (has_bit err 4 ≡ true → prot_exec v.prot ≡ true)

-- The regions are as they were, or the stack has grown down to an address outside all of them.
abbrev pub StackGrown : List Vma → List Vma → ℕ → Type 0
StackGrown vmas vmas' addr =
    (vmas' ≡ vmas) ⊎ ((find_vma vmas addr ≡ none) × (grow_stack vmas addr ≡ some vmas'))

unfoldable pub HandleOutcome :
    List Vma → Vmm → ℕ → Places → ℕ → ℕ → Option (Bool × List Vma × Vmm) → Type 0
HandleOutcome vmas st root place addr err none =
    FaultOutcome st root place (align_down addr) (has_bit err 1) none
HandleOutcome vmas st root place addr err (some (ok, vmas', st')) =
    FaultDone st root place (align_down addr) (has_bit err 1) ok st'
    × (ok ≡ true → Allowed vmas' addr err)
    × StackGrown vmas vmas' addr

not_denied :
    (w x can_w can_x : Bool)
    → (w && not can_w || x && not can_x) ≡ false
    → (w ≡ true → can_w ≡ true) × (x ≡ true → can_x ≡ true)
not_denied w x can_w can_x fine = (λ e. ground (arith, fine, e), λ e. ground (arith, fine, e))

region_at-find :
    (vmas : List Vma) (addr : ℕ) (v : Vma)
    → (region_at vmas addr).1 ≡ some v
    → find_vma (region_at vmas addr).0 addr ≡ some v
unfolding region_at
region_at-find vmas addr v found = elim (Option-cases (find_vma vmas addr)) [
  | inl nothing ↦ elim (Option-cases (grow_stack vmas addr)) [
    | inl stuck ↦ let clash : none ≡ some v = rw (region_at, nothing, stuck) at found in absurd cc
    | inr (grown, eq) ↦
        let there : find_vma grown addr ≡ some v = rw (region_at, nothing, eq) at found in
        rw (region_at, nothing, eq) there
  ]
  | inr (u, eq) ↦
      let same : some u ≡ some v = rw (region_at, eq) at found in rw (region_at, eq) (eq ∙ same)
]

with_regions-HandleOutcome :
    (vmas : List Vma) (st : Vmm) (root : ℕ) (place : Places) (addr err : ℕ) (vmas' : List Vma)
    (r : Option (Bool × Vmm))
    → Allowed vmas' addr err
    → StackGrown vmas vmas' addr
    → FaultOutcome st root place (align_down addr) (has_bit err 1) r
    → HandleOutcome vmas st root place addr err (with_regions vmas' r)
unfolding HandleOutcome FaultOutcome
with_regions-HandleOutcome vmas st root place addr err vmas' none allowed grown out = out
with_regions-HandleOutcome vmas st root place addr err vmas' (some (ok, st')) allowed grown out =
    (out, (λ done. allowed), grown)

region_at-StackGrown : (vmas : List Vma) (addr : ℕ) → StackGrown vmas (region_at vmas addr).0 addr
unfolding region_at
region_at-StackGrown vmas addr = elim (Option-cases (find_vma vmas addr)) [
  | inr (v, eq) ↦ rw (region_at, eq) (inl refl)
  | inl nothing ↦ elim (Option-cases (grow_stack vmas addr)) [
    | inl stuck ↦ rw (region_at, nothing, stuck) (inl refl)
    | inr (grown, eq) ↦ rw (region_at, nothing, eq) (inr (refl, refl))
  ]
]

page_is_low : (addr : ℕ) → is_user_address addr ≡ true → is_user_address (align_down addr) ≡ true
page_is_low addr low = ground arith

module _ (vmas : List Vma) (st : Vmm) (root : ℕ) (place : Places) (addr err : ℕ)
    (space : Space st root place) (fits : root < 0x10000000000) (user : UserData st place)
    (nx : KnowsNx st) where
  refused :
      (vmas' : List Vma)
      → StackGrown vmas vmas' addr
      → HandleOutcome vmas st root place addr err (some (false, vmas', st))
  unfolding HandleOutcome
  refused vmas' grown = (
    Grown-FaultDone st st root place place (align_down addr) (has_bit err 1) space fits user
        (not-Grown st root place space),
    (λ done. absurd cc),
    grown,
  )

  -- In such an address space `mm_handle_fault` returns true only for an address in a region whose
  -- rights allow the access, and then with all that `fault_page` promises; where it returns false,
  -- every address is translated as before, with the same flags; whatever it returns, the list of
  -- regions is as before, or is what `grow_stack` makes of it for an address outside all regions.
  pub mm_handle_fault-HandleOutcome :
      HandleOutcome vmas st root place addr err (mm_handle_fault vmas st (root * 4096) addr err)
  unfolding mm_handle_fault HandleOutcome
  mm_handle_fault-HandleOutcome =
      let regions = (region_at vmas addr).0 in
      elim (Bool-cases (is_user_address addr)) [
        | inr kernel ↦ rw (mm_handle_fault, kernel) (refused vmas (inl refl))
        | inl low ↦ elim (Option-cases (region_at vmas addr).1) [
          | inl nowhere ↦
              rw (mm_handle_fault, low, nowhere) (refused regions (region_at-StackGrown vmas addr))
          | inr (v, found) ↦
              let denied =
                has_bit err 1 && not (prot_write v.prot)
                || has_bit err 4 && not (prot_exec v.prot) in
              elim (Bool-cases denied) [
                | inl against ↦
                    rw (mm_handle_fault, low, found, against)
                      (refused regions (region_at-StackGrown vmas addr))
                | inr fine ↦
                    let rights =
                      not_denied (has_bit err 1) (has_bit err 4) (prot_write v.prot)
                        (prot_exec v.prot) fine in
                    rw (mm_handle_fault, low, found, fine)
                      (with_regions-HandleOutcome vmas st root place addr err regions
                        (fault_page st (root * 4096) v.prot (align_down addr) (has_bit err 1))
                        (v, region_at-find vmas addr v found, rights.0, rights.1)
                        (region_at-StackGrown vmas addr)
                        (fault_page-FaultOutcome st root place (align_down addr) v.prot
                          (has_bit err 1) space fits user nx (page_is_low addr low) rights.0))
              ]
        ]
      ]

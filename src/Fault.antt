-- ===== src/Fault.antt =====
-- kernel/mm/mm.c: page faults. The first access to a page of a region gives it a page of zeros, and a write
-- to a shared page gives the writer a copy.
pub mod Taking
pub mod Entry
pub mod Outcome
pub mod Touch
pub mod Copy
pub mod Shared
pub mod Handling
pub mod Rights
pub mod Prefault
use c_loyha.Base.{ℕ, zero, suc, ◌+◌, ◌-◌, ◌*◌, ◌/◌, ◌%◌, ◌^◌, bit_or, bit_and, ltb, leb}
use c_loyha.Base.{Bool, true, false, not, ◌&&◌, ◌||◌, ◌==◌, if◌then◌else◌, Option, none, some}
use c_loyha.Base.{List, ◌∷◌}
use c_loyha.Pmm.{Pmm, Page, update}
use c_loyha.Pmm.Calls.{alloc_pages, put_page}
use c_loyha.Vma.{Vma, page_size, align_down, find_vma, u64, user_space_end}
use c_loyha.Vma.Stack.{grow_stack}
use c_loyha.Vmm.{
  Vmm, word, set_ram, set_word, has_bit, pte_present, pte_writable, is_user_address, vmm_get_pte,
  vmm_flush_page,
}
use c_loyha.Vmm.Tree.{frame}

-- `*pte & PTE_COW`
abbrev pub pte_cow : ℕ → Bool
pte_cow e = has_bit e 9

-- `prot & PROT_WRITE` and `prot & PROT_EXEC`
abbrev pub prot_write : ℕ → Bool
prot_write prot = has_bit prot 1

abbrev pub prot_exec : ℕ → Bool
prot_exec prot = has_bit prot 2

abbrev pub prot_to_pte : Vmm → ℕ → ℕ
prot_to_pte st prot =
    let f = if prot_write prot then bit_or 4 2 else 4 in
    if prot_exec prot then f else bit_or f st.pte_nx

-- `page_to_phys(pg) | prot_to_pte(v->prot) | PTE_PRESENT`
abbrev pub data_entry : Vmm → ℕ → ℕ → ℕ
data_entry st p prot = bit_or (bit_or (p * page_size) (prot_to_pte st prot)) 1

-- A write of the count of the entries that map a page.
abbrev pub set_mapcount : Pmm → ℕ → ℕ → Pmm
set_mapcount pmm p n = record pmm {
  mem_map = update pmm.mem_map p (record (pmm.mem_map p) { mapcount = n });
}

-- The page of an absent entry: whether there was memory for it.
unfoldable pub first_touch : Vmm → ℕ → ℕ → Bool × Vmm
first_touch st pte prot = elim (alloc_pages st.pmm 0 true false) [
  | none ↦ (false, st)
  | some (p, pmm) ↦
      (true, set_word (record st { pmm = set_mapcount pmm p 1 }) pte (data_entry st p prot))
]

-- `memcpy` of a page.
abbrev pub copy_page : (ℕ → ℕ) → ℕ → ℕ → ℕ → ℕ
copy_page ram from to a =
    if leb to a && ltb a (to + page_size) then ram (from + (a - to)) else ram a

-- `(*pte & ~PTE_COW) | PTE_WRITABLE`
abbrev pub own_entry : ℕ → ℕ
own_entry e = bit_or (e / 1024 * 1024 + e % 512) 2

-- `if (old->mapcount) old->mapcount--`
abbrev pub one_less : Pmm → ℕ → Pmm
one_less pmm old = set_mapcount pmm old (Page.mapcount (pmm.mem_map old) - 1)

-- A copy for the page `old` of an entry. `none` is a panic.
unfoldable pub copy_shared : Vmm → ℕ → ℕ → ℕ → Option (Bool × Vmm)
copy_shared st pte old prot = elim (alloc_pages st.pmm 0 false false) [
  | none ↦ some (false, st)
  | some (p, pmm) ↦
      let ram = copy_page pmm.ram (old * page_size) (p * page_size) in
      let st' = record st { pmm = set_mapcount (record pmm { ram = ram }) p 1 } in
      let written = set_word st' pte (data_entry st p prot) in
      elim (put_page (one_less written.pmm old) old) [
        | none ↦ none
        | some pmm' ↦ some (true, record written { pmm = pmm' })
      ]
]

-- A write to a shared page: its last owner keeps it.
unfoldable pub copy_on_write : Vmm → ℕ → ℕ → Option (Bool × Vmm)
copy_on_write st pte prot =
    let e = word st pte in
    let old = frame e in
    if Page.refcount (st.pmm.mem_map old) == 1
    then some (true, set_word st pte (own_entry e))
    else copy_shared st pte old prot

-- `cpu_invlpg(page)`, where the fault was handled.
abbrev pub flushed_after : ℕ → Option (Bool × Vmm) → Option (Bool × Vmm)
flushed_after page none = none
flushed_after page (some (false, st)) = some (false, st)
flushed_after page (some (true, st)) = some (true, record st { flushed = page ∷ st.flushed })

-- The entry has been found, or made.
unfoldable pub fault_entry : Vmm → ℕ → ℕ → ℕ → Bool → Option (Bool × Vmm)
fault_entry st pte prot page write =
    let e = word st pte in
    if not (pte_present e)
    then some (first_touch st pte prot)
    else if write && pte_cow e
    then flushed_after page (copy_on_write st pte prot)
    else some (if write then pte_writable e else true, st)

unfoldable pub fault_page : Vmm → ℕ → ℕ → ℕ → Bool → Option (Bool × Vmm)
fault_page st pml4 prot page write =
    let got = vmm_get_pte st pml4 page true in
    elim got.0 [ none ↦ some (false, got.1) | some pte ↦ fault_entry got.1 pte prot page write ]

-- The region of the address, which may be a stack that grows: the list after it, and the region.
unfoldable pub region_at : List Vma → ℕ → List Vma × Option Vma
region_at vmas addr = elim (find_vma vmas addr) [
  | some v ↦ (vmas, some v)
  | none ↦ elim (grow_stack vmas addr) [
    | none ↦ (vmas, none)
    | some grown ↦ (grown, find_vma grown addr)
  ]
]

abbrev pub with_regions : List Vma → Option (Bool × Vmm) → Option (Bool × List Vma × Vmm)
with_regions vmas none = none
with_regions vmas (some (ok, st)) = some (ok, vmas, st)

-- The regions and the page tables after `mm_handle_fault`, and what it returns.
unfoldable pub mm_handle_fault : List Vma → Vmm → ℕ → ℕ → ℕ → Option (Bool × List Vma × Vmm)
mm_handle_fault vmas st pml4 addr err =
    let write = has_bit err 1 in
    let ifetch = has_bit err 4 in
    let found = region_at vmas addr in
    if not (is_user_address addr) then some (false, vmas, st) else elim found.1 [
      | none ↦ some (false, found.0, st)
      | some v ↦
          if write && not (prot_write v.prot) || ifetch && not (prot_exec v.prot)
          then some (false, found.0, st)
          else with_regions found.0 (fault_page st pml4 v.prot (align_down addr) write)
    ]

-- The loop of `mm_prefault` from a page on, with `fuel` pages left at most.
unfoldable pub prefault_from :
    (fuel : ℕ) → List Vma → Vmm → ℕ → ℕ → ℕ → Bool → Option (Bool × List Vma × Vmm)
prefault_from zero vmas st pml4 page fin write = some (true, vmas, st)
prefault_from (suc fuel) vmas st pml4 page fin write =
    let found = region_at vmas page in
    if not (ltb page fin) then some (true, vmas, st) else elim found.1 [
      | none ↦ some (false, found.0, st)
      | some v ↦
          if write && not (prot_write v.prot)
          then some (false, found.0, st)
          else elim (fault_page st pml4 v.prot page write) [
            | none ↦ none
            | some (ok, st') ↦ elim ok [
              | false ↦ some (false, found.0, st')
              | true ↦ prefault_from fuel found.0 st' pml4 (page + page_size) fin write
            ]
          ]
    ]

unfoldable pub mm_prefault : List Vma → Vmm → ℕ → ℕ → ℕ → Bool → Option (Bool × List Vma × Vmm)
mm_prefault vmas st pml4 addr len write =
    let fin = u64 (addr + len) in
    if len == 0
    then some (true, vmas, st)
    else if ltb fin addr || not (is_user_address addr) || ltb user_space_end fin
    then some (false, vmas, st)
    else prefault_from (len / page_size + 2) vmas st pml4 (align_down addr) fin write

unfoldable pub mm_populate : List Vma → Vmm → ℕ → ℕ → ℕ → Option (Bool × List Vma × Vmm)
mm_populate vmas st pml4 addr len = mm_prefault vmas st pml4 addr len false

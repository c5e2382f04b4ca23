-- ===== src/Vmm.antt =====
-- kernel/mm/vmm.c: the page tables. Memory is read by 64-bit words at physical addresses, which
-- the direct map makes the same as pointers. Of the translation caches the model keeps the addresses that are
-- taken out of them.
pub mod Entries
pub mod Tree
pub mod Writes
pub mod Linking
pub mod Space
pub mod Tables
pub mod Links
pub mod Walk
pub mod Finding
pub mod Mapping
pub mod Pages
pub mod Changes
pub mod Creating
pub mod Ranges
use c_loyha.Base.{ℕ, zero, suc, ◌+◌, ◌-◌, ◌*◌, ◌/◌, ◌%◌, ◌^◌, min, bit_or}
use c_loyha.Base.{Bool, true, false, not, ◌&&◌, ◌||◌, ◌==◌, leb, ltb, if◌then◌else◌}
use c_loyha.Base.{Option, none, some, List, [], ◌∷◌}
use c_loyha.Vma.{page_size, u64, user_space_end, align_down, is_aligned}
use c_loyha.Memblock.{Region, memblock_alloc}
use c_loyha.Pmm.{Pmm}
use c_loyha.Pmm.Calls.{pmm_alloc_page, zero_pages}

-- `e & (1UL << i)`
abbrev pub has_bit : ℕ → ℕ → Bool
has_bit e i = e / 2 ^ i % 2 == 1

-- `PTE_PRESENT`, `PTE_WRITABLE`, `PTE_USER`, `PTE_HUGE` and `PTE_COW` by their places.
abbrev pub pte_present : ℕ → Bool
pte_present e = has_bit e 0

abbrev pub pte_writable : ℕ → Bool
pte_writable e = has_bit e 1

abbrev pub pte_user : ℕ → Bool
pte_user e = has_bit e 2

abbrev pub pte_huge : ℕ → Bool
pte_huge e = has_bit e 7

-- `e & PTE_ADDR_MASK`: the bits from 12 to 51.
abbrev pub pte_addr : ℕ → ℕ
pte_addr e = e / 4096 % 0x10000000000 * 4096

-- `e & ~PTE_ADDR_MASK`
abbrev pub pte_flags : ℕ → ℕ
pte_flags e = e % 4096 + e / 0x10000000000000 * 0x10000000000000

-- `PT_INDEX`, `PD_INDEX`, `PDPT_INDEX` and `PML4_INDEX`, by the level of the table.
abbrev pub index : ℕ → ℕ → ℕ
index zero v = v / 0x1000 % 512
index (suc zero) v = v / 0x200000 % 512
index (suc (suc zero)) v = v / 0x40000000 % 512
index (suc (suc (suc l))) v = v / 0x8000000000 % 512

-- What an entry of a table of the level maps: 4 KB, 2 MB, 1 GB.
abbrev pub entry_size : ℕ → ℕ
entry_size zero = 0x1000
entry_size (suc zero) = 0x200000
entry_size (suc (suc l)) = 0x40000000

-- The static variables of vmm.c, `boot_regions` of memblock.c, the register CR3, and the addresses that left
-- the translation caches, the last one first.
pub record Vmm : Type 0 where
  pub pmm : Pmm
  pub regions : List Region
  pub use_buddy : Bool
  pub kernel_pml4 : ℕ
  pub pte_nx : ℕ
  pub cr3 : ℕ
  pub flushed : List ℕ

abbrev pub word : Vmm → ℕ → ℕ
word st a = Pmm.ram st.pmm a

abbrev pub write_at : (ℕ → ℕ) → ℕ → ℕ → ℕ → ℕ
write_at ram at w a = if a == at then w else ram a

abbrev pub set_ram : Vmm → (ℕ → ℕ) → Vmm
set_ram st ram = record st { pmm = record st.pmm { ram = ram } }

-- `*entry = w`
abbrev pub set_word : Vmm → ℕ → ℕ → Vmm
set_word st at w = set_ram st (write_at (word st) at w)

-- `memset` of a page.
abbrev pub zero_page : (ℕ → ℕ) → ℕ → ℕ → ℕ
zero_page ram base a = if leb base a && ltb a (base + page_size) then 0 else ram a

-- `none` is 0. Running out of memory at boot is a panic, which ends the run.
unfoldable pub alloc_table : Vmm → Option (ℕ × Vmm)
alloc_table st =
    if st.use_buddy
    then elim (pmm_alloc_page st.pmm true false) [
      | none ↦ none
      | some (t, pmm) ↦ some (t, record st { pmm = pmm })
    ]
    else elim (memblock_alloc st.regions page_size page_size 0x100000000) [
      | none ↦ none
      | some (t, regions) ↦
          some (t, record (set_ram st (zero_page (word st) t)) { regions = regions })
    ]

-- `t | PTE_PRESENT | PTE_WRITABLE | (user ? PTE_USER : 0)`
abbrev pub table_entry : ℕ → Bool → ℕ
table_entry t user = bit_or (bit_or (bit_or t 1) 2) (if user then 4 else 0)

-- The part of `next_level` that makes a table.
unfoldable pub make_table : Vmm → ℕ → Bool → Option ℕ × Vmm
make_table st at user = elim (alloc_table st) [
  | none ↦ (none, st)
  | some (t, st') ↦
      if t == 0 then (none, st') else (some (pte_addr t), set_word st' at (table_entry t user))
]

-- `none` is NULL.
unfoldable pub next_level : Vmm → ℕ → ℕ → Bool → Bool → Option ℕ × Vmm
next_level st table idx create user =
    let e = word st (table + 8 * idx) in
    if pte_present e
    then (if pte_huge e then (none, st) else (some (pte_addr e), st))
    else if create
    then make_table st (table + 8 * idx) user
    else (none, st)

-- The calls of `next_level` one after the other, from the table of a level down.
unfoldable pub descend : (level : ℕ) → Vmm → ℕ → ℕ → Bool → Bool → Option ℕ × Vmm
descend zero st table virt create user = (some table, st)
descend (suc level) st table virt create user =
    let next = next_level st table (index (suc level) virt) create user in
    elim next.0 [ none ↦ (none, next.1) | some t ↦ descend level next.1 t virt create user ]

abbrev pub is_user_address : ℕ → Bool
is_user_address v = ltb v user_space_end

-- The address of the last entry; `none` is NULL.
unfoldable pub vmm_get_pte : Vmm → ℕ → ℕ → Bool → Option ℕ × Vmm
vmm_get_pte st pml4 virt create =
    let last = descend 3 st (pte_addr pml4) virt create (is_user_address virt) in
    elim last.0 [ none ↦ (none, last.1) | some t ↦ (some (t + 8 * index 0 virt), last.1) ]

-- `vmm_translate` from the table of a level down: the address and the flags, `none` where it returns 0
-- for want of an entry. The entries of the highest level are always tables.
unfoldable pub translate_from : (level : ℕ) → (ℕ → ℕ) → ℕ → ℕ → Option (ℕ × ℕ)
translate_from zero ram table virt =
    let e = ram (table + 8 * index 0 virt) in
    if pte_present e then some (pte_addr e + virt % page_size, pte_flags e) else none
translate_from (suc level) ram table virt =
    let e = ram (table + 8 * index (suc level) virt) in
    let deeper = translate_from level ram (pte_addr e) virt in
    let size = entry_size (suc level) in
    if not (pte_present e)
    then none
    else if pte_huge e && not (suc level == 3)
    then some (pte_addr e / size * size + virt % size, pte_flags e)
    else deeper

unfoldable pub vmm_translate : Vmm → ℕ → ℕ → Option (ℕ × ℕ)
vmm_translate st pml4 virt = translate_from 3 (word st) (pte_addr pml4) virt

-- `cpu_invlpg` for a program's page, `tlb_shootdown` for a page of the kernel.
unfoldable pub vmm_flush_page : Vmm → ℕ → Vmm
vmm_flush_page st virt = record st { flushed = virt ∷ st.flushed }

-- What a call of `vmm_map_page` comes to; an assertion that fails is a panic too.
pub data MapResult : Type 0 where
  mapped : Vmm → MapResult
  no_memory : Vmm → MapResult
  panics : MapResult

-- `phys | (flags & ~PTE_ADDR_MASK) | PTE_PRESENT`
abbrev pub leaf_entry : ℕ → ℕ → ℕ
leaf_entry phys flags = bit_or (bit_or phys (pte_flags flags)) 1

unfoldable pub vmm_map_page : Vmm → ℕ → ℕ → ℕ → ℕ → MapResult
vmm_map_page st pml4 virt phys flags =
    let got = vmm_get_pte st pml4 virt true in
    if not (is_aligned virt && is_aligned phys) then panics else elim got.0 [
      | none ↦ no_memory got.1
      | some pte ↦
          if pte_present (word got.1 pte)
          then panics
          else mapped (set_word got.1 pte (leaf_entry phys flags))
    ]

-- `if (pml4 == cpu_read_cr3() || !is_user_address(virt)) vmm_flush_page(virt)`
abbrev pub flush_if_seen : Vmm → ℕ → ℕ → Vmm
flush_if_seen st pml4 virt =
    if (pml4 == st.cr3) || not (is_user_address virt) then vmm_flush_page st virt else st

-- The frame that was mapped, or 0.
unfoldable pub vmm_unmap_page : Vmm → ℕ → ℕ → ℕ × Vmm
vmm_unmap_page st pml4 virt = elim (vmm_get_pte st pml4 virt false).0 [
  | none ↦ (0, st)
  | some pte ↦
      if pte_present (word st pte)
      then (pte_addr (word st pte), flush_if_seen (set_word st pte 0) pml4 virt)
      else (0, st)
]

unfoldable pub vmm_update_flags : Vmm → ℕ → ℕ → ℕ → Bool × Vmm
vmm_update_flags st pml4 virt flags = elim (vmm_get_pte st pml4 virt false).0 [
  | none ↦ (false, st)
  | some pte ↦
      if pte_present (word st pte)
      then (
        true,
        flush_if_seen (set_word st pte (leaf_entry (pte_addr (word st pte)) flags)) pml4 virt,
      )
      else (false, st)
]

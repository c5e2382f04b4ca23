-- ===== src/Vma.antt =====
-- kernel/mm/mm.c: the regions of an address space. The list `vmas` is kept in the order of the starts.
-- Whether the allocator has memory for a region (`kmem_cache_alloc`) is an argument. Of the page tables
-- the model keeps which pages are present.
pub mod Find
pub mod Area
pub mod Unmap
pub mod Stack
pub mod Heap
pub mod Passes
use c_loyha.Base.{
  ℕ, zero, suc, ◌+◌, ◌-◌, ◌*◌, ◌/◌, ◌%◌, ◌≤◌, ◌<◌, ◌^◌, min, max, Bool, true, false, not,
}
use c_loyha.Base.{
  ◌&&◌, ◌||◌, ◌==◌, leb, ltb, if◌then◌else◌, Option, none, some, List, [], ◌∷◌, length,
}

abbrev pub page_size : ℕ
page_size = 4096

-- `USER_SPACE_START`, `USER_SPACE_END` and `MMAP_TOP`
abbrev pub user_space_start : ℕ
user_space_start = 0x400000

abbrev pub user_space_end : ℕ
user_space_end = 0x7FFFFFFFF000

abbrev pub mmap_top : ℕ
mmap_top = 0x700000000000

-- The values of `uint64_t`: sums wrap around, and so do differences.
abbrev pub u64 : ℕ → ℕ
u64 x = x % 18446744073709551616

abbrev pub minus : ℕ → ℕ → ℕ
minus a b = u64 (a + 18446744073709551616 - b)

abbrev pub align_down : ℕ → ℕ
align_down x = x / page_size * page_size

abbrev pub align_up : ℕ → ℕ
align_up x = align_down (u64 (x + page_size - 1))

abbrev pub is_aligned : ℕ → Bool
is_aligned x = x % page_size == 0

pub record Vma : Type 0 where
  pub start : ℕ
  pub end : ℕ
  pub prot : ℕ
  pub flags : ℕ

pub record Mm : Type 0 where
  pub vmas : List Vma
  pub brk_start : ℕ
  pub brk : ℕ
  pub present : ℕ → Bool

abbrev pub contains : Vma → ℕ → Bool
contains v addr = leb v.start addr && ltb addr v.end

unfoldable pub find_vma : List Vma → ℕ → Option Vma
find_vma [] addr = none
find_vma (v ∷ vs) addr = if contains v addr then some v else find_vma vs addr

-- The test of `range_free` and of `mm_unmap`.
abbrev pub overlaps : Vma → ℕ → ℕ → Bool
overlaps v start fin = ltb start v.end && ltb v.start fin

unfoldable pub range_free : List Vma → ℕ → ℕ → Bool
range_free [] start fin = true
range_free (v ∷ vs) start fin = if overlaps v start fin then false else range_free vs start fin

unfoldable pub insert_vma : List Vma → Vma → List Vma
insert_vma [] nv = nv ∷ []
insert_vma (v ∷ vs) nv = if ltb nv.start v.start then nv ∷ v ∷ vs else v ∷ insert_vma vs nv

-- One pass of `find_free_area` over the regions: `none` is its `return 0`.
unfoldable pub scan : List Vma → ℕ → ℕ → Bool → Option (ℕ × Bool)
scan [] len candidate moved = some (candidate, moved)
scan (v ∷ vs) len candidate moved =
    let blocked =
      ltb candidate (u64 (v.end + page_size)) && ltb v.start (u64 (candidate + len + page_size)) in
    let below = scan vs len (minus v.start (u64 (len + page_size))) true in
    let same = scan vs len candidate moved in
    if blocked
    then (if ltb v.start (u64 (len + 2 * page_size + user_space_start)) then none else below)
    else same

-- The passes, on fuel.
unfoldable pub search_area : ℕ → List Vma → ℕ → ℕ → ℕ
search_area zero vs len candidate = 0
search_area (suc fuel) vs len candidate = elim (scan vs len candidate false) [
  | none ↦ 0
  | some (next, moved) ↦
      let rest = search_area fuel vs len next in
      if moved then rest else if leb user_space_start next then next else 0
]

-- Each region moves the candidate at most once.
unfoldable pub find_free_area : List Vma → ℕ → ℕ
find_free_area vs len = search_area (length vs + 1) vs len (minus mmap_top len)

unfoldable pub map_at : Mm → ℕ → ℕ → ℕ → ℕ → ℕ × Mm
map_at mm addr len prot flags =
    if addr == 0
      || not (is_aligned addr)
      || ltb addr user_space_start
      || ltb (u64 (addr + len)) addr
      || ltb user_space_end (u64 (addr + len))
      || not (range_free mm.vmas addr (u64 (addr + len)))
    then (0, mm)
    else (
      addr,
      record mm {
        vmas =
            insert_vma mm.vmas
              (record { start = addr; end = u64 (addr + len); prot = prot; flags = flags });
      },
    )

unfoldable pub mm_map : Mm → Bool → ℕ → ℕ → ℕ → ℕ → ℕ × Mm
mm_map mm has_memory addr len prot flags =
    let size = align_up len in
    if size == 0 || not has_memory
    then (0, mm)
    else map_at mm (if addr == 0 then find_free_area mm.vmas size else addr) size prot flags

-- `unmap_pages`
unfoldable pub unmap_pages : (ℕ → Bool) → ℕ → ℕ → ℕ → Bool
unmap_pages present start fin va = if leb start va && ltb va fin then false else present va

-- What the loop of `mm_unmap` leaves of one region, before what it leaves of the later ones: regions
-- that stay in place, and a part that is split off.
unfoldable pub cut : Vma → ℕ → ℕ → Bool → List Vma × Option Vma → List Vma × Option Vma
cut v addr fin has_memory (rest, split) =
    let cut_start = max addr v.start in
    let cut_end = min fin v.end in
    if not (overlaps v addr fin)
    then (v ∷ rest, split)
    else if cut_start == v.start && cut_end == v.end
    then (rest, split)
    else if cut_start == v.start
    then (record v { start = cut_end } ∷ rest, split)
    else if cut_end == v.end
    then (record v { end = cut_start } ∷ rest, split)
    else if has_memory
    then (record v { end = cut_start } ∷ rest, some (record v { start = cut_end }))
    else (v ∷ rest, split)

unfoldable pub cut_all : List Vma → ℕ → ℕ → Bool → List Vma × Option Vma
cut_all [] addr fin has_memory = ([], none)
cut_all (v ∷ vs) addr fin has_memory = cut v addr fin has_memory (cut_all vs addr fin has_memory)

-- The pages that the loop takes away.
unfoldable pub unmap_regions : List Vma → ℕ → ℕ → (ℕ → Bool) → ℕ → Bool
unmap_regions [] addr fin present = present
unmap_regions (v ∷ vs) addr fin present =
    if overlaps v addr fin
    then unmap_regions vs addr fin (unmap_pages present (max addr v.start) (min fin v.end))
    else unmap_regions vs addr fin present

-- A region is split only when the whole range lies inside it, and then no other is cut.
unfoldable pub insert_split : List Vma × Option Vma → List Vma
insert_split (vs, none) = vs
insert_split (vs, some nv) = insert_vma vs nv

-- The result says whether the arguments are accepted (0, and -1 otherwise).
unfoldable pub mm_unmap : Mm → Bool → ℕ → ℕ → Bool × Mm
mm_unmap mm has_memory addr len =
    let size = align_up len in
    let fin = u64 (addr + size) in
    if not (is_aligned addr) || size == 0 || ltb fin addr then (false, mm) else (
      true,
      record mm {
        vmas = insert_split (cut_all mm.vmas addr fin has_memory);
        present = unmap_regions mm.vmas addr fin mm.present;
      },
    )

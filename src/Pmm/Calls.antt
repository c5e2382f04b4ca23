-- ===== src/Pmm/Calls.antt =====
-- The calls of kernel/mm/pmm.c.
use c_loyha.Base.{ℕ, zero, suc, ◌+◌, ◌-◌, ◌*◌, ◌/◌, ◌%◌, ◌^◌, min}
use c_loyha.Base.{Bool, true, false, not, ◌&&◌, ◌||◌, ◌==◌, leb, ltb, if◌then◌else◌}
use c_loyha.Base.{Option, none, some}
use c_loyha.Vma.{page_size, u64, minus}
use c_loyha.Pmm.{Page, Zone, Area, Pmm, ZoneId, dma32, normal, update, max_order, buddy_alloc}
use c_loyha.Pmm.{buddy_free, pfn_zone, area, set_area}

-- What `alloc_pages` writes into the first page of the block that it hands out.
abbrev pub headed : Page → ℕ → Page
headed p order = record p { head = true; order = order % 256; refcount = 1; mapcount = 0 }

-- `memset(page_to_virt(p), 0, PAGE_SIZE << order)`
abbrev pub zero_pages : (ℕ → ℕ) → ℕ → ℕ → ℕ → ℕ
zero_pages ram p order a =
    if leb (p * page_size) a && ltb a (p * page_size + page_size * 2 ^ order) then 0 else ram a

unfoldable pub alloc_in : Pmm → ZoneId → ℕ → Bool → Option (ℕ × Pmm)
alloc_in st z order gfp_zero = elim (buddy_alloc (area st z) order) [
  | none ↦ none
  | some (p, a) ↦
      let counted = record a {
        zone = record a.zone { free_pages = minus a.zone.free_pages (2 ^ order) };
      } in
      let st' = set_area st z counted in
      some (
        p,
        record st' {
          mem_map = update st'.mem_map p (headed (st'.mem_map p) order);
          ram = if gfp_zero then zero_pages st'.ram p order else st'.ram;
        },
      )
]

-- The normal zone is asked first, unless the pages must lie below 4 GB. `none` is NULL.
unfoldable pub alloc_pages : Pmm → ℕ → Bool → Bool → Option (ℕ × Pmm)
alloc_pages st order gfp_zero gfp_dma32 =
    let below = alloc_in st dma32 order gfp_zero in
    if leb max_order order
    then none
    else if gfp_dma32
    then below
    else elim (alloc_in st normal order gfp_zero) [ none ↦ below | some r ↦ some r ]

-- The panics of `free_pages`.
unfoldable pub free_panics : Pmm → ℕ → ℕ → Bool
free_panics st pfn order =
    let p = st.mem_map pfn in
    leb st.max_pfn pfn
    || p.reserved
    || p.buddy
    || not (pfn % 2 ^ order == 0)
    || (p.head && not (p.order == order))

-- `none` is a panic.
unfoldable pub free_pages : Pmm → ℕ → ℕ → Option Pmm
free_pages st pfn order =
    let p = record (st.mem_map pfn) { head = false; slab = false; refcount = 0; cache = none } in
    let z = pfn_zone pfn in
    let a = buddy_free (area (record st { mem_map = update st.mem_map pfn p }) z) pfn order in
    let counted = record a {
      zone = record a.zone { free_pages = u64 (a.zone.free_pages + 2 ^ order) };
    } in
    if free_panics st pfn order then none else some (set_area st z counted)

-- A write of the reference count.
abbrev pub counted : Pmm → ℕ → ℕ → Pmm
counted st p n = record st {
  mem_map = update st.mem_map p (record (st.mem_map p) { refcount = n });
}

unfoldable pub get_page : Pmm → ℕ → Pmm
get_page st p = counted st p (Page.refcount (st.mem_map p) + 1)

-- `put_page` of a page with the count `n`. A count that falls below 0 is a panic.
unfoldable pub put_count : Pmm → ℕ → ℕ → Option Pmm
put_count st p zero = none
put_count st p (suc zero) = free_pages (counted st p 0) p (Page.order (st.mem_map p))
put_count st p (suc (suc n)) = some (counted st p (suc n))

unfoldable pub put_page : Pmm → ℕ → Option Pmm
put_page st p = put_count st p (Page.refcount (st.mem_map p))

-- `pages_to_order`: `fuel` rounds of doubling.
unfoldable pub order_from : ℕ → ℕ → ℕ → ℕ
order_from zero n order = order
order_from (suc fuel) n order = if ltb (2 ^ order) n then order_from fuel n (order + 1) else order

unfoldable pub pages_to_order : ℕ → ℕ
pages_to_order n = order_from 64 n 0

unfoldable pub pmm_alloc_page : Pmm → Bool → Bool → Option (ℕ × Pmm)
pmm_alloc_page st gfp_zero gfp_dma32 = elim (alloc_pages st 0 gfp_zero gfp_dma32) [
  | none ↦ none
  | some (p, st') ↦ some (p * page_size, st')
]

unfoldable pub pmm_free_page : Pmm → ℕ → Option Pmm
pmm_free_page st phys = free_pages st (phys / page_size) 0

unfoldable pub pmm_alloc_pages : Pmm → ℕ → Bool → Bool → Option (ℕ × Pmm)
pmm_alloc_pages st n gfp_zero gfp_dma32 =
    elim (alloc_pages st (pages_to_order n) gfp_zero gfp_dma32) [
      | none ↦ none
      | some (p, st') ↦ some (p * page_size, st')
    ]

unfoldable pub pmm_free_pages : Pmm → ℕ → ℕ → Option Pmm
pmm_free_pages st phys n = free_pages st (phys / page_size) (pages_to_order n)

unfoldable pub pmm_total_pages : Pmm → ℕ
pmm_total_pages st = st.low.managed_pages + st.high.managed_pages

unfoldable pub pmm_free_pages_count : Pmm → ℕ
pmm_free_pages_count st = st.low.free_pages + st.high.free_pages

-- The order that `free_range` gives to the block at `start`: the inner loop, from `order` down.
unfoldable pub fitting_order : ℕ → ℕ → ℕ → ℕ
fitting_order zero start zone_end = 0
fitting_order (suc order) start zone_end =
    if not (start % 2 ^ suc order == 0) || ltb zone_end (start + 2 ^ suc order)
    then fitting_order order start zone_end
    else suc order

-- The pages of the block are no longer reserved.
abbrev pub unreserve : (ℕ → Page) → ℕ → ℕ → ℕ → Page
unreserve page start order i =
    if leb start i && ltb i (start + 2 ^ order)
    then record (page i) { reserved = false }
    else page i

-- One round of `free_range`, with the order of its block.
unfoldable pub give_block : Pmm → ℕ → ℕ → Pmm
give_block st start order =
    let st' = record st { mem_map = unreserve st.mem_map start order } in
    let a = buddy_free (area st' (pfn_zone start)) start order in
    set_area st' (pfn_zone start) (record a {
      zone = record a.zone {
        free_pages = u64 (a.zone.free_pages + 2 ^ order);
        managed_pages = u64 (a.zone.managed_pages + 2 ^ order);
      };
    })

abbrev pub next_order : Pmm → ℕ → ℕ → ℕ
next_order st start end =
    fitting_order (max_order - 1) start
      (min end (Zone.end_pfn (Area.zone (area st (pfn_zone start)))))

-- A round for each page is enough fuel.
unfoldable pub range_from : ℕ → Pmm → ℕ → ℕ → Pmm
range_from zero st start end = st
range_from (suc fuel) st start end =
    let order = next_order st start end in
    let rest = range_from fuel (give_block st start order) (start + 2 ^ order) end in
    if ltb start end then rest else st

unfoldable pub free_range : Pmm → ℕ → ℕ → Pmm
free_range st start end = range_from (end - start) st start end

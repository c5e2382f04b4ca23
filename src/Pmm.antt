-- ===== src/Pmm.antt =====
-- kernel/mm/pmm.c and kernel/mm/page.h: the page allocator. A page is known by its number; the list
-- of a zone for an order holds the first pages of its free blocks, the newest first.
pub mod Blocks
pub mod Xor
pub mod Buddy
pub mod Calls
pub mod Held
pub mod Range
pub mod Pool
pub mod Handing
pub mod Zeroing
pub mod Counts
pub mod Returns
pub mod Pages
use c_loyha.Base.{ℕ, zero, suc, ◌+◌, ◌-◌, ◌*◌, ◌/◌, ◌%◌, ◌^◌, min, max, bit_and, bit_xor}
use c_loyha.Base.{Bool, true, false, not, ◌&&◌, ◌||◌, ◌==◌, leb, ltb, if◌then◌else◌}
use c_loyha.Base.{Option, none, some, List, [], ◌∷◌, map}
use c_loyha.Base.Bits.{complement}
use c_loyha.Vma.{u64, minus}

abbrev pub max_order : ℕ
max_order = 11

-- `struct page`. The flags are a field each; the list node is the place in the lists of the zone.
pub record Page : Type 0 where
  pub reserved : Bool
  pub buddy : Bool
  pub slab : Bool
  pub head : Bool
  pub refcount : ℕ
  pub order : ℕ
  pub mapcount : ℕ
  pub cache : Option ℕ

-- `struct zone`, with the two fields of `struct free_area` as two tables.
pub record Zone : Type 0 where
  pub start_pfn : ℕ
  pub end_pfn : ℕ
  pub free_area : ℕ → List ℕ
  pub count : ℕ → ℕ
  pub free_pages : ℕ
  pub managed_pages : ℕ

-- One zone and the pages.
pub record Area : Type 0 where
  pub page : ℕ → Page
  pub zone : Zone

abbrev pub update {ℓ} : {A : Type ℓ} → (ℕ → A) → ℕ → A → ℕ → A
update f k v i = if i == k then v else f i

-- `list_del`
unfoldable pub list_del : ℕ → List ℕ → List ℕ
list_del p [] = []
list_del p (q ∷ qs) = if q == p then qs else q ∷ list_del p qs

unfoldable pub add_free : Area → ℕ → ℕ → Area
add_free a p order = record a {
  page = update a.page p (record (a.page p) { buddy = true; order = order % 256 });
  zone = record a.zone {
    free_area = update a.zone.free_area order (p ∷ a.zone.free_area order);
    count = update a.zone.count order (u64 (a.zone.count order + 1));
  };
}

unfoldable pub del_free : Area → ℕ → ℕ → Area
del_free a p order = record a {
  page = update a.page p (record (a.page p) { buddy = false });
  zone = record a.zone {
    free_area = update a.zone.free_area order (list_del p (a.zone.free_area order));
    count = update a.zone.count order (minus (a.zone.count order) 1);
  };
}

abbrev pub buddy_of : ℕ → ℕ → ℕ
buddy_of pfn order = bit_xor pfn (2 ^ order)

-- `pfn & ~(1UL << order)`
abbrev pub merged : ℕ → ℕ → ℕ
merged pfn order = bit_and pfn (complement 64 (2 ^ order))

-- The two tests that end the loop of `buddy_free`.
unfoldable pub cannot_merge : Area → ℕ → ℕ → Bool
cannot_merge a buddy order =
    ltb buddy a.zone.start_pfn
    || ltb a.zone.end_pfn (u64 (buddy + 2 ^ order))
    || not (Page.buddy (a.page buddy))
    || not (Page.order (a.page buddy) == order)

-- `left` is `MAX_ORDER - 1 - order`.
unfoldable pub merge_from : (left : ℕ) → Area → ℕ → ℕ → Area
merge_from zero a pfn order = add_free a pfn order
merge_from (suc left) a pfn order =
    let buddy = buddy_of pfn order in
    let larger = merge_from left (del_free a buddy order) (merged pfn order) (order + 1) in
    if cannot_merge a buddy order then add_free a pfn order else larger

unfoldable pub buddy_free : Area → ℕ → ℕ → Area
buddy_free a pfn order = merge_from (max_order - 1 - order) a pfn order

-- The inner loop of `buddy_alloc`; `above` is `o - order`.
unfoldable pub split : (above : ℕ) → Area → ℕ → ℕ → Area
split zero a p order = a
split (suc above) a p order =
    split above (add_free a (p + 2 ^ (order + above)) (order + above)) p order

-- The outer loop; `left` is `MAX_ORDER - o`, and `above` is `o - order`.
unfoldable pub take_from : (left : ℕ) → Area → ℕ → ℕ → Option (ℕ × Area)
take_from zero a above order = none
take_from (suc left) a above order = elim (a.zone.free_area (order + above)) [
  | [] ↦ take_from left a (above + 1) order
  | p ∷ _ ↦ some (p, split above (del_free a p (order + above)) p order)
]

unfoldable pub buddy_alloc : Area → ℕ → Option (ℕ × Area)
buddy_alloc a order = take_from (max_order - order) a 0 order

pub data ZoneId : Type 0 where
  dma32 : ZoneId
  normal : ZoneId

-- `mem_map`, `zones`, `max_pfn`, and the words of the physical memory by their addresses.
pub record Pmm : Type 0 where
  pub mem_map : ℕ → Page
  pub low : Zone
  pub high : Zone
  pub max_pfn : ℕ
  pub ram : ℕ → ℕ

-- `PFN_4G`
abbrev pub pfn_4g : ℕ
pfn_4g = 0x100000

abbrev pub pfn_zone : ℕ → ZoneId
pfn_zone pfn = if ltb pfn pfn_4g then dma32 else normal

unfoldable pub area : Pmm → ZoneId → Area
area st dma32 = record { page = st.mem_map; zone = st.low }
area st normal = record { page = st.mem_map; zone = st.high }

unfoldable pub set_area : Pmm → ZoneId → Area → Pmm
set_area st dma32 a = record st { mem_map = a.page; low = a.zone }
set_area st normal a = record st { mem_map = a.page; high = a.zone }

-- ===== src/Memblock.antt =====
-- kernel/mm/memblock.c: the free memory at boot, as an array of at most `memblock_max` regions.
pub mod Reserve
pub mod Alloc
use c_loyha.Base.{
  ℕ, zero, suc, ◌+◌, ◌-◌, ◌*◌, ◌/◌, ◌%◌, ◌≤◌, ◌<◌, min, max, Bool, true, false, not, ◌&&◌, ◌||◌,
}
use c_loyha.Base.{◌==◌, leb, ltb, if◌then◌else◌, Option, none, some, List, [], ◌∷◌, ◌++◌, length}
use c_loyha.Vma.{page_size, align_down, align_up, u64}

-- `MEMBLOCK_MAX`
abbrev pub memblock_max : ℕ
memblock_max = 64

-- `struct memblock_region`
pub record Region : Type 0 where
  pub base : ℕ
  pub end : ℕ

-- `add_region` on the end of the array `rs`, which `before` more regions stand in front of.
unfoldable pub add_region : ℕ → List Region → ℕ → ℕ → List Region
add_region before rs base end =
    if leb end base
    then rs
    else if before + length rs == memblock_max
    then rs
    else rs ++ (record { base = base; end = end } ∷ [])

-- `rend <= r->base || rbase >= r->end`
abbrev pub is_apart : Region → ℕ → ℕ → Bool
is_apart r rbase rend = leb rend r.base || leb r.end rbase

-- What is left of a region before the range; it takes the place of the region.
abbrev pub left_rest : Region → ℕ → Region
left_rest r rbase = record r { end = max r.base (min rbase r.end) }

-- The first loop of `reserve`, with `passed` regions behind the index and `rs` from it on. What is
-- left behind the range is appended, and the loop comes to it later.
unfoldable pub cut_loop : ℕ → ℕ → List Region → ℕ → ℕ → List Region
cut_loop zero passed rs rbase rend = rs
cut_loop (suc fuel) passed [] rbase rend = []
cut_loop (suc fuel) passed (r ∷ rs) rbase rend =
    let longer =
      if ltb rend r.end then add_region (passed + 1) rs (max rend r.base) r.end else rs in
    let kept = r ∷ cut_loop fuel (passed + 1) rs rbase rend in
    let replaced = left_rest r rbase ∷ cut_loop fuel (passed + 1) longer rbase rend in
    if is_apart r rbase rend then kept else replaced

-- The second loop: empty regions are taken out.
unfoldable pub drop_empty : List Region → List Region
drop_empty [] = []
drop_empty (r ∷ rs) = if ltb r.base r.end then r ∷ drop_empty rs else drop_empty rs

-- The bounds are already on page boundaries.
unfoldable pub reserve_pages : List Region → ℕ → ℕ → List Region
reserve_pages rs rbase rend = drop_empty (cut_loop (2 * length rs) 0 rs rbase rend)

unfoldable pub reserve : List Region → ℕ → ℕ → List Region
reserve rs rbase rend = reserve_pages rs (align_down rbase) (align_up rend)

-- `ALIGN_DOWN(x, align)`, for an alignment that is a power of two.
abbrev pub align_to : ℕ → ℕ → ℕ
align_to x align = x / align * align

-- The place that `memblock_alloc` finds in one region.
unfoldable pub place_in : Region → ℕ → ℕ → ℕ → Option ℕ
place_in r size align limit =
    let end = min r.end limit in
    if ltb end size
    then none
    else if ltb (align_to (end - size) align) r.base
    then none
    else some (align_to (end - size) align)

-- The loop from the last region down to the first.
unfoldable pub place_last : List Region → ℕ → ℕ → ℕ → Option ℕ
place_last [] size align limit = none
place_last (r ∷ rs) size align limit = elim (place_last rs size align limit) [
  | some base ↦ some base
  | none ↦ place_in r size align limit
]

-- `none` is the panic.
unfoldable pub memblock_alloc : List Region → ℕ → ℕ → ℕ → Option (ℕ × List Region)
memblock_alloc rs size align limit = elim (place_last rs (align_up size) align limit) [
  | none ↦ none
  | some base ↦ some (base, reserve rs base (u64 (base + align_up size)))
]

-- ===== src/Vma/Heap.antt =====
-- `mm_sbrk`: the heap grows and shrinks by the end of its region.
pub mod Invariant
use c_loyha.Base.{
  ℕ, zero, suc, ◌+◌, ◌-◌, ◌%◌, ◌≤◌, ◌<◌, ◌≡◌, ◌≢◌, ◌∙◌, refl, sym, ap, arith, min, max, Bool,
}
use c_loyha.Base.{
  true, false, not, ◌&&◌, ◌||◌, ◌==◌, leb, ltb, if◌then◌else◌, Bool-cases, inl, inr, Option,
}
use c_loyha.Base.{none, some, List, [], ◌∷◌, get_elem?, Option-cases, bit_and, eq_of_some}
use c_loyha.Abi.{ℤ, pos, negsuc}
use c_loyha.Vma.{
  Vma, Mm, u64, align_up, align_down, page_size, mmap_top, user_space_end, unmap_pages,
}
use c_loyha.Vma.Find.{Sorted, Sorted-low, Sorted-mono}

-- `VMA_HEAP`
abbrev pub vma_heap : ℕ
vma_heap = 4

-- The last region that is marked as heap.
unfoldable pub last_heap : List Vma → Option ℕ
last_heap [] = none
last_heap (v ∷ vs) = elim (last_heap vs) [
  | some i ↦ some (suc i)
  | none ↦ if bit_and v.flags vma_heap == 0 then none else some 0
]

unfoldable pub set_end : List Vma → ℕ → ℕ → List Vma
set_end [] i fin = []
set_end (v ∷ vs) zero fin = record v { end = fin } ∷ vs
set_end (v ∷ vs) (suc i) fin = v ∷ set_end vs i fin

-- `old + (uint64_t)inc`
abbrev pub moved_brk : ℕ → ℤ → ℕ
moved_brk old (pos n) = u64 (old + n)
moved_brk old (negsuc n) = u64 (old + 18446744073709551616 - (n + 1))

-- The tests of the sum and of its limits.
unfoldable pub brk_refused : Mm → ℤ → Bool
brk_refused mm (pos n) =
    not (n == 0) && ltb (moved_brk mm.brk (pos n)) mm.brk || ltb mmap_top (moved_brk mm.brk (pos n))
brk_refused mm (negsuc n) =
    ltb (moved_brk mm.brk (negsuc n)) mm.brk_start || ltb mmap_top (moved_brk mm.brk (negsuc n))

-- Whether the region that follows is in the way.
abbrev pub collides : Option Vma → ℕ → Bool
collides none fin = false
collides (some following) fin = ltb following.start fin

unfoldable pub resize_heap : Mm → ℕ → Vma → ℕ → ℕ → Option ℕ × Mm
resize_heap mm i heap new_end new_brk =
    if ltb heap.end new_end
    then (if collides (get_elem? mm.vmas (suc i)) new_end
        then (none, mm)
        else (some mm.brk, record mm { vmas = set_end mm.vmas i new_end; brk = new_brk }))
    else if ltb new_end heap.end
    then (
      some mm.brk,
      record mm {
        vmas = set_end mm.vmas i new_end;
        brk = new_brk;
        present = unmap_pages mm.present new_end heap.end;
      },
    )
    else (some mm.brk, record mm { brk = new_brk })

unfoldable pub heap_end : Vma → ℕ → ℕ
heap_end heap new_brk = max (align_up new_brk) (u64 (heap.start + page_size))

-- `none` is the result -1.
unfoldable pub mm_sbrk : Mm → ℤ → Option ℕ × Mm
mm_sbrk mm inc = elim (last_heap mm.vmas) [
  | none ↦ (none, mm)
  | some i ↦ elim (get_elem? mm.vmas i) [
    | none ↦ (none, mm)
    | some heap ↦
        if brk_refused mm inc
        then (none, mm)
        else resize_heap mm i heap (heap_end heap (moved_brk mm.brk inc)) (moved_brk mm.brk inc)
  ]
]

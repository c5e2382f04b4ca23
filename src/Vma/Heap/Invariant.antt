-- ===== src/Vma/Heap/Invariant.antt =====
-- What `mm_sbrk` keeps, and what its result tells.
use c_loyha.Base.{ℕ, zero, suc, ◌+◌, ◌≤◌, ◌<◌, ◌≡◌, refl, arith, Bool}
use c_loyha.Base.{false, ltb, Bool-cases, inl, inr}
use c_loyha.Base.{none, some, List, [], ◌∷◌, get_elem?, Option-cases, eq_of_some}
use c_loyha.Abi.{ℤ, pos, negsuc}
use c_loyha.Vma.{Vma, Mm, page_size, mmap_top, user_space_end, unmap_pages}
use c_loyha.Vma.Find.{Sorted, Sorted-low}
use c_loyha.Vma.Heap.{
  last_heap, set_end, moved_brk, brk_refused, collides, resize_heap, heap_end, mm_sbrk,
}

-- The list is in order, no region is smaller than a page, and the break is between its start and the
-- mapped regions.
pub record HeapInvariant (mm : Mm) : Type 0 where
  pub sorted : Sorted 0 mm.vmas
  pub paged : (i : ℕ) (v : Vma) → get_elem? mm.vmas i ≡ some v → v.start + page_size ≤ v.end
  pub brk_low : mm.brk_start ≤ mm.brk
  pub brk_high : mm.brk ≤ mmap_top

-- The values of an `int64_t`
abbrev pub Int64 : ℤ → Type 0
Int64 (pos n) = n < 9223372036854775808
Int64 (negsuc n) = n < 9223372036854775808

set_end-Sorted :
    (vs : List Vma) (low i fin : ℕ) (heap : Vma)
    → Sorted low vs
    → get_elem? vs i ≡ some heap
    → heap.start < fin
    → collides (get_elem? vs (suc i)) fin ≡ false
    → fin ≤ user_space_end
    → Sorted low (set_end vs i fin)
unfolding set_end
set_end-Sorted [] low i fin heap s at_i lt free top = cc
set_end-Sorted (v ∷ []) low zero fin heap s at_i lt free top =
    let e = eq_of_some at_i in (s.0, ground arith, top)
set_end-Sorted (v ∷ w ∷ vs) low zero fin heap s at_i lt free top =
    let e = eq_of_some at_i in (s.0, ground arith, (ground arith, s.2.1, s.2.2))
set_end-Sorted (v ∷ vs) low (suc i) fin heap s at_i lt free top =
    (s.0, s.1, set_end-Sorted vs v.end i fin heap s.2 at_i lt free top)

following_clear :
    (vs : List Vma) (low i fin : ℕ) (heap : Vma)
    → Sorted low vs
    → get_elem? vs i ≡ some heap
    → fin ≤ heap.end
    → collides (get_elem? vs (suc i)) fin ≡ false
following_clear [] low i fin heap s at_i le = refl
following_clear (v ∷ []) low zero fin heap s at_i le = refl
following_clear (v ∷ w ∷ vs) low zero fin heap s at_i le =
    let e = eq_of_some at_i in ground (arith, s.2.0)
following_clear (v ∷ vs) low (suc i) fin heap s at_i le =
    following_clear vs v.end i fin heap s.2 at_i le

set_end_paged :
    (vs : List Vma) (i fin : ℕ) (heap : Vma)
    → ((j : ℕ) (v : Vma) → get_elem? vs j ≡ some v → v.start + page_size ≤ v.end)
    → get_elem? vs i ≡ some heap
    → heap.start + page_size ≤ fin
    → (j : ℕ) (v : Vma) → get_elem? (set_end vs i fin) j ≡ some v
    → v.start + page_size ≤ v.end
unfolding set_end
set_end_paged [] i fin heap paged at_i le j v at_j = cc
set_end_paged (x ∷ vs) zero fin heap paged at_i le zero v at_j =
    let e = eq_of_some at_i in let e' = eq_of_some at_j in ground arith
set_end_paged (x ∷ vs) zero fin heap paged at_i le (suc j) v at_j = paged (suc j) v at_j
set_end_paged (x ∷ vs) (suc i) fin heap paged at_i le zero v at_j = paged 0 v at_j
set_end_paged (x ∷ vs) (suc i) fin heap paged at_i le (suc j) v at_j =
    set_end_paged vs i fin heap (λ j v e. paged (suc j) v e) at_i le j v at_j

get_elem?_top :
    (vs : List Vma) (low i : ℕ) (v : Vma)
    → Sorted low vs
    → get_elem? vs i ≡ some v
    → v.end ≤ user_space_end
get_elem?_top [] low i v s e = cc
get_elem?_top (x ∷ vs) low zero v s e =
    let same = eq_of_some e in ground (arith, Sorted-low vs x.end s.2)
get_elem?_top (x ∷ vs) low (suc i) v s e = get_elem?_top vs x.end i v s.2 e

heap_end_bounds :
    (heap : Vma) (new_brk : ℕ)
    → new_brk ≤ mmap_top
    → heap.end ≤ user_space_end
    → heap.start + page_size ≤ heap.end
    → (heap.start + page_size ≤ heap_end heap new_brk) × (heap_end heap new_brk ≤ user_space_end)
unfolding heap_end
heap_end_bounds heap new_brk le top room = omega arith

resize_heap-HeapInvariant :
    (mm : Mm) (i : ℕ) (heap : Vma) (new_end new_brk : ℕ)
    → HeapInvariant mm
    → get_elem? mm.vmas i ≡ some heap
    → heap.start + page_size ≤ new_end
    → new_end ≤ user_space_end
    → mm.brk_start ≤ new_brk
    → new_brk ≤ mmap_top
    → HeapInvariant (resize_heap mm i heap new_end new_brk).1
unfolding resize_heap
resize_heap-HeapInvariant mm i heap new_end new_brk inv at_i room top low high =
    elim (Bool-cases (ltb heap.end new_end)) [
      | inl grows ↦ elim (Bool-cases (collides (get_elem? mm.vmas (suc i)) new_end)) [
        | inl blocked ↦ rw (grows, blocked) inv
        | inr free ↦
            rw (grows, free)
              (moved mm.present
                (set_end-Sorted mm.vmas 0 i new_end heap inv.sorted at_i (omega arith) free top))
      ]
      | inr stays ↦ elim (Bool-cases (ltb new_end heap.end)) [
        | inl shrinks ↦
            rw (stays, shrinks)
              (moved (unmap_pages mm.present new_end heap.end) (
                set_end-Sorted mm.vmas 0 i new_end heap inv.sorted at_i (omega arith)
                  (following_clear mm.vmas 0 i new_end heap inv.sorted at_i (ground arith)) top))
        | inr same ↦
            rw (stays, same)
              record { sorted = inv.sorted; paged = inv.paged; brk_low = low; brk_high = high }
      ]
    ]
  where
    moved :
        (present : ℕ → Bool)
        → Sorted 0 (set_end mm.vmas i new_end)
        → HeapInvariant
            (record mm { vmas = set_end mm.vmas i new_end; brk = new_brk; present = present })
    moved present s = record {
      sorted = s;
      paged = set_end_paged mm.vmas i new_end heap inv.paged at_i room;
      brk_low = low;
      brk_high = high;
    }

brk_accepted :
    (mm : Mm) (inc : ℤ)
    → HeapInvariant mm
    → Int64 inc
    → brk_refused mm inc ≡ false
    → (mm.brk_start ≤ moved_brk mm.brk inc) × (moved_brk mm.brk inc ≤ mmap_top)
unfolding brk_refused
brk_accepted mm (pos n) inv range ok = ground (arith, inv.brk_low, inv.brk_high)
brk_accepted mm (negsuc n) inv range ok = ground (arith, inv.brk_low, inv.brk_high)

-- `mm_sbrk`, for every increment and on every outcome: the regions stay in order, none gets smaller
-- than a page, and the break stays between the start of the heap and `mmap_top`.
pub mm_sbrk-HeapInvariant :
    (mm : Mm) (inc : ℤ) → HeapInvariant mm → Int64 inc → HeapInvariant (mm_sbrk mm inc).1
unfolding mm_sbrk
mm_sbrk-HeapInvariant mm inc inv range = elim (Option-cases (last_heap mm.vmas)) [
  | inl no_heap ↦ rw (no_heap, mm_sbrk) inv
  | inr (i, e) ↦ elim (Option-cases (get_elem? mm.vmas i)) [
    | inl empty ↦ rw (e, mm_sbrk, empty) inv
    | inr (heap, at_i) ↦ elim (Bool-cases (brk_refused mm inc)) [
      | inl refused ↦ rw (e, mm_sbrk, at_i, refused) inv
      | inr accepted ↦
          let (low, high) = brk_accepted mm inc inv range accepted in
          let (room, top) =
            heap_end_bounds heap (moved_brk mm.brk inc) high
              (get_elem?_top mm.vmas 0 i heap inv.sorted at_i) (inv.paged i heap at_i) in
          rw (e, mm_sbrk, at_i, accepted)
            (resize_heap-HeapInvariant mm i heap (heap_end heap (moved_brk mm.brk inc))
              (moved_brk mm.brk inc) inv at_i room top low high)
    ]
  ]
]

-- What an outcome of `mm_sbrk` tells: -1 leaves everything as it was, and else the result is the old
-- break, and the new one is the old one moved by the increment.
pub mm_sbrk_result :
    (mm : Mm) (inc : ℤ)
    → ((mm_sbrk mm inc).0 ≡ none → (mm_sbrk mm inc).1 ≡ mm)
      × ((old : ℕ)
          → (mm_sbrk mm inc).0 ≡ some old
          → (old ≡ mm.brk) × ((mm_sbrk mm inc).1.brk ≡ moved_brk mm.brk inc))
unfolding mm_sbrk resize_heap
mm_sbrk_result mm inc = (λ e. ground arith, λ old e. ground arith)

-- ===== src/Tests/Regions.antt =====
-- The regions of a small program.
use c_loyha.Base.{
  ℕ, ◌+◌, ◌≡◌, ◌≢◌, refl, arith, true, false, ◌&&◌, leb, ltb, if◌then◌else◌, none, [],
}
use c_loyha.Base.{◌∷◌, length}
use c_loyha.Base.{List}
use c_loyha.Vma.{
  Vma, Mm, mm_map, mm_unmap, align_up, u64, user_space_start, find_free_area, search_area,
}
use c_loyha.Vma.{minus, mmap_top, scan}
use c_loyha.Vma.Find.{Sorted}
use c_loyha.Vma.Area.{MapEffect, mm_map_lem}
use c_loyha.Vma.Passes.{find_free_area_fuel}
use c_loyha.Base.{zero, suc, ◌≤◌, some, get_elem?, eq_of_some}
use c_loyha.Abi.{pos}
use c_loyha.Vma.{page_size}
use c_loyha.Vma.Heap.{mm_sbrk}
use c_loyha.Vma.Heap.Invariant.{HeapInvariant, mm_sbrk-HeapInvariant}
use c_loyha.Vma.{find_vma}
use c_loyha.Vma.Stack.{grow_stack, grow_from, grow_stack-Sorted}
use c_loyha.Vma.Unmap.{rights, is_some, mm_unmap_lem}

abbrev code : Vma
code = record { start = 0x400000; end = 0x404000; prot = 5; flags = 8 }

abbrev stack : Vma
stack = record { start = 0x7FFFFFFEF000; end = 0x7FFFFFFFF000; prot = 3; flags = 2 }

abbrev program : Mm
program = record {
  vmas = code ∷ stack ∷ [];
  brk_start = 0x500000;
  brk = 0x500000;
  present = λ va. true;
}

program-Sorted : Sorted user_space_start program.vmas
program-Sorted = (omega arith, omega arith, (omega arith, omega arith, omega arith))

below_the_top : find_free_area program.vmas 8192 ≡ 0x6FFFFFFFE000
unfolding find_free_area search_area scan
below_the_top = refl

find_free_area_fuel_example :
    search_area (length program.vmas + 1 + 5) program.vmas 8192 (minus mmap_top 8192)
    ≡ find_free_area program.vmas 8192
find_free_area_fuel_example =
    find_free_area_fuel program.vmas user_space_start 8192 5 program-Sorted (omega arith)

abbrev place : ℕ
place = 0x600000

mm_map_lem_example :
    ((mm_map program true place 8000 3 1).0 ≡ 0 → (mm_map program true place 8000 3 1).1 ≡ program)
    × ((mm_map program true place 8000 3 1).0 ≢ 0
        → (place ≢ 0 → (mm_map program true place 8000 3 1).0 ≡ place)
          × MapEffect program
              (mm_map program true place 8000 3 1).0
              (align_up 8000)
              3
              1
              (mm_map program true place 8000 3 1).1)
mm_map_lem_example = mm_map_lem program true place 8000 3 1 program-Sorted (omega arith)

mm_unmap_lem_example :
    ((mm_unmap program true 0x401000 4096).0 ≡ false
      → (mm_unmap program true 0x401000 4096).1 ≡ program)
    × ((mm_unmap program true 0x401000 4096).0 ≡ true
        → Sorted user_space_start (mm_unmap program true 0x401000 4096).1.vmas
          × ((a : ℕ)
              → rights (mm_unmap program true 0x401000 4096).1.vmas a ≡ (
                  if leb 0x401000 a && ltb a (u64 (0x401000 + align_up 4096))
                  then none
                  else rights program.vmas a))
          × ((va : ℕ)
              → (mm_unmap program true 0x401000 4096).1.present va ≡ (
                  if (leb 0x401000 va && ltb va (u64 (0x401000 + align_up 4096)))
                    && is_some (rights program.vmas va)
                  then false
                  else program.present va)))
mm_unmap_lem_example = mm_unmap_lem program 0x401000 4096 program-Sorted (omega arith)

abbrev heap : Vma
heap = record { start = 0x500000; end = 0x501000; prot = 3; flags = 5 }

abbrev with_heap : Mm
with_heap = record program { vmas = code ∷ heap ∷ stack ∷ [] }

with_heap_paged :
    (i : ℕ) (v : Vma) → get_elem? with_heap.vmas i ≡ some v → v.start + page_size ≤ v.end
with_heap_paged zero v e = let same = eq_of_some e in ground arith
with_heap_paged (suc zero) v e = let same = eq_of_some e in ground arith
with_heap_paged (suc (suc zero)) v e = let same = eq_of_some e in ground arith
with_heap_paged (suc (suc (suc i))) v e = cc

with_heap-HeapInvariant : HeapInvariant with_heap
with_heap-HeapInvariant = record {
  sorted = (
    omega arith,
    omega arith,
    (omega arith, omega arith, (omega arith, omega arith, omega arith)),
  );
  paged = with_heap_paged;
  brk_low = omega arith;
  brk_high = omega arith;
}

mm_sbrk-HeapInvariant_example : HeapInvariant (mm_sbrk with_heap (pos 10000)).1
mm_sbrk-HeapInvariant_example =
    mm_sbrk-HeapInvariant with_heap (pos 10000) with_heap-HeapInvariant (omega arith)

abbrev grown : List Vma
grown = code ∷ record stack { start = 0x7FFFFFFEE000 } ∷ []

nothing_below : find_vma program.vmas 0x7FFFFFFEEFF8 ≡ none
unfolding find_vma
nothing_below = refl

grows : grow_stack program.vmas 0x7FFFFFFEEFF8 ≡ some grown
unfolding grow_stack grow_from
grows = refl

grow_stack-Sorted_example : Sorted user_space_start grown × (find_vma grown 0x7FFFFFFEEFF8 ≢ none)
grow_stack-Sorted_example =
    grow_stack-Sorted program.vmas 0x7FFFFFFEEFF8 grown program-Sorted nothing_below grows

-- ===== src/Tests/Boot.antt =====
-- The free memory of a machine at boot.
use c_loyha.Base.{
  ℕ, ◌+◌, ◌*◌, ◌%◌, ◌≤◌, ◌<◌, ◌≡◌, ◌⊎◌, refl, arith, true, false, some, List, [], ◌∷◌, length,
}
use c_loyha.Vma.{page_size, align_up}
use c_loyha.Memblock.{
  Region, memblock_alloc, memblock_max, reserve_pages, reserve, place_last, place_in,
}
use c_loyha.Memblock.{cut_loop, add_region, drop_empty}
use c_loyha.Memblock.Reserve.{is_free, reserve_pages_lem}
use c_loyha.Memblock.Alloc.{memblock_alloc_lem}

abbrev memory : List Region
memory = record { base = 0x100000; end = 0x8000000 } ∷ []

abbrev after : List Region
after =
    record { base = 0x100000; end = 0x5FFC000 } ∷ record { base = 0x5FFF000; end = 0x8000000 } ∷ []

reserve_pages_lem_example :
    (is_free (reserve_pages memory 0x200000 0x300000) 0x180000 ≡ true
      → (is_free memory 0x180000 ≡ true) × ((0x180000 < 0x200000) ⊎ (0x300000 ≤ 0x180000)))
    × (2 * length memory ≤ memblock_max
        → is_free memory 0x180000 ≡ true
        → (0x180000 < 0x200000) ⊎ (0x300000 ≤ 0x180000)
        → is_free (reserve_pages memory 0x200000 0x300000) 0x180000 ≡ true)
reserve_pages_lem_example = reserve_pages_lem memory 0x200000 0x300000 0x180000 (omega arith)

allocated : memblock_alloc memory 10000 (4 * page_size) 0x6000000 ≡ some (0x5FFC000, after)
unfolding memblock_alloc place_last place_in reserve reserve_pages cut_loop add_region drop_empty
allocated = refl

memblock_alloc_lem_example :
    (0x5FFC000 % page_size ≡ 0)
    × (0x5FFC000 + align_up 10000 ≤ 0x6000000)
    × ((a : ℕ)
        → 0x5FFC000 ≤ a
        → a < 0x5FFC000 + align_up 10000
        → (is_free memory a ≡ true) × (is_free after a ≡ false))
    × ((a : ℕ) → is_free after a ≡ true → is_free memory a ≡ true)
memblock_alloc_lem_example =
    memblock_alloc_lem memory 10000 4 0x6000000 0x5FFC000 after (omega arith) allocated

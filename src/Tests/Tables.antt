-- ===== src/Tests/Tables.antt =====
-- An address space that is empty but for its root table, and a block of four free pages.
use c_loyha.Base.{ℕ, ◌≡◌, refl, sym, arith, true, false, none, some, ◌==◌}
use c_loyha.Base.{[], ◌∷◌, if◌then◌else◌, eq_of_some, subst, ap, ◌∙◌, Bool-cases, inl, inr}
use c_loyha.Pmm.{
  Page, Pmm, take_from, buddy_alloc, area, set_area, split, add_free, del_free, list_del,
}
use c_loyha.Pmm.Calls.{alloc_pages, alloc_in, pmm_alloc_page}
use c_loyha.Pmm.Blocks.{times, cover, cover_list}
use c_loyha.Pmm.Buddy.{Flagged, free_cover}
use c_loyha.Pmm.Range.{Inside}
use c_loyha.Pmm.Pool.{Sound}
use c_loyha.Vmm.{
  Vmm, word, MapResult, mapped, no_memory, panics, vmm_map_page, vmm_get_pte, descend, next_level,
  make_table, alloc_table, vmm_unmap_page, vmm_translate,
}
use c_loyha.Vmm.Tree.{Places, Tree}
use c_loyha.Vmm.Space.{Space}
use c_loyha.Vmm.Pages.{MapDone, vmm_map_page-MapDone}
use c_loyha.Vmm.Changes.{UnmapDone, vmm_unmap_page-UnmapDone, unmap_after_map}

abbrev page_four : ℕ → Page
page_four p = record {
  reserved = false;
  buddy = p == 4;
  slab = false;
  head = false;
  refcount = 0;
  order = 2;
  mapcount = 0;
  cache = none;
}

abbrev four_free : Pmm
four_free = record {
  mem_map = page_four;
  low = record {
    start_pfn = 0;
    end_pfn = 8;
    free_area = λ o. if o == 2 then 4 ∷ [] else [];
    count = λ o. if o == 2 then 1 else 0;
    free_pages = 4;
    managed_pages = 4;
  };
  high = record {
    start_pfn = 0x100000;
    end_pfn = 0x100000;
    free_area = λ o. [];
    count = λ o. 0;
    free_pages = 0;
    managed_pages = 0;
  };
  max_pfn = 8;
  ram = λ a. 0;
}

four_free-Sound : Sound four_free
unfolding Flagged Inside times area
four_free-Sound = record {
  flagged_low = λ p flag small low high. ground arith;
  flagged_high = λ p flag small low high. ground arith;
  inside_low = λ o p lt listed.
      let two : o ≡ 2 = ground arith in
      let four : p ≡ 4 = ground arith in rw (two, four) (omega arith, omega arith);
  inside_high = λ o p lt listed. ground arith;
  low_end = omega arith;
  high_start = omega arith;
  high_end = omega arith;
}

abbrev pub only_root : Vmm
only_root = record {
  pmm = four_free;
  regions = [];
  use_buddy = true;
  kernel_pml4 = 0;
  pte_nx = 0;
  cr3 = 4096;
  flushed = [];
}

abbrev pub root_at_one : Places
root_at_one q = if q == 1 then some (3, 0) else none

pub is_root : (q : ℕ) (x : ℕ × ℕ) → root_at_one q ≡ some x → (q ≡ 1) × ((3, 0) ≡ x)
is_root q x at = elim (Bool-cases (q == 1)) [
  | inl root ↦ let there : some (3, 0) ≡ some x = rw root at at in (ground arith, eq_of_some there)
  | inr other ↦ let nothing : none ≡ some x = rw other at at in absurd cc
]

only_root-Tree : Tree (word only_root) 1 root_at_one
only_root-Tree = record {
  root_place = refl;
  low = λ q l v at.
      let level : 3 ≡ l = ap (λ (x : ℕ × ℕ). x.0) (is_root q (l, v) at).1 in omega arith;
  unique = λ q q' x at at'. (is_root q x at).0 ∙ sym (is_root q' x at').0;
  child = λ q l v i at lt present small. let clash : false ≡ true = present in absurd cc;
  parent = λ q l v at less.
      let level : 3 ≡ l = ap (λ (x : ℕ × ℕ). x.0) (is_root q (l, v) at).1 in absurd (omega arith);
}

pub only_root-Space : Space only_root 1 root_at_one
unfolding area free_cover cover cover_list
only_root-Space = record {
  tree = only_root-Tree;
  sound = four_free-Sound;
  once = λ i. ground arith;
  used = λ q x at. rw (is_root q x at).0 refl;
  frames_fit = omega arith;
  buddy = refl;
}

abbrev pub with_page : Vmm
with_page = elim (vmm_map_page only_root 4096 0x400000 0x9000 6) [
  | mapped st ↦ st
  | no_memory st ↦ st
  | panics ↦ only_root
]

page_mapped : vmm_map_page only_root 4096 0x400000 0x9000 6 ≡ mapped with_page
unfolding vmm_map_page vmm_get_pte descend next_level make_table alloc_table pmm_alloc_page
    alloc_pages alloc_in buddy_alloc take_from area set_area split add_free del_free list_del
page_mapped = refl

vmm_map_page-MapDone_example :
    MapDone only_root 1 root_at_one 0x400000 0x9000 6
      (vmm_map_page only_root 4096 0x400000 0x9000 6)
vmm_map_page-MapDone_example =
    vmm_map_page-MapDone only_root 1 root_at_one 0x400000 9 6 only_root-Space (omega arith)
      (omega arith)

unmap_after_map_example :
    ((vmm_unmap_page with_page 4096 0x400000).0 ≡ 0x9000)
    × ((a : ℕ)
        → vmm_translate (vmm_unmap_page with_page 4096 0x400000).1 4096 a
          ≡ vmm_translate only_root 4096 a)
unmap_after_map_example =
    unmap_after_map only_root 1 root_at_one 0x400000 9 6 with_page only_root-Space (omega arith)
      (omega arith) page_mapped

page_done : MapDone only_root 1 root_at_one 0x400000 0x9000 6 (mapped with_page)
page_done =
    subst (λ (r : MapResult). MapDone only_root 1 root_at_one 0x400000 0x9000 6 r) page_mapped
      vmm_map_page-MapDone_example

page_space : (place : Places) × Space with_page 1 place
unfolding MapDone
page_space = let (_, _, (place, space, _)) = page_done in (place, space)

vmm_unmap_page-UnmapDone_example :
    UnmapDone with_page 1 page_space.0 0x400000 (vmm_unmap_page with_page 4096 0x400000)
vmm_unmap_page-UnmapDone_example =
    vmm_unmap_page-UnmapDone with_page 1 page_space.0 0x400000 page_space.1 (omega arith)

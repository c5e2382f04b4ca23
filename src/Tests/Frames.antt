-- ===== src/Tests/Frames.antt =====
-- A zone of four pages with one free block of two, and no memory above 4 GB.
use c_loyha.Base.{ℕ, ◌+◌, ◌≡◌, refl, arith, false, none, some, ◌==◌, if◌then◌else◌}
use c_loyha.Base.{[], ◌∷◌}
use c_loyha.Pmm.{Page, Pmm, take_from, buddy_alloc, area, set_area, split, add_free, del_free}
use c_loyha.Pmm.Calls.{alloc_pages, alloc_in, put_page, put_count, free_pages, free_panics}
use c_loyha.Pmm.Blocks.{times}
use c_loyha.Pmm.Buddy.{Flagged}
use c_loyha.Pmm.Range.{Inside}
use c_loyha.Pmm.Held.{held_cover}
use c_loyha.Pmm.Pool.{Sound, pool_cover}
use c_loyha.Pmm.Pages.{Call, Run, AllManaged, Run-conserves}

abbrev page_two : ℕ → Page
page_two p = record {
  reserved = false;
  buddy = p == 2;
  slab = false;
  head = false;
  refcount = 0;
  order = 1;
  mapcount = 0;
  cache = none;
}

abbrev pool : Pmm
pool = record {
  mem_map = page_two;
  low = record {
    start_pfn = 0;
    end_pfn = 4;
    free_area = λ o. if o == 1 then 2 ∷ [] else [];
    count = λ o. if o == 1 then 1 else 0;
    free_pages = 2;
    managed_pages = 2;
  };
  high = record {
    start_pfn = 0x100000;
    end_pfn = 0x100000;
    free_area = λ o. [];
    count = λ o. 0;
    free_pages = 0;
    managed_pages = 0;
  };
  max_pfn = 4;
  ram = λ a. 0;
}

pool-Sound : Sound pool
unfolding Flagged Inside times area
pool-Sound = record {
  flagged_low = λ p flag small low high. ground arith;
  flagged_high = λ p flag small low high. ground arith;
  inside_low = λ o p lt listed.
      let one : o ≡ 1 = ground arith in
      let two : p ≡ 2 = ground arith in rw (one, two) (omega arith, omega arith);
  inside_high = λ o p lt listed. ground arith;
  low_end = omega arith;
  high_start = omega arith;
  high_end = omega arith;
}

abbrev one_used : Pmm
one_used = elim (alloc_pages pool 0 false false) [ none ↦ pool | some r ↦ r.1 ]

taken : alloc_pages pool 0 false false ≡ some (2, one_used)
unfolding alloc_pages alloc_in buddy_alloc take_from area
taken = refl

one_left : Page.refcount (Pmm.mem_map one_used 2) ≡ 1
unfolding alloc_pages alloc_in buddy_alloc take_from area set_area
one_left = refl

order_zero : Page.order (Pmm.mem_map one_used 2) ≡ 0
unfolding alloc_pages alloc_in buddy_alloc take_from area set_area
order_zero = refl

abbrev given_back : Pmm
given_back = elim (put_page one_used 2) [ none ↦ pool | some st ↦ st ]

given : put_page one_used 2 ≡ some given_back
unfolding alloc_pages alloc_in buddy_alloc take_from area put_page put_count free_pages free_panics
    set_area split del_free add_free
given = refl

-- One page is taken, and its last reference is dropped.
calls : Run pool [] given_back []
calls = Run.next {b = one_used} {bs = (0, 2) ∷ []} (Call.alloc 0 2 false false taken) (
    Run.next {b = given_back} {bs = []} (Call.put_last 0 2 [] [] one_left order_zero given)
      Run.start)

Run-conserves_example :
    pool_cover given_back 3 + held_cover [] 3 ≡ pool_cover pool 3 + held_cover [] 3
unfolding AllManaged
Run-conserves_example = Run-conserves calls pool-Sound tt 3

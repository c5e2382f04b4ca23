-- ===== src/Vma/Area.antt =====
-- `mm_map`: where a new region lies, and what it changes.
use c_loyha.Base.{ℕ, zero, suc, ◌+◌, ◌%◌, ◌≤◌, ◌<◌, ◌≡◌, ◌≢◌, ◌∙◌, refl, arith, Bool}
use c_loyha.Base.{true, false, not, ◌||◌, ◌==◌, if◌then◌else◌, Bool-cases, inl, inr}
use c_loyha.Base.{none, some, List, [], ◌∷◌, length, Option-cases}
use c_loyha.Vma.{scan, search_area, minus, mmap_top}
use c_loyha.Vma.{
  Vma, Mm, contains, find_vma, range_free, insert_vma, find_free_area, map_at, mm_map,
}
use c_loyha.Vma.{align_up, u64, user_space_start, user_space_end, page_size}
use c_loyha.Vma.Find.{Sorted, insert_vma-Sorted, find_vma_free, find_vma-insert_vma}
use c_loyha.Vma.Find.{find_vma-insert_vma_other}

-- A region of `size` bytes at `addr`, in the user space and on page boundaries.
abbrev pub Placed : ℕ → ℕ → Type 0
Placed addr size =
    (user_space_start ≤ addr) × (addr + size ≤ user_space_end) × (addr % page_size ≡ 0)

abbrev pub new_vma : ℕ → ℕ → ℕ → ℕ → Vma
new_vma addr size prot flags = record {
  start = addr;
  end = addr + size;
  prot = prot;
  flags = flags;
}

-- What a successful mapping is.
abbrev pub Mapped : Mm → ℕ → ℕ → ℕ → ℕ → Mm → Type 0
Mapped mm addr size prot flags mm' =
    Placed addr size
    × (range_free mm.vmas addr (addr + size) ≡ true)
    × (mm'.vmas ≡ insert_vma mm.vmas (new_vma addr size prot flags))

map_at_cases :
    (mm : Mm) (addr size prot flags : ℕ)
    → addr < 18446744073709551616
    → size < 18446744073709551616
    → ((map_at mm addr size prot flags).0 ≡ 0 → (map_at mm addr size prot flags).1 ≡ mm)
      × ((map_at mm addr size prot flags).0 ≢ 0
          → ((map_at mm addr size prot flags).0 ≡ addr)
            × Mapped mm addr size prot flags (map_at mm addr size prot flags).1)
unfolding map_at
map_at_cases mm addr size prot flags a b = (ground arith, ground arith)

scan-lt :
    (vs : List Vma) (len candidate : ℕ) (moved : Bool) (next : ℕ) (moved' : Bool)
    → candidate < 18446744073709551616
    → scan vs len candidate moved ≡ some (next, moved')
    → next < 18446744073709551616
unfolding scan
scan-lt [] len candidate moved next moved' lt e = ground arith
scan-lt (v ∷ vs) len candidate moved next moved' lt e = ground (
  arith,
  scan-lt vs len (minus v.start (u64 (len + page_size))) true next moved' (omega arith),
  scan-lt vs len candidate moved next moved' lt,
)

search_area-lt :
    (fuel : ℕ) (vs : List Vma) (len candidate : ℕ)
    → candidate < 18446744073709551616
    → search_area fuel vs len candidate < 18446744073709551616
unfolding search_area
search_area-lt zero vs len candidate lt = omega arith
search_area-lt (suc fuel) vs len candidate lt = elim (Option-cases (scan vs len candidate false)) [
  | inl nowhere ↦ rw (nowhere, search_area) (omega arith)
  | inr (found, e) ↦
      rw (e, search_area)
        (ground (
          arith,
          search_area-lt fuel vs len found.0,
          scan-lt vs len candidate false found.0 found.1 lt e,
        ))
]

-- What a new mapping changes: the region is in place, nothing was mapped where it lies, the list is
-- still in order, its addresses are found in it and every other address is found where it was.
abbrev pub MapEffect : Mm → ℕ → ℕ → ℕ → ℕ → Mm → Type 0
MapEffect mm addr size prot flags mm' =
    Placed addr size
    × Sorted user_space_start mm'.vmas
    × ((a : ℕ)
        → contains (new_vma addr size prot flags) a ≡ true
        → (find_vma mm.vmas a ≡ none) × (find_vma mm'.vmas a ≡ some (new_vma addr size prot flags)))
    × ((a : ℕ)
        → contains (new_vma addr size prot flags) a ≡ false
        → find_vma mm'.vmas a ≡ find_vma mm.vmas a)

Mapped-MapEffect :
    (mm : Mm) (addr size prot flags : ℕ) (mm' : Mm)
    → Sorted user_space_start mm.vmas
    → size ≢ 0
    → Mapped mm addr size prot flags mm'
    → MapEffect mm addr size prot flags mm'
Mapped-MapEffect mm addr size prot flags mm' s ne (placed, free, list) =
    let nv = new_vma addr size prot flags in
    (
      placed,
      rw list (
          insert_vma-Sorted mm.vmas user_space_start nv s placed.0 (omega (arith, ne)) placed.1
            free),
      (λ a inside.
          let none_there =
            find_vma_free mm.vmas addr (addr + size) a free (ground arith) (ground arith) in
          (none_there, rw list (find_vma-insert_vma mm.vmas nv a none_there inside))),
      λ a outside. rw list (find_vma-insert_vma_other mm.vmas nv a outside),
    )

map_at-MapEffect :
    (mm : Mm) (addr size prot flags : ℕ)
    → Sorted user_space_start mm.vmas
    → addr < 18446744073709551616
    → size < 18446744073709551616
    → size ≢ 0
    → (map_at mm addr size prot flags).0 ≢ 0
    → ((map_at mm addr size prot flags).0 ≡ addr)
      × MapEffect mm
          (map_at mm addr size prot flags).0
          size
          prot
          flags
          (map_at mm addr size prot flags).1
map_at-MapEffect mm addr size prot flags s a b ne ok =
    let (same, mapped) = (map_at_cases mm addr size prot flags a b).1 ok in
    (
      same,
      rw same
          (Mapped-MapEffect mm addr size prot flags (map_at mm addr size prot flags).1 s ne mapped),
    )

place-lt :
    (vs : List Vma) (addr size : ℕ)
    → addr < 18446744073709551616
    → (if addr == 0 then find_free_area vs size else addr) < 18446744073709551616
unfolding find_free_area
place-lt vs addr size lt =
    ground (arith, search_area-lt (length vs + 1) vs size (minus mmap_top size) (omega arith))

-- `mm_map`: where it returns 0 nothing is changed; else the region is where it was asked for, or where
-- a place was found, it lies in the user space on page boundaries, over nothing that was mapped, and
-- no other address is affected.
pub mm_map_lem :
    (mm : Mm) (has_memory : Bool) (addr len prot flags : ℕ)
    → Sorted user_space_start mm.vmas
    → addr < 18446744073709551616
    → ((mm_map mm has_memory addr len prot flags).0 ≡ 0
        → (mm_map mm has_memory addr len prot flags).1 ≡ mm)
      × ((mm_map mm has_memory addr len prot flags).0 ≢ 0
          → (addr ≢ 0 → (mm_map mm has_memory addr len prot flags).0 ≡ addr)
            × MapEffect mm
                (mm_map mm has_memory addr len prot flags).0
                (align_up len)
                prot
                flags
                (mm_map mm has_memory addr len prot flags).1)
unfolding mm_map
mm_map_lem mm has_memory addr len prot flags s lt =
    elim (Bool-cases (align_up len == 0 || not has_memory)) [
      | inl refused ↦ rw refused (λ e. refl, λ ne. absurd (ne refl))
      | inr going ↦
          let place = if addr == 0 then find_free_area mm.vmas (align_up len) else addr in
          let placed = place-lt mm.vmas addr (align_up len) lt in
          rw going (
            (map_at_cases mm place (align_up len) prot flags placed (omega arith)).0,
            λ ok.
                let (same, effect) =
                  map_at-MapEffect mm place (align_up len) prot flags s placed (omega arith)
                    (ground arith) ok in
                (λ ne. same ∙ given mm.vmas addr (align_up len) ne, effect),
          )
    ]
  where
    given :
        (vs : List Vma) (addr size : ℕ)
        → addr ≢ 0
        → (if addr == 0 then find_free_area vs size else addr) ≡ addr
    given vs addr size ne = ground arith

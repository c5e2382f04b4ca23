-- ===== src/Vma/Passes.antt =====
-- The passes of `find_free_area`: how often the regions move the candidate.
use c_loyha.Base.{ℕ, zero, suc, ◌+◌, ◌≤◌, ◌<◌, ◌≡◌, refl, arith, Bool, true, false}
use c_loyha.Base.{ltb, if◌then◌else◌, inl, inr, some}
use c_loyha.Base.{List, [], ◌∷◌, length, Option-cases}
use c_loyha.Vma.{Vma, scan, search_area, find_free_area, minus, u64, page_size, mmap_top}
use c_loyha.Vma.Find.{Sorted, Sorted-low}

-- The regions that start below the end of the candidate and its gap.
above : ℕ → ℕ → List Vma → ℕ
above len candidate [] = 0
above len candidate (v ∷ vs) =
    if ltb v.start (candidate + len + page_size)
    then suc (above len candidate vs)
    else above len candidate vs

above_mono : (len : ℕ) (vs : List Vma) (c c' : ℕ) → c' ≤ c → above len c' vs ≤ above len c vs
unfolding above
above_mono len [] c c' le = omega arith
above_mono len (v ∷ vs) c c' le = ground (arith, above_mono len vs c c' le)

above-length : (len c : ℕ) (vs : List Vma) → above len c vs ≤ length vs
unfolding above
above-length len c [] = omega arith
above-length len c (v ∷ vs) = ground (arith, above-length len c vs)

scan_moves :
    (vs : List Vma) (len c low next : ℕ) (moved moved' : Bool)
    → Sorted low vs
    → c + len ≤ mmap_top
    → scan vs len c moved ≡ some (next, moved')
    → (next ≤ c) × (moved ≡ false → moved' ≡ true → above len next vs < above len c vs)
unfolding scan above
scan_moves [] len c low next moved moved' s le e = ground arith
scan_moves (v ∷ vs) len c low next moved moved' s le e =
    let top = Sorted-low vs v.end s.2 in
    ground (
      arith,
      top,
      scan_moves vs len (minus v.start (u64 (len + page_size))) v.end next true moved' s.2,
      scan_moves vs len c v.end next moved moved' s.2 le,
      above_mono len vs c (minus v.start (u64 (len + page_size))),
      above_mono len vs c next,
      above_mono len vs (minus v.start (u64 (len + page_size))) next,
    )

search_area_fuel :
    (fuel k : ℕ) (vs : List Vma) (len c low : ℕ)
    → Sorted low vs
    → c + len ≤ mmap_top
    → above len c vs < fuel
    → search_area (fuel + k) vs len c ≡ search_area fuel vs len c
unfolding search_area
search_area_fuel zero k vs len c low s le lt = absurd (omega arith)
search_area_fuel (suc fuel) k vs len c low s le lt =
    let more : suc fuel + k ≡ suc (fuel + k) = omega arith in
    elim (Option-cases (scan vs len c false)) [
      | inl nowhere ↦ rw (more, nowhere, search_area) refl
      | inr (found, e) ↦
          rw (more, e, search_area)
            (ground (
              arith,
              scan_moves vs len c low found.0 false found.1 s le e,
              search_area_fuel fuel k vs len found.0 low s,
            ))
    ]

-- The fuel of `find_free_area` is enough: more passes over the regions never change where it finds a
-- place, for any length that fits below `mmap_top`.
pub find_free_area_fuel :
    (vs : List Vma) (low len k : ℕ)
    → Sorted low vs
    → len ≤ mmap_top
    → search_area (length vs + 1 + k) vs len (minus mmap_top len) ≡ find_free_area vs len
unfolding find_free_area
find_free_area_fuel vs low len k s le =
    search_area_fuel (length vs + 1) k vs len (minus mmap_top len) low s (omega arith)
      (omega (arith, above-length len (minus mmap_top len) vs))

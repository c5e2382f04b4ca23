-- ===== src/Memblock/Reserve.antt =====
-- What `reserve` does to the set of free addresses.
use c_loyha.Base.{
  ℕ, zero, suc, ◌+◌, ◌*◌, ◌≤◌, ◌<◌, ◌≡◌, ◌≢◌, ◌⊎◌, inl, inr, refl, sym, ◌∙◌, arith, max,
}
use c_loyha.Base.{Bool, true, false, ◌&&◌, ◌||◌, leb, ltb, if◌then◌else◌, Bool-cases, List, [], ◌∷◌}
use c_loyha.Base.{◌++◌, length}
use c_loyha.Memblock.{Region, memblock_max, add_region, is_apart, left_rest, cut_loop, drop_empty}
use c_loyha.Memblock.{reserve_pages}

abbrev pub within : Region → ℕ → Bool
within r a = leb r.base a && ltb a r.end

-- An address is free when a region contains it.
unfoldable pub is_free : List Region → ℕ → Bool
is_free [] a = false
is_free (r ∷ rs) a = within r a || is_free rs a

is_free-append :
    (xs ys : List Region) (a : ℕ) → is_free (xs ++ ys) a ≡ (is_free xs a || is_free ys a)
unfolding is_free
is_free-append [] ys a = refl
is_free-append (x ∷ xs) ys a = ground (arith, is_free-append xs ys a)

is_free-drop_empty : (rs : List Region) (a : ℕ) → is_free (drop_empty rs) a ≡ is_free rs a
unfolding is_free drop_empty
is_free-drop_empty [] a = refl
is_free-drop_empty (r ∷ rs) a = ground (arith, is_free-drop_empty rs a)

-- The rounds that the loop needs: one for each region, and one more for each that may be split.
rounds : List Region → ℕ → ℕ → ℕ
rounds [] rbase rend = 0
rounds (r ∷ rs) rbase rend = (if is_apart r rbase rend then 1 else 2) + rounds rs rbase rend

rounds-append :
    (xs ys : List Region) (rbase rend : ℕ)
    → rounds (xs ++ ys) rbase rend ≡ rounds xs rbase rend + rounds ys rbase rend
unfolding rounds
rounds-append [] ys rbase rend = omega arith
rounds-append (x ∷ xs) ys rbase rend = omega (arith, rounds-append xs ys rbase rend)

rounds-le : (rs : List Region) (rbase rend : ℕ) → rounds rs rbase rend ≤ 2 * length rs
unfolding rounds
rounds-le [] rbase rend = omega arith
rounds-le (r ∷ rs) rbase rend = ground (arith, rounds-le rs rbase rend)

rounds_behind :
    (base end rbase rend : ℕ)
    → rend ≤ base
    → rounds (record { base = base; end = end } ∷ []) rbase rend ≡ 1
unfolding rounds
rounds_behind base end rbase rend le = ground arith

rounds-add_region :
    (before : ℕ) (rs : List Region) (base end rbase rend : ℕ)
    → rend ≤ base
    → rounds (add_region before rs base end) rbase rend ≤ rounds rs rbase rend + 1
unfolding add_region
rounds-add_region before rs base end rbase rend le = ground (
  arith,
  rounds-append rs (record { base = base; end = end } ∷ []) rbase rend,
  rounds_behind base end rbase rend,
)

is_free-add_region :
    (before : ℕ) (rs : List Region) (base end a : ℕ)
    → is_free (add_region before rs base end) a ≡ true
    → (is_free rs a ≡ true) ⊎ ((base ≤ a) × (a < end))
unfolding add_region is_free
is_free-add_region before rs base end a h = elim (Bool-cases (is_free rs a)) [
  | inl old ↦ inl old
  | inr new ↦ inr (ground (arith, is_free-append rs (record { base = base; end = end } ∷ []) a))
]

is_free-add_region_room :
    (before : ℕ) (rs : List Region) (base end a : ℕ)
    → before + length rs ≢ memblock_max
    → (is_free rs a ≡ true) ⊎ ((base ≤ a) × (a < end))
    → is_free (add_region before rs base end) a ≡ true
unfolding add_region is_free
is_free-add_region_room before rs base end a room h =
    ground (arith, is_free-append rs (record { base = base; end = end } ∷ []) a)

-- The loop makes nothing free, and leaves nothing of the range free.
cut_loop-safe :
    (fuel passed : ℕ) (rs : List Region) (rbase rend a : ℕ)
    → rbase ≤ rend
    → rounds rs rbase rend ≤ fuel
    → is_free (cut_loop fuel passed rs rbase rend) a ≡ true
    → (is_free rs a ≡ true) × ((a < rbase) ⊎ (rend ≤ a))
unfolding cut_loop is_free rounds
cut_loop-safe zero passed [] rbase rend a le enough h = cc
cut_loop-safe zero passed (r ∷ rs) rbase rend a le enough h = ground arith
cut_loop-safe (suc fuel) passed [] rbase rend a le enough h = cc
cut_loop-safe (suc fuel) passed (r ∷ rs) rbase rend a le enough h =
    let longer = add_region (passed + 1) rs (max rend r.base) r.end in
    elim (Bool-cases (is_apart r rbase rend)) [
      | inl apart ↦
          let h' : (within r a || is_free (cut_loop fuel (passed + 1) rs rbase rend) a) ≡ true =
            rw apart at h in
          ground (arith, cut_loop-safe fuel (passed + 1) rs rbase rend a le)
      | inr meets ↦ elim (Bool-cases (ltb rend r.end)) [
        | inl behind ↦
            let h' : (within (left_rest r rbase) a
                  || is_free (cut_loop fuel (passed + 1) longer rbase rend) a)
                ≡ true =
              rw (meets, behind) at h in
            ground (
              arith,
              rounds-add_region (passed + 1) rs (max rend r.base) r.end rbase rend,
              cut_loop-safe fuel (passed + 1) longer rbase rend a le,
              is_free-add_region (passed + 1) rs (max rend r.base) r.end a,
            )
        | inr none_behind ↦
            let h' : (within (left_rest r rbase) a
                  || is_free (cut_loop fuel (passed + 1) rs rbase rend) a)
                ≡ true =
              rw (meets, none_behind) at h in
            ground (arith, cut_loop-safe fuel (passed + 1) rs rbase rend a le)
      ]
    ]

rounds-length : (rs : List Region) (rbase rend : ℕ) → length rs ≤ rounds rs rbase rend
unfolding rounds
rounds-length [] rbase rend = omega arith
rounds-length (r ∷ rs) rbase rend = ground (arith, rounds-length rs rbase rend)

-- While there is room for the parts that are split off, the loop keeps everything outside the range.
cut_loop-keeps :
    (fuel passed : ℕ) (rs : List Region) (rbase rend a : ℕ)
    → rbase ≤ rend
    → rounds rs rbase rend ≤ fuel
    → passed + rounds rs rbase rend ≤ memblock_max
    → is_free rs a ≡ true
    → (a < rbase) ⊎ (rend ≤ a)
    → is_free (cut_loop fuel passed rs rbase rend) a ≡ true
unfolding cut_loop is_free rounds
cut_loop-keeps zero passed rs rbase rend a le enough room h outside = h
cut_loop-keeps (suc fuel) passed [] rbase rend a le enough room h outside = h
cut_loop-keeps (suc fuel) passed (r ∷ rs) rbase rend a le enough room h outside =
    let longer = add_region (passed + 1) rs (max rend r.base) r.end in
    elim (Bool-cases (is_apart r rbase rend)) [
      | inl apart ↦ rw apart (ground (arith, cut_loop-keeps fuel (passed + 1) rs rbase rend a le))
      | inr meets ↦ elim (Bool-cases (ltb rend r.end)) [
        | inl behind ↦
            rw (meets, behind)
              (ground (
                arith,
                rounds-length rs rbase rend,
                rounds-add_region (passed + 1) rs (max rend r.base) r.end rbase rend,
                cut_loop-keeps fuel (passed + 1) longer rbase rend a le,
                is_free-add_region_room (passed + 1) rs (max rend r.base) r.end a,
              ))
        | inr none_behind ↦
            rw (meets, none_behind)
              (ground (arith, cut_loop-keeps fuel (passed + 1) rs rbase rend a le))
      ]
    ]

-- A reservation of whole pages: what is free after it was free before and lies outside the range; and
-- when the array has room for two parts of each region, all that was free outside stays free.
pub reserve_pages_lem :
    (rs : List Region) (rbase rend a : ℕ)
    → rbase ≤ rend
    → (is_free (reserve_pages rs rbase rend) a ≡ true
        → (is_free rs a ≡ true) × ((a < rbase) ⊎ (rend ≤ a)))
      × (2 * length rs ≤ memblock_max
          → is_free rs a ≡ true
          → (a < rbase) ⊎ (rend ≤ a)
          → is_free (reserve_pages rs rbase rend) a ≡ true)
unfolding reserve_pages
reserve_pages_lem rs rbase rend a le = (
  λ h.
      cut_loop-safe (2 * length rs) 0 rs rbase rend a le (rounds-le rs rbase rend)
        (sym (is_free-drop_empty (cut_loop (2 * length rs) 0 rs rbase rend) a) ∙ h),
  λ room h outside.
      is_free-drop_empty (cut_loop (2 * length rs) 0 rs rbase rend) a
      ∙ cut_loop-keeps (2 * length rs) 0 rs rbase rend a le (rounds-le rs rbase rend)
          (omega (arith, rounds-le rs rbase rend)) h outside,
)

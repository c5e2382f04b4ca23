-- ===== src/Memblock/Alloc.antt =====
-- What `memblock_alloc` gives: a range of pages that was free and is taken.
use c_loyha.Base.{ℕ, ◌+◌, ◌-◌, ◌*◌, ◌/◌, ◌%◌, ◌≤◌, ◌<◌, ◌≡◌, ◌⊎◌, inl, inr, sym, ◌∙◌, ap, arith}
use c_loyha.Base.{min, true, false, Bool-cases, List, []}
use c_loyha.Base.{◌∷◌, some, Option-cases, eq_of_some, ap₂}
use c_loyha.Vma.{page_size, align_down, align_up, u64}
use c_loyha.Memblock.{
  Region, align_to, place_in, place_last, memblock_alloc, reserve, reserve_pages,
}
use c_loyha.Memblock.Reserve.{is_free, reserve_pages_lem}

align_to-le : (x align : ℕ) → align_to x align ≤ x
align_to-le x align = grind arith

align_to_page : (x k : ℕ) → align_to x (k * page_size) % page_size ≡ 0
align_to_page x k =
    let e : align_to x (k * page_size) ≡ (x / (k * page_size) * k) * page_size = grind arith in
    omega (arith, e)

place_in_lem :
    (r : Region) (size align limit base : ℕ)
    → place_in r size align limit ≡ some base
    → (r.base ≤ base)
      × (base + size ≤ r.end)
      × (base + size ≤ limit)
      × (base ≡ align_to (min r.end limit - size) align)
unfolding place_in
place_in_lem r size align limit base e = ground (arith, align_to-le (min r.end limit - size) align)

place_last_lem :
    (rs : List Region) (size align limit base : ℕ)
    → place_last rs size align limit ≡ some base
    → (base + size ≤ limit)
      × ((x : ℕ) × (base ≡ align_to x align))
      × ((a : ℕ) → base ≤ a → a < base + size → is_free rs a ≡ true)
unfolding place_last is_free
place_last_lem [] size align limit base e = cc
place_last_lem (r ∷ rs) size align limit base e =
    elim (Option-cases (place_last rs size align limit)) [
      | inl nowhere ↦
          let here : place_in r size align limit ≡ some base = rw (nowhere, place_last) at e in
          let (low, high, below, aligned) = place_in_lem r size align limit base here in
          (below, (min r.end limit - size, aligned), λ a ge lt. ground arith)
      | inr (b, found) ↦
          let same : b ≡ base = eq_of_some (rw (found, place_last) at e) in
          let (below, aligned, free) =
            place_last_lem rs size align limit base (found ∙ ap some same) in
          (below, aligned, λ a ge lt. ground (arith, free a))
    ]

aligned_lem :
    (base size limit x k : ℕ)
    → base ≡ align_to x (k * page_size)
    → base + align_up size ≤ limit
    → limit < 18446744073709551616
    → (base % page_size ≡ 0)
      × (align_down base ≡ base)
      × (align_up (u64 (base + align_up size)) ≡ base + align_up size)
aligned_lem base size limit x k e le lt =
    let page : base % page_size ≡ 0 = ap (λ (b : ℕ). b % page_size) e ∙ align_to_page x k in
    (page, omega (arith, page), omega (arith, page))

-- An allocation at boot, for an alignment of whole pages: it begins on a page, lies below the limit,
-- and each of its addresses was free and is free no more; and nothing that was not free becomes free.
pub memblock_alloc_lem :
    (rs : List Region) (size k limit base : ℕ) (rs' : List Region)
    → limit < 18446744073709551616
    → memblock_alloc rs size (k * page_size) limit ≡ some (base, rs')
    → (base % page_size ≡ 0)
      × (base + align_up size ≤ limit)
      × ((a : ℕ)
          → base ≤ a
          → a < base + align_up size
          → (is_free rs a ≡ true) × (is_free rs' a ≡ false))
      × ((a : ℕ) → is_free rs' a ≡ true → is_free rs a ≡ true)
unfolding memblock_alloc reserve
memblock_alloc_lem rs size k limit base rs' lt e =
    elim (Option-cases (place_last rs (align_up size) (k * page_size) limit)) [
      | inl nowhere ↦ let none_is = rw (nowhere, memblock_alloc) at e in cc
      | inr (b, found) ↦
          let pair = eq_of_some (rw (found, memblock_alloc) at e) in
          let same : b ≡ base = ap (λ (r : ℕ × List Region). r.0) pair in
          let table : reserve_pages rs (align_down b) (align_up (u64 (b + align_up size))) ≡ rs' =
            ap (λ (r : ℕ × List Region). r.1) pair in
          let (below, (x, at_x), free) =
            place_last_lem rs (align_up size) (k * page_size) limit base (found ∙ ap some same) in
          let (page, low, high) = aligned_lem base size limit x k at_x below lt in
          let taken : reserve_pages rs base (base + align_up size) ≡ rs' =
            ap₂ (reserve_pages rs) (sym low ∙ ap align_down (sym same))
              (sym high ∙ ap (λ (c : ℕ). align_up (u64 (c + align_up size))) (sym same))
            ∙ table in
          (
            page,
            below,
            (λ a ge below_a. (free a ge below_a, gone taken a ge below_a)),
            λ a h.
                ((reserve_pages_lem rs base (base + align_up size) a (omega arith)).0
                  (back taken a h)).0,
          )
    ]
  where
    back :
        reserve_pages rs base (base + align_up size) ≡ rs'
        → (a : ℕ) → is_free rs' a ≡ true
        → is_free (reserve_pages rs base (base + align_up size)) a ≡ true
    back taken a h = ap (λ (xs : List Region). is_free xs a) taken ∙ h

    gone :
        reserve_pages rs base (base + align_up size) ≡ rs'
        → (a : ℕ) → base ≤ a
        → a < base + align_up size
        → is_free rs' a ≡ false
    gone taken a ge below_a = elim (Bool-cases (is_free rs' a)) [
      | inl still ↦
          let (free_before, outside) =
            (reserve_pages_lem rs base (base + align_up size) a (omega arith)).0
              (back taken a still) in
          absurd (not_outside a ge below_a outside)
      | inr taken' ↦ taken'
    ]
      where
        not_outside :
            (a : ℕ)
            → base ≤ a
            → a < base + align_up size
            → (a < base) ⊎ (base + align_up size ≤ a)
            → ⊥
        not_outside a ge lt h = ground arith

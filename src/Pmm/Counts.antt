-- ===== src/Pmm/Counts.antt =====
-- The reference counts of the pages that an allocation does not hand out.
use c_loyha.Base.{ℕ, zero, suc, ◌+◌, ◌-◌, ◌^◌, ◌≡◌, ◌≢◌, ◌==◌, inl, inr, refl, ◌∙◌, subst, arith}
use c_loyha.Base.{Bool, Bool-cases, Option-cases, false, none, some}
use c_loyha.Base.{leb, eq_of_some, List-cases}
use c_loyha.Vma.{minus}
use c_loyha.Pmm.{
  Pmm, Page, Area, ZoneId, dma32, normal, max_order, area, set_area, buddy_alloc, take_from, split,
  add_free, del_free,
}
use c_loyha.Pmm.Calls.{alloc_pages, alloc_in}
use c_loyha.Pmm.Pool.{with_count}
use c_loyha.Pmm.Handing.{handed}

-- The count of a page in a zone's view of the pages.
abbrev refs : Area → ℕ → ℕ
refs a q = Page.refcount (Area.page a q)

refs-split : (above : ℕ) (a : Area) (p order q : ℕ) → refs (split above a p order) q ≡ refs a q
unfolding split add_free
refs-split zero a p order q = refl
refs-split (suc above) a p order q =
    refs-split above (add_free a (p + 2 ^ (order + above)) (order + above)) p order q
    ∙ elim (Bool-cases (q == p + 2 ^ (order + above))) [
      | inl e ↦ let same : q ≡ p + 2 ^ (order + above) = ground arith in rw (e, same) refl
      | inr ne ↦ rw ne refl
    ]

refs-del_free : (a : Area) (p order q : ℕ) → refs (del_free a p order) q ≡ refs a q
unfolding del_free
refs-del_free a p order q = elim (Bool-cases (q == p)) [
  | inl e ↦ let same : q ≡ p = ground arith in rw (e, same) refl
  | inr ne ↦ rw ne refl
]

refs-take_from :
    (left : ℕ) (a : Area) (above order q : ℕ) (r : ℕ × Area)
    → take_from left a above order ≡ some r
    → refs r.1 q ≡ refs a q
unfolding take_from
refs-take_from zero a above order q r found = absurd cc
refs-take_from (suc left) a above order q r found =
    elim (List-cases (a.zone.free_area (order + above))) [
      | inl empty ↦ refs-take_from left a (above + 1) order q r (rw (take_from, empty) at found)
      | inr (p, ps, eq) ↦
          let first : some (p, split above (del_free a p (order + above)) p order) ≡ some r =
            rw (take_from, eq) at found in
          subst (λ (x : ℕ × Area). refs x.1 q ≡ refs a q) (eq_of_some first)
            (refs-split above (del_free a p (order + above)) p order q
              ∙ refs-del_free a p (order + above) q)
    ]

refs-set_area :
    (st : Pmm) (z : ZoneId) (b : Area) (q : ℕ)
    → Page.refcount (Pmm.mem_map (set_area st z b) q) ≡ refs b q
unfolding set_area
refs-set_area st dma32 b q = refl
refs-set_area st normal b q = refl

refs-area : (st : Pmm) (z : ZoneId) (q : ℕ) → refs (area st z) q ≡ Page.refcount (st.mem_map q)
unfolding area
refs-area st dma32 q = refl
refs-area st normal q = refl

refcount-alloc_in :
    (st : Pmm) (z : ZoneId) (order q : ℕ) (gfp_zero : Bool) (r : ℕ × Pmm)
    → alloc_in st z order gfp_zero ≡ some r
    → q ≢ r.0
    → Page.refcount (Pmm.mem_map r.1 q) ≡ Page.refcount (st.mem_map q)
unfolding alloc_in buddy_alloc
refcount-alloc_in st z order q gfp_zero r found =
    elim (Option-cases (buddy_alloc (area st z) order)) [
      | inl nothing ↦ let no_block : none ≡ some r = rw (alloc_in, nothing) at found in absurd cc
      | inr ((p, b), eq) ↦
          let same : some (p, handed st z order gfp_zero p b) ≡ some r =
            rw (alloc_in, eq) at found in
          let c = with_count b (minus b.zone.free_pages (2 ^ order)) in
          subst
            (λ (x : ℕ × Pmm).
              q ≢ x.0 → Page.refcount (Pmm.mem_map x.1 q) ≡ Page.refcount (st.mem_map q))
            (eq_of_some same)
            (λ other.
              let ne : (q == p) ≡ false = ground arith in
              rw ne (
                refs-set_area st z c q
                ∙ refs-take_from (max_order - order) (area st z) 0 order q (p, b) eq
                ∙ refs-area st z q))
    ]

pub refcount-alloc_pages :
    (st : Pmm) (order q : ℕ) (gfp_zero gfp_dma32 : Bool) (r : ℕ × Pmm)
    → alloc_pages st order gfp_zero gfp_dma32 ≡ some r
    → q ≢ r.0
    → Page.refcount (Pmm.mem_map r.1 q) ≡ Page.refcount (st.mem_map q)
unfolding alloc_pages
refcount-alloc_pages st order q gfp_zero gfp_dma32 r found =
    elim (Bool-cases (leb max_order order)) [
      | inl large ↦ let no_block : none ≡ some r = rw large at found in absurd cc
      | inr small ↦ elim (Bool-cases gfp_dma32) [
        | inl low ↦ refcount-alloc_in st dma32 order q gfp_zero r (rw (small, low) at found)
        | inr any ↦ elim (Option-cases (alloc_in st normal order gfp_zero)) [
          | inl empty ↦
              refcount-alloc_in st dma32 order q gfp_zero r (rw (small, any, empty) at found)
          | inr (x, taken) ↦
              let same : some x ≡ some r = rw (small, any, taken) at found in
              refcount-alloc_in st normal order q gfp_zero r (taken ∙ same)
        ]
      ]
    ]

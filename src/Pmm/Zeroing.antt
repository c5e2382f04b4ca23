-- ===== src/Pmm/Zeroing.antt =====
-- What `alloc_pages` does to the memory.
use c_loyha.Base.{
  ℕ, ◌^◌, ◌≡◌, inl, inr, refl, ap, ◌∙◌, subst, Bool-cases, Option-cases, if◌then◌else◌, Bool,
}
use c_loyha.Base.{none, some, leb, eq_of_some}
use c_loyha.Vma.{minus}
use c_loyha.Pmm.{Pmm, Area, ZoneId, dma32, normal, max_order, area, set_area, buddy_alloc}
use c_loyha.Pmm.Calls.{alloc_pages, alloc_in, zero_pages}
use c_loyha.Pmm.Pool.{with_count}
use c_loyha.Pmm.Handing.{handed}

ram-set_area : (st : Pmm) (z : ZoneId) (b : Area) → Pmm.ram (set_area st z b) ≡ st.ram
unfolding set_area
ram-set_area st dma32 b = refl
ram-set_area st normal b = refl

ram-alloc_in :
    (st : Pmm) (z : ZoneId) (order : ℕ) (gfp_zero : Bool) (r : ℕ × Pmm)
    → alloc_in st z order gfp_zero ≡ some r
    → Pmm.ram r.1 ≡ (if gfp_zero then zero_pages st.ram r.0 order else st.ram)
unfolding alloc_in
ram-alloc_in st z order gfp_zero r found = elim (Option-cases (buddy_alloc (area st z) order)) [
  | inl nothing ↦ let no_block : none ≡ some r = rw (alloc_in, nothing) at found in absurd cc
  | inr ((p, b), eq) ↦
      let same : some (p, handed st z order gfp_zero p b) ≡ some r = rw (alloc_in, eq) at found in
      subst
        (λ (x : ℕ × Pmm). Pmm.ram x.1 ≡ (if gfp_zero then zero_pages st.ram x.0 order else st.ram))
        (eq_of_some same)
        (ap (λ (ram : ℕ → ℕ). if gfp_zero then zero_pages ram p order else ram)
          (ram-set_area st z (with_count b (minus b.zone.free_pages (2 ^ order)))))
]

-- The pages of the block are zeroed where that is asked for, and nothing else is written.
pub ram-alloc_pages :
    (st : Pmm) (order : ℕ) (gfp_zero gfp_dma32 : Bool) (r : ℕ × Pmm)
    → alloc_pages st order gfp_zero gfp_dma32 ≡ some r
    → Pmm.ram r.1 ≡ (if gfp_zero then zero_pages st.ram r.0 order else st.ram)
unfolding alloc_pages
ram-alloc_pages st order gfp_zero gfp_dma32 r found = elim (Bool-cases (leb max_order order)) [
  | inl large ↦ let no_block : none ≡ some r = rw large at found in absurd cc
  | inr small ↦ elim (Bool-cases gfp_dma32) [
    | inl low ↦ ram-alloc_in st dma32 order gfp_zero r (rw (small, low) at found)
    | inr any ↦ elim (Option-cases (alloc_in st normal order gfp_zero)) [
      | inl empty ↦ ram-alloc_in st dma32 order gfp_zero r (rw (small, any, empty) at found)
      | inr (x, taken) ↦
          let same : some x ≡ some r = rw (small, any, taken) at found in
          ram-alloc_in st normal order gfp_zero r (taken ∙ same)
    ]
  ]
]

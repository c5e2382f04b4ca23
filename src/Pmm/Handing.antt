-- ===== src/Pmm/Handing.antt =====
-- What `alloc_pages` hands out.
use c_loyha.Base.{ℕ, zero, suc, ◌+◌, ◌-◌, ◌^◌, ◌<◌, ◌≡◌, inl, inr, refl, ap, ◌∙◌}
use c_loyha.Base.{
  subst, arith, Bool-cases, Option-cases, eq_of_some, List-cases, Bool, true, false, ◌==◌, leb,
  if◌then◌else◌,
}
use c_loyha.Base.{none, some}
use c_loyha.Vma.{minus}
use c_loyha.Pmm.{Page, Area, Pmm, ZoneId, dma32, normal, update, max_order}
use c_loyha.Pmm.{area, set_area, add_free, del_free, split, take_from, buddy_alloc}
use c_loyha.Pmm.Calls.{headed, zero_pages, alloc_in, alloc_pages}
use c_loyha.Pmm.Blocks.{in_block}
use c_loyha.Pmm.Buddy.{Taken, buddy_alloc-Taken}
use c_loyha.Pmm.Range.{positive_pow, Holds, LocalTake, buddy_alloc-LocalTake}
use c_loyha.Pmm.Pool.{
  Sound, Sound-Flagged, Sound-Inside, pool_cover, Managed, SameBounds, Sound-pages,
}
use c_loyha.Pmm.Pool.{
  with_count, counted_cover, pool_cover-pages, pool_cover-set_area, Sound-set_counted,
}

del_free-unflagged :
    (a : Area) (p order : ℕ) → Page.buddy (Area.page (del_free a p order) p) ≡ false
unfolding del_free
del_free-unflagged a p order = ground arith

-- The page that an allocation hands out is no longer flagged.
page-split : (above : ℕ) (a : Area) (p order : ℕ) → Area.page (split above a p order) p ≡ a.page p
unfolding split add_free
page-split zero a p order = refl
page-split (suc above) a p order =
    let other : (p == p + 2 ^ (order + above)) ≡ false =
      ground (arith, positive_pow (order + above)) in
    page-split above (add_free a (p + 2 ^ (order + above)) (order + above)) p order ∙ rw other refl

take_from-unflagged :
    (left : ℕ) (a : Area) (above order : ℕ) (r : ℕ × Area)
    → take_from left a above order ≡ some r
    → Page.buddy (Area.page r.1 r.0) ≡ false
unfolding take_from
take_from-unflagged zero a above order r found = cc
take_from-unflagged (suc left) a above order r found =
    elim (List-cases (a.zone.free_area (order + above))) [
      | inl empty ↦ take_from-unflagged left a (above + 1) order r (rw (take_from, empty) at found)
      | inr (p, ps, eq) ↦
          let first : some (p, split above (del_free a p (order + above)) p order) ≡ some r =
            rw (take_from, eq) at found in
          let off : Page.buddy (Area.page (split above (del_free a p (order + above)) p order) p)
              ≡ false =
            ap Page.buddy (page-split above (del_free a p (order + above)) p order)
            ∙ del_free-unflagged a p (order + above) in
          subst (λ (x : ℕ × Area). Page.buddy (Area.page x.1 x.0) ≡ false) (eq_of_some first) off
    ]

-- An allocation keeps the invariant and the bounds of the zones, and hands out a block of a zone that
-- the lists no longer cover.
abbrev pub Handed : Pmm → ℕ → ℕ × Pmm → Type 0
Handed st order r =
    Sound r.1
    × SameBounds st r.1
    × Managed st order r.0
    × ((i : ℕ) → pool_cover r.1 i + in_block order r.0 i ≡ pool_cover st i)

-- The state that `alloc_in` returns for a block that `buddy_alloc` took.
abbrev pub handed : Pmm → ZoneId → ℕ → Bool → ℕ → Area → Pmm
handed st z order gfp_zero p b =
    let st' = set_area st z (with_count b (minus b.zone.free_pages (2 ^ order))) in
    record st' {
      mem_map = update st'.mem_map p (headed (st'.mem_map p) order);
      ram = if gfp_zero then zero_pages st'.ram p order else st'.ram;
    }

mem_map-set_area : (st : Pmm) (z : ZoneId) (b : Area) → Pmm.mem_map (set_area st z b) ≡ b.page
unfolding set_area
mem_map-set_area st dma32 b = refl
mem_map-set_area st normal b = refl

headed_kept :
    (page : ℕ → Page) (p order : ℕ)
    → Page.buddy (page p) ≡ false
    → (q : ℕ) → Page.buddy (update page p (headed (page p) order) q) ≡ true
    → (Page.buddy (page q) ≡ true)
      × (Page.order (update page p (headed (page p) order) q) ≡ Page.order (page q))
headed_kept page p order off q flag = elim (Bool-cases (q == p)) [
  | inl e ↦ let flagged : Page.buddy (page p) ≡ true = rw e at flag in absurd cc
  | inr ne ↦ let flagged : Page.buddy (page q) ≡ true = rw ne at flag in rw ne (flagged, refl)
]

Managed-in :
    (st : Pmm) (z : ZoneId) (order p : ℕ)
    → order < max_order
    → Holds (Area.zone (area st z)) order p
    → Managed st order p
unfolding area
Managed-in st dma32 order p lt here = (lt, inl here)
Managed-in st normal order p lt here = (lt, inr here)

handed_lem :
    (st : Pmm) (z : ZoneId) (order : ℕ) (gfp_zero : Bool) (p : ℕ) (b : Area)
    → order < max_order
    → Sound st
    → buddy_alloc (area st z) order ≡ some (p, b)
    → Handed st order (p, handed st z order gfp_zero p b)
unfolding Taken LocalTake buddy_alloc
handed_lem st z order gfp_zero p b lt sound found =
    let (flagged, taken) =
      buddy_alloc-Taken (area st z) order (p, b) (Sound-Flagged st z sound) found in
    let (local, here) =
      buddy_alloc-LocalTake (area st z) order (p, b) lt (Sound-Inside st z sound) found in
    let off = take_from-unflagged (max_order - order) (area st z) 0 order (p, b) found in
    let counted = with_count b (minus b.zone.free_pages (2 ^ order)) in
    let st' = set_area st z counted in
    let (sound', bounds) =
      Sound-set_counted st z b (minus b.zone.free_pages (2 ^ order)) sound flagged local in
    (
      Sound-pages st' (update st'.mem_map p (headed (st'.mem_map p) order))
          (if gfp_zero then zero_pages st'.ram p order else st'.ram)
          (headed_kept st'.mem_map p order
            (ap (λ (page : ℕ → Page). Page.buddy (page p)) (mem_map-set_area st z counted) ∙ off))
          sound',
      bounds,
      Managed-in st z order p lt here,
      λ i. omega (
        arith,
        pool_cover-pages st' (update st'.mem_map p (headed (st'.mem_map p) order))
            (if gfp_zero then zero_pages st'.ram p order else st'.ram) i,
        pool_cover-set_area st z counted i,
        taken i,
        counted_cover b (minus b.zone.free_pages (2 ^ order)) i,
      ),
    )

-- The work of `alloc_pages` in one zone.
pub alloc_in_lem :
    (st : Pmm) (z : ZoneId) (order : ℕ) (gfp_zero : Bool) (r : ℕ × Pmm)
    → order < max_order
    → Sound st
    → alloc_in st z order gfp_zero ≡ some r
    → Handed st order r
unfolding alloc_in
alloc_in_lem st z order gfp_zero r lt sound found =
    elim (Option-cases (buddy_alloc (area st z) order)) [
      | inl nothing ↦ let no_block : none ≡ some r = rw (alloc_in, nothing) at found in cc
      | inr ((p, b), eq) ↦
          let same : some (p, handed st z order gfp_zero p b) ≡ some r =
            rw (alloc_in, eq) at found in
          subst (λ (x : ℕ × Pmm). Handed st order x) (eq_of_some same)
            (handed_lem st z order gfp_zero p b lt sound eq)
    ]

-- An allocation of either zone keeps the invariant, and hands out a block that was free and is free no
-- more, with no other page freed or taken.
pub alloc_pages-Handed :
    (st : Pmm) (order : ℕ) (gfp_zero gfp_dma32 : Bool) (r : ℕ × Pmm)
    → Sound st
    → alloc_pages st order gfp_zero gfp_dma32 ≡ some r
    → Handed st order r
unfolding alloc_pages
alloc_pages-Handed st order gfp_zero gfp_dma32 r sound found =
    elim (Bool-cases (leb max_order order)) [
      | inl large ↦ let no_block : none ≡ some r = rw large at found in cc
      | inr small ↦ elim (Bool-cases gfp_dma32) [
        | inl low ↦
            alloc_in_lem st dma32 order gfp_zero r (ground arith) sound (rw (small, low) at found)
        | inr any ↦ elim (Option-cases (alloc_in st normal order gfp_zero)) [
          | inl empty ↦
              alloc_in_lem st dma32 order gfp_zero r (ground arith) sound
                (rw (small, any, empty) at found)
          | inr (x, taken) ↦
              let same : some x ≡ some r = rw (small, any, taken) at found in
              alloc_in_lem st normal order gfp_zero r (ground arith) sound (taken ∙ same)
        ]
      ]
    ]

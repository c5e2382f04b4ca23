-- ===== src/Pmm/Returns.antt =====
-- What `free_pages` takes back.
use c_loyha.Base.{ℕ, ◌+◌, ◌^◌, ◌<◌, ◌≡◌, inl, inr, refl, ap, ◌∙◌}
use c_loyha.Base.{subst, arith, Bool-cases, true, false, ltb, eq_of_some}
use c_loyha.Base.{none, some}
use c_loyha.Vma.{u64}
use c_loyha.Pmm.{Page, Zone, Area, Pmm, update, pfn_4g, pfn_zone}
use c_loyha.Pmm.{area, set_area, buddy_free}
use c_loyha.Pmm.Calls.{free_panics, free_pages}
use c_loyha.Pmm.Blocks.{in_block}
use c_loyha.Pmm.Buddy.{buddy_free_lem}
use c_loyha.Pmm.Range.{positive_pow, Holds, buddy_free-Local}
use c_loyha.Pmm.Pool.{
  Sound, Sound-Flagged, Sound-Inside, pool_cover, Managed, SameBounds, Sound-pages, kept_at,
}
use c_loyha.Pmm.Pool.{
  with_count, counted_cover, pool_cover-pages, pool_cover-set_area, Sound-set_counted,
}

-- The zone that a block lies in is the one that `pfn_zone` finds for its first page.
zone_of :
    (st : Pmm) (order p : ℕ)
    → Sound st
    → Managed st order p
    → (p < 2 ^ 63) × Holds (Area.zone (area st (pfn_zone p))) order p
unfolding area
zone_of st order p sound (lt, inl (low, high)) =
    let below : ltb p pfn_4g ≡ true = ground (arith, sound.low_end, positive_pow order) in
    (omega (arith, sound.low_end), rw below (low, high))
zone_of st order p sound (lt, inr (low, high)) =
    let above : ltb p pfn_4g ≡ false = ground (arith, sound.high_start) in
    (omega (arith, sound.high_end), rw above (low, high))

-- A block that comes back is free, and no other page is freed or taken.
abbrev pub Returned : Pmm → ℕ → ℕ → Pmm → Type 0
Returned st order p st' =
    Sound st'
    × SameBounds st st'
    × ((i : ℕ) → pool_cover st' i ≡ pool_cover st i + in_block order p i)

give_back :
    (st : Pmm) (order p n : ℕ)
    → Sound st
    → Managed st order p
    → Returned st order p
        (set_area st (pfn_zone p) (with_count (buddy_free (area st (pfn_zone p)) p order) n))
give_back st order p n sound managed =
    let (lt, _) = managed in
    let z = pfn_zone p in
    let (fits, here) = zone_of st order p sound managed in
    let (flagged, freed) = buddy_free_lem (area st z) p order (Sound-Flagged st z sound) fits lt in
    let local = buddy_free-Local (area st z) p order (Sound-Inside st z sound) fits lt here in
    let b = buddy_free (area st z) p order in
    let (sound', bounds) = Sound-set_counted st z b n sound flagged local in
    (
      sound',
      bounds,
      λ i. omega (arith, pool_cover-set_area st z (with_count b n) i, counted_cover b n i, freed i),
    )

-- The writes of `free_pages` into the page before its block goes back.
abbrev unheaded : Page → Page
unheaded p = record p { head = false; slab = false; refcount = 0; cache = none }

abbrev cleared : Pmm → ℕ → Pmm
cleared st p = record st { mem_map = update st.mem_map p (unheaded (st.mem_map p)) }

-- A block that was handed out and comes back keeps the invariant, and is free from then on.
pub free_pages-Returned :
    (st : Pmm) (order p : ℕ) {st' : Pmm}
    → Sound st
    → Managed st order p
    → free_pages st p order ≡ some st'
    → Returned st order p st'
unfolding free_pages set_area
free_pages-Returned st order p {st' = st'} sound managed freed =
    elim (Bool-cases (free_panics st p order)) [
      | inl panic ↦ let nothing : none ≡ some st' = rw panic at freed in cc
      | inr ok ↦
          let marked = cleared st p in
          let n = u64 (
            Zone.free_pages (Area.zone (buddy_free (area marked (pfn_zone p)) p order))
            + 2 ^ order) in
          let (sound', bounds, cover) =
            give_back marked order p n
              (Sound-pages st (update st.mem_map p (unheaded (st.mem_map p))) st.ram
                (kept_at st.mem_map p (unheaded (st.mem_map p)) refl refl) sound)
              managed in
          let same : some (
                set_area marked (pfn_zone p)
                  (with_count (buddy_free (area marked (pfn_zone p)) p order) n))
              ≡ some st' =
            rw ok at freed in
          subst (λ (x : Pmm). Returned st order p x) (eq_of_some same)
            (
              sound',
              bounds,
              λ i.
                  cover i
                  ∙ ap (λ (k : ℕ). k + in_block order p i)
                      (pool_cover-pages st (update st.mem_map p (unheaded (st.mem_map p))) st.ram
                        i),
            )
    ]

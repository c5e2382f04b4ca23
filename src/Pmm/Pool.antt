-- ===== src/Pmm/Pool.antt =====
-- One call of the allocator, in both zones.
use c_loyha.Base.{ℕ, ◌+◌, ◌^◌, ◌≤◌, ◌<◌, ◌≡◌, ◌⊎◌, inl, inr, refl, sym, ap, ◌∙◌}
use c_loyha.Base.{arith, Bool-cases, true, ◌==◌}
use c_loyha.Pmm.{Page, Zone, Area, Pmm, ZoneId, dma32, normal, update, max_order, pfn_4g}
use c_loyha.Pmm.{area, set_area}
use c_loyha.Pmm.Buddy.{free_cover, Flagged}
use c_loyha.Pmm.Held.{others-Flagged}
use c_loyha.Pmm.Range.{positive_pow, Holds, Inside, Local}

-- The lists agree with the flags of the pages, each zone lists blocks of its own range, and the zones
-- meet at 4 GB.
pub record Sound (st : Pmm) : Type 0 where
  pub flagged_low : Flagged (area st dma32)
  pub flagged_high : Flagged (area st normal)
  pub inside_low : Inside (area st dma32)
  pub inside_high : Inside (area st normal)
  pub low_end : st.low.end_pfn ≤ pfn_4g
  pub high_start : pfn_4g ≤ st.high.start_pfn
  pub high_end : st.high.end_pfn < 2 ^ 63

pub Sound-Flagged : (st : Pmm) (z : ZoneId) → Sound st → Flagged (area st z)
Sound-Flagged st dma32 sound = sound.flagged_low
Sound-Flagged st normal sound = sound.flagged_high

pub Sound-Inside : (st : Pmm) (z : ZoneId) → Sound st → Inside (area st z)
Sound-Inside st dma32 sound = sound.inside_low
Sound-Inside st normal sound = sound.inside_high

-- How often the free blocks of both zones cover the page `i`.
abbrev pub pool_cover : Pmm → ℕ → ℕ
pool_cover st i = free_cover (area st dma32) i + free_cover (area st normal) i

-- A block of one of the zones.
abbrev pub Managed : Pmm → ℕ → ℕ → Type 0
Managed st order p = (order < max_order) × (Holds st.low order p ⊎ Holds st.high order p)

abbrev pub SameBounds : Pmm → Pmm → Type 0
SameBounds st st' =
    (st'.low.start_pfn ≡ st.low.start_pfn)
    × (st'.low.end_pfn ≡ st.low.end_pfn)
    × (st'.high.start_pfn ≡ st.high.start_pfn)
    × (st'.high.end_pfn ≡ st.high.end_pfn)

-- The other zone, whose range lies apart, after local work on a zone.
other-Flagged :
    (a b : Area) (z : Zone)
    → Local a b
    → (z.end_pfn ≤ a.zone.start_pfn) ⊎ (a.zone.end_pfn ≤ z.start_pfn)
    → Flagged (record { page = a.page; zone = z })
    → Flagged (record { page = b.page; zone = z })
unfolding Local
other-Flagged a b z (_, _, _, same) apart flagged =
    others-Flagged (record { page = a.page; zone = z }) b.page
      (λ p flag low high.
        let e : b.page p ≡ a.page p =
          same p (ground (arith, positive_pow (Page.order (b.page p)))) in
        (sym (ap Page.buddy e) ∙ flag, ap Page.order e))
      flagged

-- The counters of a zone play no part.
pub Sound-set_area :
    (st : Pmm) (z : ZoneId) (b : Area)
    → Sound st
    → Flagged b
    → Local (area st z) b
    → Sound (set_area st z b) × SameBounds st (set_area st z b)
unfolding area set_area Local Inside
Sound-set_area st dma32 b sound flagged local =
    let (s, e, inside, _) = local in
    let other =
      other-Flagged (area st dma32) b st.high local
        (inr (omega (arith, sound.low_end, sound.high_start))) sound.flagged_high in
    (
      record {
        flagged_low = flagged;
        flagged_high = other;
        inside_low = inside;
        inside_high = sound.inside_high;
        low_end = omega (arith, sound.low_end);
        high_start = sound.high_start;
        high_end = sound.high_end;
      },
      (s, e, refl, refl),
    )
Sound-set_area st normal b sound flagged local =
    let (s, e, inside, _) = local in
    let other =
      other-Flagged (area st normal) b st.low local
        (inl (omega (arith, sound.low_end, sound.high_start))) sound.flagged_low in
    (
      record {
        flagged_low = other;
        flagged_high = flagged;
        inside_low = sound.inside_low;
        inside_high = inside;
        low_end = sound.low_end;
        high_start = omega (arith, sound.high_start);
        high_end = omega (arith, sound.high_end);
      },
      (refl, refl, s, e),
    )

-- What the calls write into pages: none that is flagged changes its order, and none is flagged.
pub Sound-pages :
    (st : Pmm) (page : ℕ → Page) (ram : ℕ → ℕ)
    → ((p : ℕ)
        → Page.buddy (page p) ≡ true
        → (Page.buddy (st.mem_map p) ≡ true) × (Page.order (page p) ≡ Page.order (st.mem_map p)))
    → Sound st
    → Sound (record st { mem_map = page; ram = ram })
unfolding area Inside
Sound-pages st page ram kept sound = record {
  flagged_low =
      others-Flagged (area st dma32) page (λ p flag low high. kept p flag) sound.flagged_low;
  flagged_high =
      others-Flagged (area st normal) page (λ p flag low high. kept p flag) sound.flagged_high;
  inside_low = sound.inside_low;
  inside_high = sound.inside_high;
  low_end = sound.low_end;
  high_start = sound.high_start;
  high_end = sound.high_end;
}

abbrev pub with_count : Area → ℕ → Area
with_count b n = record b { zone = record b.zone { free_pages = n } }

pub counted_cover : (b : Area) (n i : ℕ) → free_cover (with_count b n) i ≡ free_cover b i
unfolding free_cover
counted_cover b n i = refl

pub pool_cover-pages :
    (st : Pmm) (page : ℕ → Page) (ram : ℕ → ℕ) (i : ℕ)
    → pool_cover (record st { mem_map = page; ram = ram }) i ≡ pool_cover st i
unfolding area free_cover
pool_cover-pages st page ram i = refl

-- A change of the cover of one zone is a change of the cover of the pool.
pub pool_cover-set_area :
    (st : Pmm) (z : ZoneId) (b : Area) (i : ℕ)
    → pool_cover (set_area st z b) i + free_cover (area st z) i ≡ pool_cover st i + free_cover b i
unfolding area set_area free_cover
pool_cover-set_area st dma32 b i = omega arith
pool_cover-set_area st normal b i = omega arith

pub Sound-set_counted :
    (st : Pmm) (z : ZoneId) (b : Area) (n : ℕ)
    → Sound st
    → Flagged b
    → Local (area st z) b
    → Sound (set_area st z (with_count b n)) × SameBounds st (set_area st z (with_count b n))
unfolding Flagged Local Inside
Sound-set_counted st z b n sound flagged local =
    Sound-set_area st z (with_count b n) sound flagged local

-- A page is written, but for its flag and its order.
pub kept_at :
    (page : ℕ → Page) (p : ℕ) (x : Page)
    → Page.buddy x ≡ Page.buddy (page p)
    → Page.order x ≡ Page.order (page p)
    → (q : ℕ) → Page.buddy (update page p x q) ≡ true
    → (Page.buddy (page q) ≡ true) × (Page.order (update page p x q) ≡ Page.order (page q))
kept_at page p x flags orders q flag = elim (Bool-cases (q == p)) [
  | inl e ↦
      let same : q ≡ p = ground arith in
      let flagged : Page.buddy x ≡ true = rw e at flag in rw (e, same) (sym flags ∙ flagged, orders)
  | inr ne ↦ let flagged : Page.buddy (page q) ≡ true = rw ne at flag in rw ne (flagged, refl)
]

-- ===== src/Pmm/Pages.antt =====
-- Any sequence of calls of the allocator, with the blocks that are in use.
use c_loyha.Base.{ℕ, zero, suc, ◌+◌, ◌-◌, ◌≡◌, ◌≢◌, inl, inr, refl, ap, ◌∙◌}
use c_loyha.Base.{subst, arith, Bool, eq_of_some}
use c_loyha.Base.{some, List, [], ◌∷◌, ◌++◌}
use c_loyha.Pmm.{Page, Pmm, update}
use c_loyha.Pmm.Calls.{alloc_pages, free_pages, get_page, put_page, put_count, counted}
use c_loyha.Pmm.Held.{held_cover, held_cover-without}
use c_loyha.Pmm.Pool.{
  Sound, pool_cover, Managed, SameBounds, Sound-pages, kept_at, pool_cover-pages,
}
use c_loyha.Pmm.Handing.{alloc_pages-Handed}
use c_loyha.Pmm.Returns.{Returned, free_pages-Returned}

-- The last reference to a page gives back the block that begins there, of the order in the page.
pub data Call : Pmm → List (ℕ × ℕ) → Pmm → List (ℕ × ℕ) → Type 0 where
  alloc :
      {st st' : Pmm} {bs : List (ℕ × ℕ)} (order p : ℕ) (gfp_zero gfp_dma32 : Bool)
      → alloc_pages st order gfp_zero gfp_dma32 ≡ some (p, st')
      → Call st bs st' ((order, p) ∷ bs)
  free :
      {st st' : Pmm} (order p : ℕ) (bs cs : List (ℕ × ℕ))
      → free_pages st p order ≡ some st'
      → Call st (bs ++ ((order, p) ∷ cs)) st' (bs ++ cs)
  get : {st : Pmm} {bs : List (ℕ × ℕ)} (p : ℕ) → Call st bs (get_page st p) bs
  put :
      {st st' : Pmm} {bs : List (ℕ × ℕ)} (p : ℕ)
      → Page.refcount (st.mem_map p) ≢ 1
      → put_page st p ≡ some st'
      → Call st bs st' bs
  put_last :
      {st st' : Pmm} (order p : ℕ) (bs cs : List (ℕ × ℕ))
      → Page.refcount (st.mem_map p) ≡ 1
      → Page.order (st.mem_map p) ≡ order
      → put_page st p ≡ some st'
      → Call st (bs ++ ((order, p) ∷ cs)) st' (bs ++ cs)

pub data Run : Pmm → List (ℕ × ℕ) → Pmm → List (ℕ × ℕ) → Type 0 where
  start : {st : Pmm} {bs : List (ℕ × ℕ)} → Run st bs st bs
  next : {a b c : Pmm} {us bs cs : List (ℕ × ℕ)} → Call a us b bs → Run b bs c cs → Run a us c cs

-- The blocks in use are blocks of the zones.
unfoldable pub AllManaged : Pmm → List (ℕ × ℕ) → Type 0
AllManaged st [] = Unit
AllManaged st ((order, p) ∷ bs) = Managed st order p × AllManaged st bs

Managed-bounds :
    (st st' : Pmm) (order p : ℕ) → SameBounds st st' → Managed st order p → Managed st' order p
Managed-bounds st st' order p (a, b, c, d) (lt, inl (low, high)) =
    (lt, inl (omega arith, omega arith))
Managed-bounds st st' order p (a, b, c, d) (lt, inr (low, high)) =
    (lt, inr (omega arith, omega arith))

AllManaged-bounds :
    (st st' : Pmm) (bs : List (ℕ × ℕ)) → SameBounds st st' → AllManaged st bs → AllManaged st' bs
unfolding AllManaged
AllManaged-bounds st st' [] same all = all
AllManaged-bounds st st' ((order, p) ∷ bs) same (this, all) =
    (Managed-bounds st st' order p same this, AllManaged-bounds st st' bs same all)

AllManaged-without :
    (st : Pmm) (bs cs : List (ℕ × ℕ)) (order p : ℕ)
    → AllManaged st (bs ++ ((order, p) ∷ cs))
    → Managed st order p × AllManaged st (bs ++ cs)
unfolding AllManaged
AllManaged-without st [] cs order p all = all
AllManaged-without st ((o, q) ∷ bs) cs order p (first, all) =
    let (this, others) = AllManaged-without st bs cs order p all in (this, (first, others))

-- What every call keeps, and how the pages are shared out after it.
abbrev pub Conserved : Pmm → List (ℕ × ℕ) → Pmm → List (ℕ × ℕ) → Type 0
Conserved st bs st' cs =
    Sound st'
    × AllManaged st' cs
    × ((i : ℕ) → pool_cover st' i + held_cover cs i ≡ pool_cover st i + held_cover bs i)

taken_back :
    (st st' : Pmm) (bs cs : List (ℕ × ℕ)) (order p : ℕ)
    → AllManaged st (bs ++ cs)
    → Returned st order p st'
    → Conserved st (bs ++ ((order, p) ∷ cs)) st' (bs ++ cs)
taken_back st st' bs cs order p all (sound, bounds, cover) = (
  sound,
  AllManaged-bounds st st' (bs ++ cs) bounds all,
  λ i. omega (arith, cover i, held_cover-without bs cs order p i),
)

counted-Conserved :
    (st : Pmm) (bs : List (ℕ × ℕ)) (p n : ℕ)
    → Sound st
    → AllManaged st bs
    → Conserved st bs (counted st p n) bs
counted-Conserved st bs p n sound all =
    let page = update st.mem_map p (record (st.mem_map p) { refcount = n }) in
    (
      Sound-pages st page st.ram
          (kept_at st.mem_map p (record (st.mem_map p) { refcount = n }) refl refl) sound,
      AllManaged-bounds st (counted st p n) bs (refl, refl, refl, refl) all,
      λ i. ap (λ (k : ℕ). k + held_cover bs i) (pool_cover-pages st page st.ram i),
    )

Conserved-trans :
    (a b c : Pmm) (us bs cs : List (ℕ × ℕ))
    → Conserved a us b bs
    → Conserved b bs c cs
    → Conserved a us c cs
Conserved-trans a b c us bs cs (_, _, same) (sound, all, same') =
    (sound, all, λ i. same' i ∙ same i)

-- `put_page`, with other references left and without.
put_count-shared :
    (st st' : Pmm) (p n : ℕ) → n ≢ 1 → put_count st p n ≡ some st' → counted st p (n - 1) ≡ st'
unfolding put_count
put_count-shared st st' p zero shared kept = absurd cc
put_count-shared st st' p (suc zero) shared kept = absurd (shared refl)
put_count-shared st st' p (suc (suc n)) shared kept =
    ap (counted st p) (omega arith) ∙ eq_of_some kept

put_page-last :
    (st st' : Pmm) (p order : ℕ)
    → Page.refcount (st.mem_map p) ≡ 1
    → Page.order (st.mem_map p) ≡ order
    → put_page st p ≡ some st'
    → free_pages (counted st p 0) p order ≡ some st'
unfolding put_page put_count
put_page-last st st' p order last eq done' =
    let freed : put_count st p 1 ≡ some st' =
      subst (λ (n : ℕ). put_count st p n ≡ some st') last done' in
    subst (λ (o : ℕ). free_pages (counted st p 0) p o ≡ some st') eq freed

Call-Conserved :
    {st st' : Pmm} {bs cs : List (ℕ × ℕ)}
    → Call st bs st' cs
    → Sound st
    → AllManaged st bs
    → Conserved st bs st' cs
unfolding AllManaged held_cover get_page put_page
Call-Conserved {st = st} {bs = bs} (alloc {st' = st'} order p gfp_zero gfp_dma32 found) sound all =
    let (sound', bounds, managed, cover) =
      alloc_pages-Handed st order gfp_zero gfp_dma32 (p, st') sound found in
    (
      sound',
      (Managed-bounds st st' order p bounds managed, AllManaged-bounds st st' bs bounds all),
      λ i. omega (arith, cover i),
    )
Call-Conserved {st = st} {st' = st'} (free order p bs cs done') sound all =
    let (managed, others) = AllManaged-without st bs cs order p all in
    taken_back st st' bs cs order p others (free_pages-Returned st order p sound managed done')
Call-Conserved {st = st} {bs = bs} (get p) sound all =
    counted-Conserved st bs p (Page.refcount (st.mem_map p) + 1) sound all
Call-Conserved {st = st} {bs = bs} (put {st' = st'} p shared done') sound all =
    subst (λ (x : Pmm). Conserved st bs x bs)
      (put_count-shared st st' p (Page.refcount (st.mem_map p)) shared done')
      (counted-Conserved st bs p (Page.refcount (st.mem_map p) - 1) sound all)
Call-Conserved {st = st} {st' = st'} (put_last order p bs cs last eq done') sound all =
    let one_less = counted-Conserved st (bs ++ ((order, p) ∷ cs)) p 0 sound all in
    let (sound', all', _) = one_less in
    let (managed, others) = AllManaged-without (counted st p 0) bs cs order p all' in
    let freed = put_page-last st st' p order last eq done' in
    Conserved-trans st (counted st p 0) st' (bs ++ ((order, p) ∷ cs)) (bs ++ ((order, p) ∷ cs))
      (bs ++ cs) one_less
      (taken_back (counted st p 0) st' bs cs order p others
        (free_pages-Returned (counted st p 0) order p sound' managed freed))

-- In every state that the calls of the allocator reach from a sound one, with blocks of the zones in
-- use, the free blocks of both zones and the blocks in use together cover a page as often as at the
-- start.
pub Run-conserves :
    {st st' : Pmm} {bs cs : List (ℕ × ℕ)}
    → Run st bs st' cs
    → Sound st
    → AllManaged st bs
    → (i : ℕ) → pool_cover st' i + held_cover cs i ≡ pool_cover st i + held_cover bs i
Run-conserves start sound all i = refl
Run-conserves (next call run) sound all i =
    let (sound', all', same) = Call-Conserved call sound all in
    Run-conserves run sound' all' i ∙ same i

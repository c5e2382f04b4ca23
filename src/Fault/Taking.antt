-- ===== src/Fault/Taking.antt =====
-- A page of the allocator becomes a page of data: what the tables and the data of the address space keep.
use c_loyha.Base.{ℕ, ◌≤◌, ◌<◌, ◌≡◌, ◌≢◌, inl, inr, refl, ap, ◌∙◌, arith}
use c_loyha.Base.{Bool, true, false, Option-cases, none, some}
use c_loyha.Pmm.{Pmm, Page}
use c_loyha.Pmm.Calls.{alloc_pages}
use c_loyha.Pmm.Pool.{Sound-pages, pool_cover, pool_cover-pages}
use c_loyha.Pmm.Handing.{alloc_pages-Handed}
use c_loyha.Vmm.{Vmm, word, index}
use c_loyha.Vmm.Tree.{Places, slot, Tree, prefix, index-lt}
use c_loyha.Vmm.Writes.{translate_same}
use c_loyha.Vmm.Space.{Space, same-Tree, not_fresh, own_page, Managed-fits}
use c_loyha.Vmm.Tables.{Grown, DataPage}

-- No page is flagged as free that was not, and the orders of those that are flagged stay.
abbrev pub FlagsKept : (ℕ → Page) → (ℕ → Page) → Type 0
FlagsKept page page' =
    (q : ℕ)
    → Page.buddy (page' q) ≡ true
    → (Page.buddy (page q) ≡ true) × (Page.order (page' q) ≡ Page.order (page q))

pub FlagsKept-trans : (a b c : ℕ → Page) → FlagsKept a b → FlagsKept b c → FlagsKept a c
FlagsKept-trans a b c first second q flag =
    let (flag', order') = second q flag in
    let (flag'', order'') = first q flag' in (flag'', order' ∙ order'')

-- Other counts of pages, and other words outside tables and data.
abbrev pub with_pages : Vmm → (ℕ → Page) → (ℕ → ℕ) → Vmm
with_pages st page ram = record st { pmm = record st.pmm { mem_map = page; ram = ram } }

pub with_pages-Space :
    (st : Vmm) (root : ℕ) (place : Places) (page : ℕ → Page) (ram : ℕ → ℕ)
    → Space st root place
    → FlagsKept st.pmm.mem_map page
    → Tree ram root place
    → Space (with_pages st page ram) root place
with_pages-Space st root place page ram space kept tree = record {
  tree = tree;
  sound = Sound-pages st.pmm page ram kept space.sound;
  once = λ i. omega (arith, pool_cover-pages st.pmm page ram i, space.once i);
  used = λ q x at. pool_cover-pages st.pmm page ram q ∙ space.used q x at;
  frames_fit = space.frames_fit;
  buddy = space.buddy;
}

-- Only the counts of pages are written.
pub counts-Grown :
    (st : Vmm) (root : ℕ) (place : Places) (page : ℕ → Page)
    → Space st root place
    → FlagsKept st.pmm.mem_map page
    → Grown st root place (with_pages st page (word st)) place
counts-Grown st root place page space kept = record {
  space = with_pages-Space st root place page (word st) space kept space.tree;
  same = λ virt. refl;
  kept = λ q x at. at;
  same_nx = refl;
  intact = λ f (nowhere, held).
      ((nowhere, pool_cover-pages st.pmm page (word st) f ∙ held), λ j less. refl);
  entries = λ q v j at less here. (at, refl);
}

-- A page is taken, and it alone is written.
module _ (st : Vmm) (root : ℕ) (place : Places) (p : ℕ) (pmm : Pmm) (gfp_zero : Bool)
    (page : ℕ → Page) (ram : ℕ → ℕ) (space : Space st root place)
    (found : alloc_pages st.pmm 0 gfp_zero false ≡ some (p, pmm))
    (flags : FlagsKept pmm.mem_map page)
    (alone : (q j : ℕ) → q ≢ p → j < 512 → ram (slot q j) ≡ word st (slot q j)) where
  abbrev after_taking : Vmm
  after_taking = record st { pmm = record pmm { mem_map = page; ram = ram } }

  pub was_free : 0 < pool_cover st.pmm p
  was_free =
      let (_, _, _, cover) =
        alloc_pages-Handed st.pmm 0 gfp_zero false (p, pmm) space.sound found in
      omega (arith, cover p, own_page p)

  cover_after :
      (i : ℕ)
      → (pool_cover (Vmm.pmm after_taking) i ≤ pool_cover st.pmm i)
        × (pool_cover (Vmm.pmm after_taking) p ≡ 0)
  cover_after i =
      let (_, _, _, cover) =
        alloc_pages-Handed st.pmm 0 gfp_zero false (p, pmm) space.sound found in
      (
        omega (arith, cover i, pool_cover-pages pmm page ram i),
        omega (arith, cover p, own_page p, space.once p, pool_cover-pages pmm page ram p),
      )

  pub taken_unplaced : place p ≡ none
  taken_unplaced = elim (Option-cases (place p)) [
    | inl nowhere ↦ nowhere
    | inr (x, at) ↦ absurd (omega (arith, space.used p x at, was_free))
  ]

  pub taken_fits : p < 0x10000000000
  taken_fits =
      let (_, _, managed, _) =
        alloc_pages-Handed st.pmm 0 gfp_zero false (p, pmm) space.sound found in
      Managed-fits st root p place space managed

  pub taken-DataPage : DataPage after_taking place p
  taken-DataPage = (taken_unplaced, (cover_after p).1)

  taking-Space : Space after_taking root place
  taking-Space =
      let (sound, (_, _, _, high), _, _) =
        alloc_pages-Handed st.pmm 0 gfp_zero false (p, pmm) space.sound found in
      record {
        tree =
            same-Tree (word st) ram root place space.tree
              (λ q j x at less. alone q j (not_fresh place p q x at taken_unplaced) less);
        sound = Sound-pages pmm page ram flags sound;
        once = λ i. omega (arith, (cover_after i).0, space.once i);
        used = λ q x at. omega (arith, (cover_after q).0, space.used q x at);
        frames_fit = omega (arith, space.frames_fit);
        buddy = space.buddy;
      }

  pub taking-Grown : Grown st root place after_taking place
  taking-Grown = record {
    space = taking-Space;
    same = λ virt.
        translate_same (word st) ram root place virt 3 root space.tree
          (λ m q at.
            alone q (index m virt) (not_fresh place p q (m, prefix m virt) at taken_unplaced)
              (index-lt m virt))
          (Tree.root_place space.tree);
    kept = λ q x at. at;
    same_nx = refl;
    intact = λ f (nowhere, held).
        let other : f ≢ p =
          λ e. absurd (omega (arith, was_free, held, ap (λ (n : ℕ). pool_cover st.pmm n) e)) in
        ((nowhere, omega (arith, (cover_after f).0)), λ j less. alone f j other less);
    entries =
        λ q v j at less here. (at, alone q j (not_fresh place p q (0, v) at taken_unplaced) less);
  }

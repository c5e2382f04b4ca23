-- ===== src/Vmm/Tables.antt =====
-- The walk that makes the tables it needs: `next_level` and `vmm_get_pte` of kernel/mm/vmm.c.
use c_loyha.Base.{ℕ, ◌*◌, ◌<◌, ◌≡◌, ◌≢◌, refl, ap, ◌∙◌, subst, arith}
use c_loyha.Base.{true, false, Option, none, some}
use c_loyha.Pmm.{Pmm, area}
use c_loyha.Pmm.Calls.{alloc_pages}
use c_loyha.Pmm.Pool.{Sound, pool_cover}
use c_loyha.Vmm.{Vmm, word, pte_present, index, translate_from}
use c_loyha.Vmm.Tree.{Places, slot, prefix, index-lt}
use c_loyha.Vmm.Writes.{translate_same}
use c_loyha.Pmm.Handing.{alloc_pages-Handed}
use c_loyha.Vmm.Space.{own_page}
use c_loyha.Vmm.Space.{Space, not_fresh, alloc_page-Fresh, alloc_page-Space}

-- A page of data: no table, and not free.
abbrev pub DataPage : Vmm → Places → ℕ → Type 0
DataPage st place f = (place f ≡ none) × (pool_cover st.pmm f ≡ 0)

-- No address is translated otherwise, data stays what it was, and the tables there were are still where they were.
pub record Grown (st : Vmm) (root : ℕ) (place : Places) (st' : Vmm) (place' : Places) : Type 0 where
  pub space : Space st' root place'
  pub same :
      (virt : ℕ)
      → translate_from 3 (word st') (root * 4096) virt
        ≡ translate_from 3 (word st) (root * 4096) virt
  pub kept : (q : ℕ) (x : ℕ × ℕ) → place q ≡ some x → place' q ≡ some x
  pub same_nx : st'.pte_nx ≡ st.pte_nx
  pub intact :
      (f : ℕ)
      → DataPage st place f
      → DataPage st' place' f × ((j : ℕ) → j < 512 → word st' (slot f j) ≡ word st (slot f j))
  pub entries :
      (q v j : ℕ)
      → place' q ≡ some (0, v)
      → j < 512
      → pte_present (word st' (slot q j)) ≡ true
      → (place q ≡ some (0, v)) × (word st' (slot q j) ≡ word st (slot q j))

abbrev pub TableAt : Option ℕ → Places → ℕ → ℕ → Type 0
TableAt got place l path =
    (t : ℕ) → got ≡ some t → (p : ℕ) × (t ≡ p * 4096) × (place p ≡ some (l, path))

-- Whatever a step returns, it has grown the space, and an address it returns is that of the table.
abbrev pub Leads : Vmm → ℕ → Places → Option ℕ × Vmm → ℕ → ℕ → Type 0
Leads st root place r l path =
    (place' : Places) × Grown st root place r.1 place' × TableAt r.0 place' l path

pub not-Grown :
    (st : Vmm) (root : ℕ) (place : Places) → Space st root place → Grown st root place st place
not-Grown st root place space = record {
  space = space;
  same = λ virt. refl;
  kept = λ q x at. at;
  same_nx = refl;
  intact = λ f is_data. (is_data, λ j less. refl);
  entries = λ q v j at less here. (at, refl);
}

pub Grown-twice :
    (st st' st'' : Vmm) (root : ℕ) (place place' place'' : Places)
    → Grown st root place st' place'
    → Grown st' root place' st'' place''
    → Grown st root place st'' place''
Grown-twice st st' st'' root place place' place'' first second = record {
  space = second.space;
  same = λ virt. second.same virt ∙ first.same virt;
  kept = λ q x at. second.kept q x (first.kept q x at);
  same_nx = second.same_nx ∙ first.same_nx;
  intact = λ f is_data.
      let (then, once) = first.intact f is_data in
      let (last, twice) = second.intact f then in (last, λ j less. twice j less ∙ once j less);
  entries = λ q v j at less here.
      let (between, kept_last) = second.entries q v j at less here in
      let (before, kept_first) =
        first.entries q v j between less (subst (λ (e : ℕ). pte_present e ≡ true) kept_last here) in
      (before, kept_last ∙ kept_first);
}

pub no_table : (place : Places) (l path : ℕ) → TableAt none place l path
no_table place l path t h = absurd cc

pub Sound-ram : (st : Pmm) (ram : ℕ → ℕ) → Sound st → Sound (record st { ram = ram })
unfolding area
Sound-ram st ram sound = record {
  flagged_low = sound.flagged_low;
  flagged_high = sound.flagged_high;
  inside_low = sound.inside_low;
  inside_high = sound.inside_high;
  low_end = sound.low_end;
  high_start = sound.high_start;
  high_end = sound.high_end;
}

pub cover_ram :
    (st : Pmm) (ram : ℕ → ℕ) (i : ℕ) → pool_cover (record st { ram = ram }) i ≡ pool_cover st i
unfolding area
cover_ram st ram i = refl

pub alloc_page_was_free :
    (st : Vmm) (root : ℕ) (place : Places) (p : ℕ) (pmm : Pmm)
    → Space st root place
    → alloc_pages st.pmm 0 true false ≡ some (p, pmm)
    → 0 < pool_cover st.pmm p
alloc_page_was_free st root place p pmm space found =
    let (_, _, _, cover) = alloc_pages-Handed st.pmm 0 true false (p, pmm) space.sound found in
    omega (arith, cover p, own_page p)

-- A page that was allocated, without a place.
pub alloc_page-Grown :
    (st : Vmm) (root : ℕ) (place : Places) (p : ℕ) (pmm : Pmm)
    → Space st root place
    → alloc_pages st.pmm 0 true false ≡ some (p, pmm)
    → Grown st root place (record st { pmm = pmm }) place
alloc_page-Grown st root place p pmm space found =
    let fresh = alloc_page-Fresh st root place p pmm space found in
    record {
      space = alloc_page-Space st root place p pmm space found;
      same = λ virt.
          translate_same (word st) pmm.ram root place virt 3 root space.tree
            (λ m q at.
              fresh.others q (index m virt)
                (not_fresh place p q (m, prefix m virt) at fresh.unplaced) (index-lt m virt))
            space.tree.root_place;
      kept = λ q x at. at;
      same_nx = refl;
      intact = λ f (nowhere, held).
          let (_, _, _, cover) =
            alloc_pages-Handed st.pmm 0 true false (p, pmm) space.sound found in
          let other : f ≢ p = λ e.
            absurd (omega (arith, cover p, own_page p, ap (λ (n : ℕ). pool_cover st.pmm n) e)) in
          ((nowhere, omega (arith, cover f)), λ j less. fresh.others f j other less);
      entries = λ q v j at less here.
          (at, fresh.others q j (not_fresh place p q (0, v) at fresh.unplaced) less);
    }

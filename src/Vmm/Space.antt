-- ===== src/Vmm/Space.antt =====
-- An address space whose tables are pages that the page allocator has handed out.
use c_loyha.Base.{
  ℕ, suc, ◌+◌, ◌*◌, ◌/◌, ◌%◌, ◌≤◌, ◌<◌, ◌≡◌, ◌≢◌, inl, inr, sym, ap, ◌∙◌, subst, arith,
}
use c_loyha.Base.{true, false, not, ◌&&◌, ◌==◌, Option-cases, none, some}
use c_loyha.Pmm.{Pmm}
use c_loyha.Pmm.Calls.{alloc_pages, zero_pages}
use c_loyha.Pmm.Blocks.{in_block}
use c_loyha.Pmm.Pool.{Sound, pool_cover, Managed}
use c_loyha.Pmm.Handing.{alloc_pages-Handed}
use c_loyha.Pmm.Zeroing.{ram-alloc_pages}
use c_loyha.Vmm.{Vmm, word, pte_present, pte_huge}
use c_loyha.Vmm.Tree.{Places, slot, Tree, frame}

pub record Space (st : Vmm) (root : ℕ) (place : Places) : Type 0 where
  pub tree : Tree (word st) root place
  pub sound : Sound st.pmm
  pub once : (i : ℕ) → pool_cover st.pmm i ≤ 1
  pub used : (q : ℕ) (x : ℕ × ℕ) → place q ≡ some x → pool_cover st.pmm q ≡ 0
  pub frames_fit : st.pmm.high.end_pfn ≤ 0x10000000000
  pub buddy : st.use_buddy ≡ true

-- A page that is allocated belonged to no table, and is all zeros.
pub record Fresh (st : Vmm) (place : Places) (p : ℕ) (pmm : Pmm) : Type 0 where
  pub unplaced : place p ≡ none
  pub small : p < 0x10000000000
  pub zeros : (j : ℕ) → j < 512 → pmm.ram (slot p j) ≡ 0
  pub others : (q j : ℕ) → q ≢ p → j < 512 → pmm.ram (slot q j) ≡ word st (slot q j)
  pub taken : pool_cover pmm p ≡ 0

-- A tree in another memory with the same tables.
pub same-Tree :
    (ram ram' : ℕ → ℕ) (root : ℕ) (place : Places)
    → Tree ram root place
    → ((q j : ℕ) (x : ℕ × ℕ) → place q ≡ some x → j < 512 → ram' (slot q j) ≡ ram (slot q j))
    → Tree ram' root place
same-Tree ram ram' root place tree same = record {
  root_place = tree.root_place;
  low = tree.low;
  unique = tree.unique;
  child = λ p l u j above less.
      subst
        (λ (e : ℕ).
          pte_present e ≡ true
          → (pte_huge e && not (suc l == 3)) ≡ false
          → place (frame e) ≡ some (l, u * 512 + j))
        (sym (same p j (suc l, u) above less)) (tree.child p l u j above less);
  parent = λ p l u here less.
      let (p', above, present, small, down) = tree.parent p l u here less in
      let keep = sym (same p' (u % 512) (suc l, u / 512) above (omega arith)) in
      (
        p',
        above,
        subst (λ (e : ℕ). pte_present e ≡ true) keep present,
        subst (λ (e : ℕ). pte_huge e ≡ false) keep small,
        subst (λ (e : ℕ). frame e ≡ p) keep down,
      );
}

pub not_fresh : (place : Places) (p q : ℕ) (x : ℕ × ℕ) → place q ≡ some x → place p ≡ none → q ≢ p
not_fresh place p q x at nowhere e =
    let nothing : none ≡ some x = sym nowhere ∙ ap place (sym e) ∙ at in cc

pub own_page : (p : ℕ) → in_block 0 p p ≡ 1
own_page p = ground arith

pub Managed-fits :
    (st : Vmm) (root p : ℕ) (place : Places)
    → Space st root place
    → Managed st.pmm 0 p
    → p < 0x10000000000
Managed-fits st root p place space (_, inl (low, high)) = omega (arith, Sound.low_end space.sound)
Managed-fits st root p place space (_, inr (low, high)) = omega (arith, space.frames_fit)

pub alloc_page-Fresh :
    (st : Vmm) (root : ℕ) (place : Places) (p : ℕ) (pmm : Pmm)
    → Space st root place
    → alloc_pages st.pmm 0 true false ≡ some (p, pmm)
    → Fresh st place p pmm
alloc_page-Fresh st root place p pmm space found =
    let (sound, bounds, managed, cover) =
      alloc_pages-Handed st.pmm 0 true false (p, pmm) space.sound found in
    let zeroed : pmm.ram ≡ zero_pages (word st) p 0 =
      ram-alloc_pages st.pmm 0 true false (p, pmm) found in
    record {
      unplaced = elim (Option-cases (place p)) [
        | inl nowhere ↦ nowhere
        | inr (x, at) ↦ absurd (omega (arith, space.used p x at, cover p, own_page p))
      ];
      small = Managed-fits st root p place space managed;
      zeros = λ j less. ap (λ (ram : ℕ → ℕ). ram (slot p j)) zeroed ∙ ground arith;
      others = λ q j ne less. ap (λ (ram : ℕ → ℕ). ram (slot q j)) zeroed ∙ ground arith;
      taken = omega (arith, space.once p, cover p, own_page p);
    }

-- The space without the new page in it.
pub alloc_page-Space :
    (st : Vmm) (root : ℕ) (place : Places) (p : ℕ) (pmm : Pmm)
    → Space st root place
    → alloc_pages st.pmm 0 true false ≡ some (p, pmm)
    → Space (record st { pmm = pmm }) root place
alloc_page-Space st root place p pmm space found =
    let (sound, (_, _, _, high), managed, cover) =
      alloc_pages-Handed st.pmm 0 true false (p, pmm) space.sound found in
    let fresh = alloc_page-Fresh st root place p pmm space found in
    record {
      tree =
          same-Tree (word st) pmm.ram root place space.tree
            (λ q j x at less. fresh.others q j (not_fresh place p q x at fresh.unplaced) less);
      sound = sound;
      once = λ i. omega (arith, space.once i, cover i);
      used = λ q x at. omega (arith, space.used q x at, cover q);
      frames_fit = omega (arith, space.frames_fit);
      buddy = space.buddy;
    }

-- ===== src/Vmm/Creating.antt =====
-- `vmm_create_address_space` of kernel/mm/vmm.c: a table with the upper half of the kernel's.
use c_loyha.Base.{
  ℕ, suc, ◌+◌, ◌-◌, ◌*◌, ◌≤◌, ◌<◌, ◌≡◌, ◌≢◌, ◌⊎◌, inl, inr, refl, sym, ap, ◌∙◌, arith,
}
use c_loyha.Base.{
  true, false, not, ◌&&◌, ◌==◌, leb, ltb, if◌then◌else◌, Bool-cases, Option-cases, none, some,
  eq_of_some,
}
use c_loyha.Vma.{page_size}
use c_loyha.Pmm.{Pmm}
use c_loyha.Pmm.Calls.{alloc_pages, pmm_alloc_page}
use c_loyha.Vmm.{
  Vmm, word, set_ram, pte_present, pte_huge, pte_addr, index, is_user_address, translate_from,
  vmm_translate,
}
use c_loyha.Vmm.Tree.{
  Places, slot, Tree, frame, prefix, prefix_step, index-lt, translate_absent, translate_step,
}
use c_loyha.Vmm.Writes.{translate_same}
use c_loyha.Vmm.Space.{Space, Fresh, not_fresh, alloc_page-Fresh}

-- `memcpy(table_virt(pml4) + 256, table_virt(kernel_pml4) + 256, 256 * sizeof(uint64_t))`
abbrev pub copy_upper : (ℕ → ℕ) → ℕ → ℕ → ℕ → ℕ
copy_upper ram to from a =
    if leb (to + 2048) a && ltb a (to + 4096) then ram (from + (a - to)) else ram a

-- The address of the new table, or 0.
unfoldable pub vmm_create_address_space : Vmm → ℕ × Vmm
vmm_create_address_space st = elim (pmm_alloc_page st.pmm true false) [
  | none ↦ (0, st)
  | some (t, pmm) ↦
      let st' = record st { pmm = pmm } in
      if t == 0
      then (0, st')
      else (t, set_ram st' (copy_upper pmm.ram (pte_addr t) (pte_addr st.kernel_pml4)))
]

-- Programs have no address in the new space, and the kernel has those that it had; in the space of the
-- kernel nothing changes.
unfoldable pub Created : Vmm → ℕ × Vmm → Type 0
Created st r =
    ((v : ℕ) → is_user_address v ≡ true → vmm_translate r.1 r.0 v ≡ none)
    × ((v : ℕ) → 256 ≤ index 3 v → vmm_translate r.1 r.0 v ≡ vmm_translate st st.kernel_pml4 v)
    × ((v : ℕ) → vmm_translate r.1 st.kernel_pml4 v ≡ vmm_translate st st.kernel_pml4 v)

-- The entries of the highest level are always tables.
top_is_table : (e : ℕ) → (pte_huge e && not (suc 2 == 3)) ≡ false
top_is_table e = elim (Bool-cases (pte_huge e)) [ inl h ↦ rw h refl | inr h ↦ rw h refl ]

module _ (st : Vmm) (root : ℕ) (place : Places) (p : ℕ) (pmm : Pmm) (space : Space st root place)
    (fits : root < 0x10000000000) (kernel : st.kernel_pml4 ≡ root * 4096)
    (found : alloc_pages st.pmm 0 true false ≡ some (p, pmm)) where
  abbrev ram' : ℕ → ℕ
  ram' = copy_upper pmm.ram (p * 4096) (root * 4096)

  fresh : Fresh st place p pmm
  fresh = alloc_page-Fresh st root place p pmm space found

  others : (q j : ℕ) (x : ℕ × ℕ) → place q ≡ some x → j < 512 → ram' (slot q j) ≡ word st (slot q j)
  others q j x at less =
      let ne : q ≢ p = not_fresh place p q x at fresh.unplaced in
      let outside : ram' (slot q j) ≡ pmm.ram (slot q j) = ground arith in
      outside ∙ fresh.others q j ne less

  lower : (j : ℕ) → j < 256 → ram' (slot p j) ≡ 0
  lower j less =
      let outside : ram' (slot p j) ≡ pmm.ram (slot p j) = ground arith in
      outside ∙ fresh.zeros j (omega arith)

  upper : (j : ℕ) → 256 ≤ j → j < 512 → ram' (slot p j) ≡ word st (slot root j)
  upper j from less =
      let inside : ram' (slot p j) ≡ pmm.ram (root * 4096 + (slot p j - p * 4096)) = ground arith in
      let ne : root ≢ p =
        not_fresh place p root (3, 0) (Tree.root_place space.tree) fresh.unplaced in
      inside ∙ ap pmm.ram (omega arith) ∙ fresh.others root j ne less

  same_below :
      (l q virt : ℕ)
      → place q ≡ some (l, prefix l virt)
      → translate_from l ram' (q * 4096) virt ≡ translate_from l (word st) (q * 4096) virt
  same_below l q virt at =
      translate_same (word st) ram' root place virt l q space.tree
        (λ m r there. others r (index m virt) (m, prefix m virt) there (index-lt m virt)) at

  no_program : (v : ℕ) → is_user_address v ≡ true → translate_from 3 ram' (p * 4096) v ≡ none
  no_program v low =
      let below : index 3 v < 256 = ground arith in
      translate_absent ram' 3 (p * 4096) v
        (ap (λ (e : ℕ). pte_present e) (lower (index 3 v) below) ∙ refl)

  of_kernel :
      (v : ℕ)
      → 256 ≤ index 3 v
      → translate_from 3 ram' (p * 4096) v ≡ translate_from 3 (word st) (root * 4096) v
  of_kernel v high =
      let e = word st (slot root (index 3 v)) in
      let entry : ram' (slot p (index 3 v)) ≡ e = upper (index 3 v) high (index-lt 3 v) in
      elim (Bool-cases (pte_present e)) [
        | inr absent ↦
            translate_absent ram' 3 (p * 4096) v (ap (λ (x : ℕ). pte_present x) entry ∙ absent)
            ∙ sym (translate_absent (word st) 3 (root * 4096) v absent)
        | inl here ↦
            let next : place (frame e) ≡ some (2, prefix 2 v) =
              Tree.child space.tree root 2 0 (index 3 v) (Tree.root_place space.tree) (index-lt 3 v)
                here (top_is_table e)
              ∙ ap (λ (x : ℕ). some (2, x)) (sym (prefix_step 2 v (omega arith))) in
            translate_step ram' 2 (p * 4096) v (frame e)
              (ap (λ (x : ℕ). pte_present x) entry ∙ here)
              (top_is_table (ram' (slot p (index 3 v)))) (ap (λ (x : ℕ). frame x) entry)
            ∙ same_below 2 (frame e) v next
            ∙ sym (translate_step (word st) 2 (root * 4096) v (frame e) here (top_is_table e) refl)
      ]

  pub made-Created : Created st (p * 4096, set_ram (record st { pmm = pmm }) ram')
  unfolding Created vmm_translate
  made-Created =
      let start : pte_addr (p * 4096) ≡ p * 4096 = omega (arith, fresh.small) in
      let begin : pte_addr st.kernel_pml4 ≡ root * 4096 = omega (arith, kernel) in
      (
        λ v low. ap (λ (t : ℕ). translate_from 3 ram' t v) start ∙ no_program v low,
        λ v high.
            ap (λ (t : ℕ). translate_from 3 ram' t v) start
            ∙ of_kernel v high
            ∙ ap (λ (t : ℕ). translate_from 3 (word st) t v) (sym begin),
        λ v.
            ap (λ (t : ℕ). translate_from 3 ram' t v) begin
            ∙ same_below 3 root v (Tree.root_place space.tree)
            ∙ ap (λ (t : ℕ). translate_from 3 (word st) t v) (sym begin),
      )

-- Next to the address space of the kernel, whose tables are pages of the allocator, a new address
-- space translates no address of programs, and the addresses of the upper half as the kernel does; the
-- kernel keeps all of its own; the call returns 0 only without memory, or for the page 0.
pub vmm_create_address_space-Created :
    (st : Vmm) (root : ℕ) (place : Places)
    → Space st root place
    → root < 0x10000000000
    → st.kernel_pml4 ≡ root * 4096
    → (((vmm_create_address_space st).0 ≡ 0)
        × ((p : ℕ) (pmm : Pmm) → alloc_pages st.pmm 0 true false ≡ some (p, pmm) → p ≡ 0))
      ⊎ Created st (vmm_create_address_space st)
unfolding vmm_create_address_space pmm_alloc_page
vmm_create_address_space-Created st root place space fits kernel =
    elim (Option-cases (alloc_pages st.pmm 0 true false)) [
      | inl nothing ↦
          rw (vmm_create_address_space, pmm_alloc_page, nothing)
            (inl (refl, λ p pmm got. absurd cc))
      | inr ((p, pmm), found) ↦ elim (Bool-cases (p * page_size == 0)) [
        | inl null ↦
            rw (vmm_create_address_space, pmm_alloc_page, found, null)
              (inl (
                refl,
                λ q pmm' got.
                    let same : p ≡ q = ap (λ (x : ℕ × Pmm). x.0) (eq_of_some got) in ground arith,
              ))
        | inr fine ↦
            let start : pte_addr (p * page_size) ≡ p * 4096 =
              omega (arith, Fresh.small (alloc_page-Fresh st root place p pmm space found)) in
            let begin : pte_addr st.kernel_pml4 ≡ root * 4096 = omega (arith, kernel) in
            rw (vmm_create_address_space, pmm_alloc_page, found, fine, start, begin)
              (inr (made-Created st root place p pmm space fits kernel found))
      ]
    ]

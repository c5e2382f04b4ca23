-- ===== src/Vmm/Links.antt =====
-- A page that was allocated becomes a table of the address space: `next_level` of kernel/mm/vmm.c.
use c_loyha.Base.{ℕ, suc, ◌+◌, ◌*◌, ◌<◌, ◌≡◌, ◌≢◌, refl, sym, ap, ◌∙◌, subst, arith}
use c_loyha.Base.{Bool, true, false, Option, some, eq_of_some, inl, inr}
use native.Mathlib.Decide.{ℕ_discrete}
use c_loyha.Pmm.{Pmm, update}
use c_loyha.Pmm.Calls.{alloc_pages}
use c_loyha.Pmm.Pool.{pool_cover}
use c_loyha.Vmm.{Vmm, word, set_word, write_at, pte_present, pte_addr, table_entry}
use c_loyha.Vmm.Entries.{table_entry_lem}
use c_loyha.Vmm.Tree.{Places, slot, frame}
use c_loyha.Vmm.Linking.{link-Tree, link-translate}
use c_loyha.Vmm.Writes.{write_other, slot_cases, level_eq}
use c_loyha.Vmm.Space.{Space, Fresh, not_fresh, alloc_page-Fresh, alloc_page-Space}
use c_loyha.Vmm.Tables.{
  Grown, DataPage, Leads, alloc_page-Grown, alloc_page_was_free, Sound-ram, cover_ram,
}

-- The page is linked into the tree.
module _ (st : Vmm) (root : ℕ) (place : Places) (q l v i p : ℕ) (pmm : Pmm) (user : Bool)
    (space : Space st root place) (at : place q ≡ some (suc l, v)) (lt : i < 512)
    (absent : pte_present (word st (slot q i)) ≡ false)
    (found : alloc_pages st.pmm 0 true false ≡ some (p, pmm)) where
  abbrev taken : Vmm
  taken = record st { pmm = pmm }

  fresh : Fresh st place p pmm
  fresh = alloc_page-Fresh st root place p pmm space found

  unlinked : Space taken root place
  unlinked = alloc_page-Space st root place p pmm space found

  still_absent : pte_present (pmm.ram (slot q i)) ≡ false
  still_absent =
      ap (λ (e : ℕ). pte_present e)
        (fresh.others q i (not_fresh place p q (suc l, v) at fresh.unplaced) lt)
      ∙ absent

  abbrev with_new : Places
  with_new = update place p (some (l, v * 512 + i))

  zeros_absent : (j : ℕ) → j < 512 → pte_present (pmm.ram (slot p j)) ≡ false
  zeros_absent j less = rw (fresh.zeros j less) refl

  leads_there : frame (table_entry (p * 4096) user) ≡ p
  leads_there = omega (arith, (table_entry_lem p user fresh.small).0)

  linked_used : (q' : ℕ) (x : ℕ × ℕ) → with_new q' ≡ some x → pool_cover pmm q' ≡ 0
  linked_used q' x here = elim (ℕ_discrete q' p) [
    | yes e ↦ subst (λ (n : ℕ). pool_cover pmm n ≡ 0) (sym e) fresh.taken
    | no ne ↦
        let old : with_new q' ≡ place q' = ground arith in Space.used unlinked q' x (sym old ∙ here)
  ]

  linked_kept : (q' : ℕ) (x : ℕ × ℕ) → place q' ≡ some x → with_new q' ≡ some x
  linked_kept q' x here =
      let ne : q' ≢ p = not_fresh place p q' x here fresh.unplaced in
      let old : with_new q' ≡ place q' = ground arith in old ∙ here

  abbrev after_link : Vmm
  after_link = set_word taken (slot q i) (table_entry (p * 4096) user)

  allocated : Grown st root place taken place
  allocated = alloc_page-Grown st root place p pmm space found

  link_data :
      (f : ℕ)
      → DataPage st place f
      → DataPage after_link with_new f
        × ((j : ℕ) → j < 512 → word after_link (slot f j) ≡ word st (slot f j))
  link_data f is_data =
      let ((nowhere, held), same) = allocated.intact f is_data in
      let w = table_entry (p * 4096) user in
      let other : f ≢ p = λ e. absurd (
        omega (
          arith,
          alloc_page_was_free st root place p pmm space found,
          is_data.1,
          ap (λ (n : ℕ). pool_cover st.pmm n) e,
        )) in
      let above : q ≢ f = not_fresh place f q (suc l, v) at nowhere in
      let old : with_new f ≡ place f = ground arith in
      (
        (old ∙ nowhere, cover_ram pmm (write_at pmm.ram (slot q i) w) f ∙ held),
        λ j less. elim (slot_cases q i f j lt less) [
          | inl (e, _) ↦ absurd (above (sym e))
          | inr ne ↦ write_other pmm.ram (slot q i) w (slot f j) ne ∙ same j less
        ],
      )

  not_the_link : (q' u j : ℕ) → with_new q' ≡ some (0, u) → j < 512 → slot q' j ≢ slot q i
  not_the_link q' u j there less = elim (slot_cases q i q' j lt less) [
    | inl (e, _) ↦
        let there_too : ◌≡◌ {A = Option (ℕ × ℕ)} (some (suc l, v)) (some (0, u)) =
          sym (linked_kept q (suc l, v) at) ∙ ap with_new (sym e) ∙ there in
        let levels : suc l ≡ 0 = level_eq there_too in absurd (omega arith)
    | inr ne ↦ ne
  ]

  link_entries :
      (q' u j : ℕ)
      → with_new q' ≡ some (0, u)
      → j < 512
      → pte_present (word after_link (slot q' j)) ≡ true
      → (place q' ≡ some (0, u)) × (word after_link (slot q' j) ≡ word st (slot q' j))
  link_entries q' u j there less here =
      let w = table_entry (p * 4096) user in
      let not_linked = not_the_link q' u j there less in
      let unwritten : word after_link (slot q' j) ≡ pmm.ram (slot q' j) =
        write_other pmm.ram (slot q i) w (slot q' j) not_linked in
      elim (ℕ_discrete q' p) [
        | yes e ↦
            let zero_word : word after_link (slot q' j) ≡ 0 =
              unwritten ∙ ap (λ (n : ℕ). pmm.ram (slot n j)) e ∙ fresh.zeros j less in
            let clash : false ≡ true = sym (ap (λ (x : ℕ). pte_present x) zero_word) ∙ here in
            absurd cc
        | no ne ↦
            let old : with_new q' ≡ place q' = ground arith in
            (sym old ∙ there, unwritten ∙ fresh.others q' j ne less)
      ]

  link-Grown :
      Grown st root place (set_word taken (slot q i) (table_entry (p * 4096) user)) with_new
  link-Grown =
      let (_, present, small) = table_entry_lem p user fresh.small in
      let ram' = write_at pmm.ram (slot q i) (table_entry (p * 4096) user) in
      record {
        space = record {
          tree =
              link-Tree pmm.ram root place q i l v p (table_entry (p * 4096) user)
                (Space.tree unlinked) at lt still_absent fresh.unplaced zeros_absent present small
                leads_there;
          sound = Sound-ram pmm ram' (Space.sound unlinked);
          once = λ n. omega (arith, cover_ram pmm ram' n, Space.once unlinked n);
          used = λ q' x here. cover_ram pmm ram' q' ∙ linked_used q' x here;
          frames_fit = Space.frames_fit unlinked;
          buddy = Space.buddy unlinked;
        };
        same = λ virt.
            link-translate pmm.ram root place q i l v p (table_entry (p * 4096) user)
              (Space.tree unlinked) at lt still_absent fresh.unplaced zeros_absent present small
              leads_there virt
            ∙ Grown.same (alloc_page-Grown st root place p pmm space found) virt;
        kept = linked_kept;
        same_nx = refl;
        intact = link_data;
        entries = link_entries;
      }

  new_at : with_new p ≡ some (l, v * 512 + i)
  new_at = ground arith

  pub link-Leads :
      Leads st root place
        (some (pte_addr (p * 4096)), set_word taken (slot q i) (table_entry (p * 4096) user))
        l
        (v * 512 + i)
  link-Leads =
      (with_new, link-Grown, λ t h. (p, sym (eq_of_some h) ∙ omega (arith, fresh.small), new_at))

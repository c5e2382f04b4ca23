-- ===== src/Vmm/Changes.antt =====
-- `vmm_unmap_page` and `vmm_update_flags` of kernel/mm/vmm.c, and an unmap after a map.
use c_loyha.Base.{
  ℕ, ◌+◌, ◌*◌, ◌%◌, ◌<◌, ◌≡◌, ◌⊎◌, inl, inr, refl, sym, ap, ◌∙◌, subst, arith, List, ◌∷◌,
}
use c_loyha.Base.{
  Bool, true, false, not, ◌||◌, ◌==◌, Bool-cases, Option-cases, Option, none, some, eq_of_some,
}
use native.Mathlib.Decide.{ℕ_discrete}
use c_loyha.Vma.{page_size}
use c_loyha.Vmm.{
  Vmm, word, set_word, pte_present, pte_addr, pte_flags, index, vmm_get_pte, is_user_address,
  vmm_translate, vmm_flush_page, flush_if_seen, MapResult, mapped, leaf_entry, vmm_map_page,
  vmm_unmap_page, vmm_update_flags,
}
use c_loyha.Vmm.Tree.{Places, slot, prefix, frame}
use c_loyha.Vmm.Space.{Space}
use c_loyha.Vmm.Tables.{Grown}
use c_loyha.Vmm.Walk.{vmm_get_pte-EntryOf, vmm_get_pte_look}
use c_loyha.Vmm.Finding.{vmm_get_pte_finds}
use c_loyha.Vmm.Mapping.{
  page_of, set_entry-Space, set_entry-Rewritten, translate_entry, flush_if_seen-Space,
  flush-Rewritten,
}
use c_loyha.Vmm.Pages.{PageEntry, MapsPage, ClearsPage, Rewritten-MapsPage, Rewritten-ClearsPage}
use c_loyha.Vmm.Pages.{MapDone, vmm_map_page-MapDone}

-- The page left the translation caches, where the space is the one in use or the page is the kernel's.
abbrev pub Flushes : Vmm → ℕ → ℕ → Vmm → Type 0
Flushes st pml4 virt st' =
    ((pml4 == st.cr3) || not (is_user_address virt)) ≡ true → st'.flushed ≡ virt ∷ st.flushed

-- What `vmm_unmap_page` comes to: a page was mapped to the frame that is returned, and is gone; or no last
-- table mapped it.
unfoldable pub UnmapDone : Vmm → ℕ → Places → ℕ → ℕ × Vmm → Type 0
UnmapDone st root place virt r =
    (((flags : ℕ) × (vmm_translate st (root * 4096) virt ≡ some (r.0 + virt % page_size, flags)))
      × ClearsPage st (root * 4096) virt r.1
      × Flushes st (root * 4096) virt r.1
      × ((place' : Places) × Space r.1 root place'))
    ⊎ ((r ≡ (0, st)) × ¬ PageEntry st place virt)

-- What `vmm_update_flags` comes to: the page keeps its frame and has the flags; or no last table mapped it.
unfoldable pub UpdateDone : Vmm → ℕ → Places → ℕ → ℕ → Bool × Vmm → Type 0
UpdateDone st root place virt flags r =
    ((r.0 ≡ true)
      × ((phys : ℕ) × ((old : ℕ) × (vmm_translate st (root * 4096) virt
              ≡ some (phys + virt % page_size, old)))
          × MapsPage st (root * 4096) virt phys flags r.1)
      × Flushes st (root * 4096) virt r.1
      × ((place' : Places) × Space r.1 root place'))
    ⊎ ((r ≡ (false, st)) × ¬ PageEntry st place virt)

flushes :
    (st st' : Vmm) (pml4 virt : ℕ)
    → st'.cr3 ≡ st.cr3
    → st'.flushed ≡ st.flushed
    → Flushes st pml4 virt (flush_if_seen st' pml4 virt)
unfolding vmm_flush_page
flushes st st' pml4 virt same_cr3 same seen =
    let seen' : ((pml4 == st'.cr3) || not (is_user_address virt)) ≡ true =
      ap (λ (c : ℕ). (pml4 == c) || not (is_user_address virt)) same_cr3 ∙ seen in
    rw seen' (ap (λ (l : List ℕ). virt ∷ l) same)

module _ (st : Vmm) (root : ℕ) (place : Places) (virt : ℕ) (space : Space st root place)
    (fits : root < 0x10000000000) where
  abbrev got : Option ℕ
  got = (vmm_get_pte st (root * 4096) virt false).0

  -- Only looked for, the entry is found in the tables that there were.
  looked :
      (place1 : Places) × Space st root place1
      × ((a : ℕ)
          → got ≡ some a
          → (q : ℕ) × (a ≡ slot q (index 0 virt)) × (place1 q ≡ some (0, prefix 0 virt)))
  looked =
      let (place1, grown, entry) = vmm_get_pte-EntryOf st root place virt false space fits in
      (
        place1,
        subst (λ (s : Vmm). Space s root place1) (vmm_get_pte_look st (root * 4096) virt)
            (Grown.space grown),
        entry,
      )

  -- An entry that maps the page would have been found.
  entry_found :
      PageEntry st place virt → (a : ℕ) × (got ≡ some a) × (pte_present (word st a) ≡ true)
  entry_found (q, at, here) = (
    slot q (index 0 virt),
    ap (λ (r : Option ℕ × Vmm). r.0)
        (vmm_get_pte_finds st root place virt q false space.tree fits at),
    here,
  )

  not_there : got ≡ none → ¬ PageEntry st place virt
  not_there nothing entry =
      let (a, found, here) = entry_found entry in
      let clash : none ≡ some a = sym nothing ∙ found in absurd cc

  not_present : (a : ℕ) → got ≡ some a → pte_present (word st a) ≡ false → ¬ PageEntry st place virt
  not_present a found absent entry =
      let (b, found', here) = entry_found entry in
      let same : a ≡ b = eq_of_some (sym found ∙ found') in
      let clash : true ≡ false =
        sym here ∙ ap (λ (x : ℕ). pte_present (word st x)) (sym same) ∙ absent in
      absurd cc

  shown :
      (place1 : Places) (q : ℕ)
      → Space st root place1
      → place1 q ≡ some (0, prefix 0 virt)
      → pte_present (word st (slot q (index 0 virt))) ≡ true
      → vmm_translate st (root * 4096) virt
        ≡ some (
          pte_addr (word st (slot q (index 0 virt))) + virt % page_size,
          pte_flags (word st (slot q (index 0 virt))),
        )
  shown place1 q space1 at here =
      translate_entry st root place1 q virt 0 space1 fits at ∙ rw here refl

  -- In such an address space `vmm_unmap_page` returns the frame of a page that a last table maps,
  -- takes just that page out of the translation, and flushes it where the space is in use or the page
  -- is of the kernel; else it returns 0 and changes nothing.
  pub vmm_unmap_page-UnmapDone : UnmapDone st root place virt (vmm_unmap_page st (root * 4096) virt)
  unfolding vmm_unmap_page UnmapDone
  vmm_unmap_page-UnmapDone =
      let (place1, space1, entry) = looked in
      elim (Option-cases got) [
        | inl nothing ↦ rw (vmm_unmap_page, nothing) (inr (refl, not_there nothing))
        | inr (a, found) ↦
            let (q, a_is, at) = entry a found in
            elim (Bool-cases (pte_present (word st (slot q (index 0 virt))))) [
              | inl here ↦
                  let st2 = set_word st (slot q (index 0 virt)) 0 in
                  rw (vmm_unmap_page, found, a_is, here)
                    (inl (
                      (pte_flags (word st (slot q (index 0 virt))), shown place1 q space1 at here),
                      Rewritten-ClearsPage st (root * 4096) virt
                          (flush_if_seen st2 (root * 4096) virt)
                          (flush-Rewritten st st2 (root * 4096) virt 0
                            (set_entry-Rewritten st root place1 q virt 0 space1 fits at)),
                      flushes st st2 (root * 4096) virt refl refl,
                      (
                        place1,
                        flush_if_seen-Space st2 root place1 (root * 4096) virt
                            (set_entry-Space st root place1 q virt 0 space1 fits at),
                      ),
                    ))
              | inr free ↦
                  rw (vmm_unmap_page, found, a_is, free)
                    (inr (
                      refl,
                      not_present a found (ap (λ (x : ℕ). pte_present (word st x)) a_is ∙ free),
                    ))
            ]
      ]

  updated :
      (place1 : Places) (q flags : ℕ)
      → Space st root place1
      → place1 q ≡ some (0, prefix 0 virt)
      → pte_present (word st (slot q (index 0 virt))) ≡ true
      → UpdateDone st root place virt flags (
        true,
        flush_if_seen
            (set_word st
              (slot q (index 0 virt))
              (leaf_entry (pte_addr (word st (slot q (index 0 virt)))) flags))
            (root * 4096)
            virt,
      )
  unfolding UpdateDone
  updated place1 q flags space1 at here =
      let e = word st (slot q (index 0 virt)) in
      let w = leaf_entry (frame e * 4096) flags in
      let st2 = set_word st (slot q (index 0 virt)) w in
      inl (
        refl,
        (
          frame e * 4096,
          (pte_flags e, shown place1 q space1 at here),
          Rewritten-MapsPage st (root * 4096) virt (frame e) flags
              (flush_if_seen st2 (root * 4096) virt) (omega arith)
              (flush-Rewritten st st2 (root * 4096) virt w
                (set_entry-Rewritten st root place1 q virt w space1 fits at)),
        ),
        flushes st st2 (root * 4096) virt refl refl,
        (
          place1,
          flush_if_seen-Space st2 root place1 (root * 4096) virt
              (set_entry-Space st root place1 q virt w space1 fits at),
        ),
      )

  pub vmm_update_flags-UpdateDone :
      (flags : ℕ)
      → UpdateDone st root place virt flags (vmm_update_flags st (root * 4096) virt flags)
  unfolding vmm_update_flags UpdateDone
  vmm_update_flags-UpdateDone flags =
      let (place1, space1, entry) = looked in
      elim (Option-cases got) [
        | inl nothing ↦ rw (vmm_update_flags, nothing) (inr (refl, not_there nothing))
        | inr (a, found) ↦
            let (q, a_is, at) = entry a found in
            elim (Bool-cases (pte_present (word st (slot q (index 0 virt))))) [
              | inl here ↦
                  rw (vmm_update_flags, found, a_is, here) (updated place1 q flags space1 at here)
              | inr free ↦
                  rw (vmm_update_flags, found, a_is, free)
                    (inr (
                      refl,
                      not_present a found (ap (λ (x : ℕ). pte_present (word st x)) a_is ∙ free),
                    ))
            ]
      ]

-- A page that was mapped is unmapped again.
module _ (st : Vmm) (root : ℕ) (place : Places) (virt p flags : ℕ) (st' : Vmm)
    (space : Space st root place) (fits : root < 0x10000000000) (frame_fits : p < 0x10000000000)
    (done : vmm_map_page st (root * 4096) virt (p * 4096) flags ≡ mapped st') where
  after_map : MapDone st root place virt (p * 4096) flags (mapped st')
  after_map =
      subst (λ (r : MapResult). MapDone st root place virt (p * 4096) flags r) done
        (vmm_map_page-MapDone st root place virt p flags space fits frame_fits)

  back :
      (a : ℕ) (st'' : Vmm)
      → ClearsPage st' (root * 4096) virt st''
      → vmm_translate st'' (root * 4096) a ≡ vmm_translate st (root * 4096) a
  unfolding MapDone MapsPage ClearsPage vmm_translate
  back a st'' (inside, outside) =
      let (free, (_, others), _) = after_map in
      elim (ℕ_discrete (page_of a) (page_of virt)) [
        | yes same ↦ inside a same ∙ sym (free a same)
        | no other ↦ outside a other ∙ others a other
      ]

  -- A page that `vmm_map_page` has mapped in such an address space is given back by `vmm_unmap_page`,
  -- which returns its frame, and every address is translated as before the two calls.
  pub unmap_after_map :
      ((vmm_unmap_page st' (root * 4096) virt).0 ≡ p * 4096)
      × ((a : ℕ)
          → vmm_translate (vmm_unmap_page st' (root * 4096) virt).1 (root * 4096) a
            ≡ vmm_translate st (root * 4096) a)
  unfolding MapDone MapsPage UnmapDone
  unmap_after_map =
      let (free, (inside, others), (place', space', entry)) = after_map in
      elim (vmm_unmap_page-UnmapDone st' root place' virt space' fits) [
        | inl ((old, was), clears, _, _) ↦
            let frames = eq_of_some (sym was ∙ inside virt refl) in
            (
              omega (arith, ap (λ (x : ℕ × ℕ). x.0) frames),
              λ a. back a (vmm_unmap_page st' (root * 4096) virt).1 clears,
            )
        | inr (_, absent) ↦ absurd (absent entry)
      ]

-- ===== src/Vmm/Pages.antt =====
-- `vmm_map_page`, `vmm_unmap_page` and `vmm_update_flags` of kernel/mm/vmm.c: what each call does to the
-- address space.
use c_loyha.Base.{ℕ, ◌+◌, ◌*◌, ◌%◌, ◌<◌, ◌≡◌, ◌≢◌, ◌⊎◌, inl, inr, refl, sym, ap, ◌∙◌, arith, bit_or}
use c_loyha.Base.{true, false, ◌&&◌, if◌then◌else◌, Bool-cases, Option-cases, Option, none, some}
use c_loyha.Vma.{page_size, is_aligned}
use c_loyha.Vmm.{
  Vmm, word, set_word, pte_present, pte_addr, pte_flags, index, vmm_get_pte, translate_from,
  vmm_translate, MapResult, mapped, no_memory, panics, leaf_entry, vmm_map_page,
}
use c_loyha.Vmm.Entries.{leaf_entry_lem}
use c_loyha.Vmm.Tree.{Places, slot, prefix}
use c_loyha.Vmm.Space.{Space}
use c_loyha.Vmm.Tables.{Grown}
use c_loyha.Vmm.Walk.{EntryOf, vmm_get_pte-EntryOf}
use c_loyha.Vmm.Mapping.{
  path_of_page, index_of_page, page_of, Rewritten, set_entry-Space, set_entry-Rewritten,
  translate_entry,
}

-- The address is mapped by an entry of a last table.
abbrev pub PageEntry : Vmm → Places → ℕ → Type 0
PageEntry st place virt =
    (q : ℕ) × (place q ≡ some (0, prefix 0 virt))
    × (pte_present (word st (slot q (index 0 virt))) ≡ true)

-- Every address of the page is mapped to the frame, with the flags; all others are as they were.
unfoldable pub MapsPage : Vmm → ℕ → ℕ → ℕ → ℕ → Vmm → Type 0
MapsPage st pml4 virt phys flags st' =
    ((a : ℕ)
      → page_of a ≡ page_of virt
      → vmm_translate st' pml4 a ≡ some (phys + a % page_size, bit_or (pte_flags flags) 1))
    × ((a : ℕ) → page_of a ≢ page_of virt → vmm_translate st' pml4 a ≡ vmm_translate st pml4 a)

unfoldable pub ClearsPage : Vmm → ℕ → ℕ → Vmm → Type 0
ClearsPage st pml4 virt st' =
    ((a : ℕ) → page_of a ≡ page_of virt → vmm_translate st' pml4 a ≡ none)
    × ((a : ℕ) → page_of a ≢ page_of virt → vmm_translate st' pml4 a ≡ vmm_translate st pml4 a)

pub Rewritten-MapsPage :
    (st : Vmm) (pml4 virt p flags : ℕ) (st' : Vmm)
    → p < 0x10000000000
    → Rewritten st pml4 virt (leaf_entry (p * 4096) flags) st'
    → MapsPage st pml4 virt (p * 4096) flags st'
unfolding Rewritten MapsPage
Rewritten-MapsPage st pml4 virt p flags st' fits (inside, outside) =
    let (addr, present, kept) = leaf_entry_lem p flags fits in
    (λ a same. inside a same ∙ rw (present, addr, kept) refl, outside)

pub Rewritten-ClearsPage :
    (st : Vmm) (pml4 virt : ℕ) (st' : Vmm)
    → Rewritten st pml4 virt 0 st'
    → ClearsPage st pml4 virt st'
unfolding Rewritten ClearsPage
Rewritten-ClearsPage st pml4 virt st' both = both

pub same_translation :
    (st st' : Vmm) (root : ℕ) (place place' : Places) (a : ℕ)
    → root < 0x10000000000
    → Grown st root place st' place'
    → vmm_translate st' (root * 4096) a ≡ vmm_translate st (root * 4096) a
unfolding vmm_translate
same_translation st st' root place place' a fits grown =
    let start : pte_addr (root * 4096) ≡ root * 4096 = omega arith in
    ap (λ (t : ℕ). translate_from 3 (word st') t a) start
    ∙ grown.same a
    ∙ ap (λ (t : ℕ). translate_from 3 (word st) t a) (sym start)

-- What a call of `vmm_map_page` comes to in an address space.
unfoldable pub MapDone : Vmm → ℕ → Places → ℕ → ℕ → ℕ → MapResult → Type 0
MapDone st root place virt phys flags (mapped st') =
    ((a : ℕ) → page_of a ≡ page_of virt → vmm_translate st (root * 4096) a ≡ none)
    × MapsPage st (root * 4096) virt phys flags st'
    × ((place' : Places) × Space st' root place' × PageEntry st' place' virt)
MapDone st root place virt phys flags (no_memory st') =
    ((a : ℕ) → vmm_translate st' (root * 4096) a ≡ vmm_translate st (root * 4096) a)
    × ((place' : Places) × Space st' root place')
MapDone st root place virt phys flags panics =
    ((is_aligned virt && is_aligned phys) ≡ false) ⊎ (vmm_translate st (root * 4096) virt ≢ none)

MapsPage-after :
    (st st' st'' : Vmm) (root : ℕ) (place place' : Places) (virt phys flags : ℕ)
    → root < 0x10000000000
    → Grown st root place st' place'
    → MapsPage st' (root * 4096) virt phys flags st''
    → MapsPage st (root * 4096) virt phys flags st''
unfolding MapsPage
MapsPage-after st st' st'' root place place' virt phys flags fits grown (inside, outside) =
    (inside, λ a other. outside a other ∙ same_translation st st' root place place' a fits grown)

-- The entry is there: it is free and is written, or it is in use.
module _ (st : Vmm) (root : ℕ) (place : Places) (virt p flags : ℕ) (st1 : Vmm) (place1 : Places)
    (q : ℕ) (fits : root < 0x10000000000) (frame_fits : p < 0x10000000000)
    (grown : Grown st root place st1 place1) (at : place1 q ≡ some (0, prefix 0 virt)) where
  map_free :
      pte_present (word st1 (slot q (index 0 virt))) ≡ false
      → MapDone st root place virt
          (p * 4096)
          flags
          (mapped (set_word st1 (slot q (index 0 virt)) (leaf_entry (p * 4096) flags)))
  unfolding MapDone
  map_free free =
      let w = leaf_entry (p * 4096) flags in
      let st2 = set_word st1 (slot q (index 0 virt)) w in
      let space = Grown.space grown in
      (
        λ a same.
            sym (same_translation st st1 root place place1 a fits grown)
            ∙ translate_entry st1 root place1 q a w space fits
                (at ∙ ap (λ (x : ℕ). some (0, x)) (sym (path_of_page a virt same)))
            ∙ rw (index_of_page a virt same, free) refl,
        MapsPage-after st st1 st2 root place place1 virt (p * 4096) flags fits grown (
            Rewritten-MapsPage st1 (root * 4096) virt p flags st2 frame_fits
              (set_entry-Rewritten st1 root place1 q virt w space fits at)),
        (
          place1,
          set_entry-Space st1 root place1 q virt w space fits at,
          (q, at, ground (arith, (leaf_entry_lem p flags frame_fits).1)),
        ),
      )

  map_used :
      pte_present (word st1 (slot q (index 0 virt))) ≡ true
      → MapDone st root place virt (p * 4096) flags panics
  unfolding MapDone
  map_used here =
      let entry = translate_entry st1 root place1 q virt 0 (Grown.space grown) fits at in
      let shown : vmm_translate st1 (root * 4096) virt
          ≡ some (
            pte_addr (word st1 (slot q (index 0 virt))) + virt % page_size,
            pte_flags (word st1 (slot q (index 0 virt))),
          ) =
        entry ∙ rw here refl in
      inr (λ nothing.
        let clash =
          sym shown ∙ same_translation st st1 root place place1 virt fits grown ∙ nothing in
        absurd cc)

module _ (st : Vmm) (root : ℕ) (place : Places) (virt p flags : ℕ) (space : Space st root place)
    (fits : root < 0x10000000000) (frame_fits : p < 0x10000000000) where
  map_entry :
      (got : Option ℕ × Vmm)
      → EntryOf st root place got virt
      → MapDone st root place virt (p * 4096) flags (elim got.0 [
        | none ↦ no_memory got.1
        | some pte ↦
            if pte_present (word got.1 pte)
            then panics
            else mapped (set_word got.1 pte (leaf_entry (p * 4096) flags))
      ])
  unfolding MapDone
  map_entry got (place1, grown, entry) = elim (Option-cases got.0) [
    | inl nothing ↦
        rw nothing (
          λ a. same_translation st got.1 root place place1 a fits grown,
          (place1, Grown.space grown),
        )
    | inr (a, found) ↦
        let (q, slot_eq, at) = entry a found in
        elim (Bool-cases (pte_present (word got.1 (slot q (index 0 virt))))) [
          | inl here ↦
              rw (found, slot_eq, here)
                (map_used st root place virt p flags got.1 place1 q fits frame_fits grown at here)
          | inr free ↦
              rw (found, slot_eq, free)
                (map_free st root place virt p flags got.1 place1 q fits frame_fits grown at free)
        ]
  ]

  -- In an address space whose tables are pages of the allocator, and with a root table and a frame
  -- below 2 ^ 52: where `vmm_map_page` maps a page, just its addresses, which were not mapped, are
  -- translated to the frame with the flags; without memory no address is translated otherwise; a panic
  -- is only for an address that is not a multiple of the page size or is mapped.
  pub vmm_map_page-MapDone :
      MapDone st root place virt
        (p * 4096)
        flags
        (vmm_map_page st (root * 4096) virt (p * 4096) flags)
  unfolding vmm_map_page MapDone
  vmm_map_page-MapDone = elim (Bool-cases (is_aligned virt && is_aligned (p * 4096))) [
    | inl aligned ↦ rw aligned (
        map_entry (vmm_get_pte st (root * 4096) virt true)
          (vmm_get_pte-EntryOf st root place virt true space fits))
    | inr crooked ↦ rw crooked (inl crooked)
  ]

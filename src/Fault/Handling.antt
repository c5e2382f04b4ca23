-- ===== src/Fault/Handling.antt =====
-- `fault_page` and `mm_handle_fault` of kernel/mm/mm.c, whichever way the fault is answered.
use c_loyha.Base.{ℕ, ◌+◌, ◌*◌, ◌%◌, ◌<◌, ◌≡◌, ◌⊎◌, inl, inr, refl, sym, ap, ◌∙◌, subst, arith, ◌∷◌}
use c_loyha.Base.{Bool, true, false, ◌==◌, Bool-cases, Option-cases, Option, none, some, eq_of_some}
use c_loyha.Vma.{page_size}
use c_loyha.Pmm.{Pmm, Page}
use c_loyha.Pmm.Calls.{alloc_pages}
use c_loyha.Vmm.{
  Vmm, word, set_word, pte_present, pte_writable, pte_addr, pte_flags, index, is_user_address,
  vmm_get_pte,
}
use c_loyha.Vmm.Tree.{Tree, Places, slot, frame, prefix, index-lt}
use c_loyha.Vmm.Space.{Space}
use c_loyha.Vmm.Tables.{Grown, DataPage, not-Grown}
use c_loyha.Vmm.Walk.{vmm_get_pte-EntryOf}
use c_loyha.Vmm.Finding.{vmm_get_pte_finds}
use c_loyha.Vmm.Mapping.{set_entry-Space, translate_entry}
use c_loyha.Vmm.Pages.{PageEntry}
use c_loyha.Fault.{
  pte_cow, prot_write, own_entry, first_touch, copy_on_write, flushed_after, fault_entry,
  fault_page,
}
use c_loyha.Fault.Entry.{UserData}
use c_loyha.Fault.Outcome.{FaultDone, Grown-FaultDone}
use c_loyha.Fault.Touch.{KnowsNx, touched-FaultDone}
use c_loyha.Fault.Copy.{own_entry_lem, flush-Grown, moved-FaultDone}
use c_loyha.Fault.Shared.{FaultOutcome, copy_shared-FaultOutcome}

-- The page is mapped.
module _ (st : Vmm) (root : ℕ) (place : Places) (q page prot : ℕ) (space : Space st root place)
    (fits : root < 0x10000000000) (user : UserData st place) (nx : KnowsNx st)
    (low : is_user_address page ≡ true) (at : place q ≡ some (0, prefix 0 page))
    (here : pte_present (word st (slot q (index 0 page))) ≡ true) where
  abbrev e : ℕ
  e = word st (slot q (index 0 page))

  own-FaultDone :
      Page.refcount (Pmm.mem_map st.pmm (frame e)) ≡ 1
      → FaultDone st root place page true true
          (record (set_word st (slot q (index 0 page)) (own_entry e)) {
            flushed = page ∷ st.flushed;
          })
  unfolding UserData
  own-FaultDone sole =
      let (same, present, writable) = own_entry_lem e here in
      let st3 = set_word st (slot q (index 0 page)) (own_entry e) in
      let its_page = user page q low at here in
      moved-FaultDone st st (record st3 { flushed = page ∷ st.flushed }) root place q page
        (own_entry e) true space fits user low at here present writable
        (not-Grown st root place space) (subst (λ (f : ℕ). DataPage st place f) (sym same) its_page)
        (flush-Grown st3 root place (page ∷ st.flushed)
          (set_entry-Space st root place q page (own_entry e) space fits at))
        (λ j less. ap (λ (f : ℕ). word st (slot f j)) same) (λ shared. absurd (shared sole))

  copy_on_write-FaultOutcome :
      prot_write prot ≡ true
      → FaultOutcome st root place page true
          (flushed_after page (copy_on_write st (slot q (index 0 page)) prot))
  unfolding copy_on_write FaultOutcome
  copy_on_write-FaultOutcome wr =
      elim (Bool-cases (Page.refcount (Pmm.mem_map st.pmm (frame e)) == 1)) [
        | inl sole ↦ rw (copy_on_write, sole) (own-FaultDone (ground arith))
        | inr shared ↦
            rw (copy_on_write, shared)
              (copy_shared-FaultOutcome st root place q page prot space fits user nx wr low at here
                (ground arith))
      ]

  unchanged : FaultDone st root place page true false st
  unchanged =
      Grown-FaultDone st st root place place page true space fits user
        (not-Grown st root place space)

  -- The access was allowed already.
  already-FaultDone :
      (write : Bool)
      → (write ≡ true → (pte_writable e ≡ true) × (pte_cow e ≡ false))
      → FaultDone st root place page write true st
  already-FaultDone write writable = record {
    place' = place;
    space = space;
    user = user;
    same_nx = refl;
    same_data = λ f is_data. (is_data, λ j less. refl);
    others = λ a other. refl;
    kept = λ a below aligned entry. refl;
    zeros = λ done nothing. absurd (nothing (q, at, here));
    served = λ done. (
      pte_addr e + page % page_size,
      pte_flags e,
      translate_entry st root place q page 0 space fits at ∙ rw here refl,
      λ wr. let yes_writable = (writable wr).0 in ground arith,
    );
    copied = λ done q' at' here' cow shared wr.
        let plain = (writable wr).1 in
        let is_cow : pte_cow e ≡ true =
          subst (λ (k : ℕ). pte_cow (word st (slot k (index 0 page))) ≡ true)
            (Tree.unique (Space.tree space) q' q (0, prefix 0 page) at' at) cow in
        absurd cc;
    refused = λ no. absurd cc;
  }

  mapped-FaultOutcome :
      (write : Bool)
      → (write ≡ true → prot_write prot ≡ true)
      → FaultOutcome st root place page write
          (fault_entry st (slot q (index 0 page)) prot page write)
  unfolding fault_entry FaultOutcome
  mapped-FaultOutcome false allowed =
      rw (fault_entry, here) (already-FaultDone false (λ h. absurd cc))
  mapped-FaultOutcome true allowed = elim (Bool-cases (pte_cow e)) [
    | inl cow ↦ rw (fault_entry, here, cow) (copy_on_write-FaultOutcome (allowed refl))
    | inr plain ↦ elim (Bool-cases (pte_writable e)) [
      | inl fine ↦ rw (fault_entry, here, plain, fine) (already-FaultDone true (λ h. (fine, plain)))
      | inr refused ↦ rw (fault_entry, here, plain, refused) unchanged
    ]
  ]

-- Whatever `fault_page` finds.
module _ (st : Vmm) (root : ℕ) (place : Places) (page prot : ℕ) (write : Bool)
    (space : Space st root place) (fits : root < 0x10000000000) (user : UserData st place)
    (nx : KnowsNx st) (low : is_user_address page ≡ true)
    (allowed : write ≡ true → prot_write prot ≡ true) where
  -- The entry was absent, or had no table.
  absent-FaultOutcome :
      (st1 : Vmm) (place1 : Places) (q : ℕ)
      → Grown st root place st1 place1
      → place1 q ≡ some (0, prefix 0 page)
      → KnowsNx st1
      → pte_present (word st1 (slot q (index 0 page))) ≡ false
      → ¬ PageEntry st place page
      → FaultOutcome st root place page write
          (fault_entry st1 (slot q (index 0 page)) prot page write)
  unfolding fault_entry first_touch FaultOutcome
  absent-FaultOutcome st1 place1 q grown at nx1 absent nothing_there =
      elim (Option-cases (alloc_pages st1.pmm 0 true false)) [
        | inl nothing ↦
            rw (fault_entry, absent, first_touch, nothing)
              (Grown-FaultDone st st1 root place place1 page write space fits user grown)
        | inr ((p, pmm), found) ↦
            rw (fault_entry, absent, first_touch, found)
              (touched-FaultDone st st1 root place place1 q page prot p pmm write space fits user
                nx1 allowed grown at nothing_there found)
      ]

  -- A page that was mapped would have been found.
  not_mapped :
      (a : ℕ)
      → (vmm_get_pte st (root * 4096) page true).0 ≡ some a
      → pte_present (word (vmm_get_pte st (root * 4096) page true).1 a) ≡ false
      → ¬ PageEntry st place page
  not_mapped a found absent (q, at, here) =
      let got = vmm_get_pte st (root * 4096) page true in
      let finds = vmm_get_pte_finds st root place page q true (Space.tree space) fits at in
      let same_entry : some a ≡ some (slot q (index 0 page)) =
        sym found ∙ ap (λ (r : Option ℕ × Vmm). r.0) finds in
      let still : word got.1 a ≡ word st (slot q (index 0 page)) =
        ap (λ (r : Option ℕ × Vmm). word r.1 a) finds ∙ ap (word st) (eq_of_some same_entry) in
      let clash : false ≡ true = sym absent ∙ ap (λ (x : ℕ). pte_present x) still ∙ here in
      absurd cc

  abbrev answer : Option ℕ × Vmm → Option (Bool × Vmm)
  answer got = elim got.0 [
    | none ↦ some (false, got.1)
    | some pte ↦ fault_entry got.1 pte prot page write
  ]

  found-FaultOutcome :
      (a q : ℕ) (place1 : Places)
      → (vmm_get_pte st (root * 4096) page true).0 ≡ some a
      → a ≡ slot q (index 0 page)
      → Grown st root place (vmm_get_pte st (root * 4096) page true).1 place1
      → place1 q ≡ some (0, prefix 0 page)
      → FaultOutcome st root place page write (answer (vmm_get_pte st (root * 4096) page true))
  found-FaultOutcome a q place1 found is_slot grown at =
      let got = vmm_get_pte st (root * 4096) page true in
      elim (Bool-cases (pte_present (word got.1 (slot q (index 0 page))))) [
        | inl here ↦
            let (before, same) =
              Grown.entries grown q (prefix 0 page) (index 0 page) at (index-lt 0 page) here in
            subst (λ (r : Option ℕ × Vmm). FaultOutcome st root place page write (answer r))
              (sym (vmm_get_pte_finds st root place page q true (Space.tree space) fits before))
              (mapped-FaultOutcome st root place q page prot space fits user nx low before
                (subst (λ (x : ℕ). pte_present x ≡ true) same here) write allowed)
        | inr absent ↦
            rw (found, is_slot)
              (absent-FaultOutcome got.1 place1 q grown at
                (subst (λ (x : ℕ). (x ≡ 0) ⊎ (x ≡ 0x8000000000000000)) (sym (Grown.same_nx grown))
                  nx)
                absent
                (not_mapped a found (ap (λ (x : ℕ). pte_present (word got.1 x)) is_slot ∙ absent)))
      ]

  -- For a page of a program in an address space whose tables are pages of the allocator and whose
  -- entries lead to pages in use, and a write only where the rights allow it: `fault_page` writes no
  -- page in use, translates other pages as before, and leaves what the program reads unchanged, also
  -- where it copies; where it returns true, the page is accessible, for writing where that was asked
  -- for, reads as zeros if it was not mapped, and, for a write to a copy-on-write page that does not
  -- have exactly one reference, leads to a page that was free before; where it returns false, every
  -- address is translated as before; it panics only for a page that is mapped, to a frame with no
  -- reference.
  pub fault_page-FaultOutcome :
      FaultOutcome st root place page write (fault_page st (root * 4096) prot page write)
  unfolding fault_page FaultOutcome
  fault_page-FaultOutcome =
      let got = vmm_get_pte st (root * 4096) page true in
      let (place1, grown, entry) = vmm_get_pte-EntryOf st root place page true space fits in
      elim (Option-cases got.0) [
        | inl nothing ↦
            rw (fault_page, nothing)
              (Grown-FaultDone st got.1 root place place1 page write space fits user grown)
        | inr (a, found) ↦
            let (q, is_slot, at) = entry a found in
            found-FaultOutcome a q place1 found is_slot grown at
      ]

-- ===== src/Fault/Shared.antt =====
-- `fault_page` of kernel/mm/mm.c where the page is shared: its last owner keeps it, any other gets a copy.
use c_loyha.Base.{
  ℕ, zero, suc, ◌+◌, ◌-◌, ◌*◌, ◌<◌, ◌≡◌, ◌≢◌, inl, inr, refl, sym, ap, ◌∙◌, subst, arith, ◌∷◌,
}
use c_loyha.Base.{Bool, true, false, ◌==◌, Option-cases, Option, none, some}
use c_loyha.Vma.{page_size}
use c_loyha.Pmm.{Pmm, Page}
use c_loyha.Pmm.Calls.{alloc_pages, counted, put_page, put_count}
use c_loyha.Pmm.Pool.{kept_at, pool_cover}
use c_loyha.Pmm.Zeroing.{ram-alloc_pages}
use c_loyha.Pmm.Counts.{refcount-alloc_pages}
use c_loyha.Vmm.{Vmm, word, set_word, pte_present, pte_writable, pte_flags, index, is_user_address}
use c_loyha.Vmm.Tree.{Places, slot, frame, prefix}
use c_loyha.Vmm.Space.{Space}
use c_loyha.Vmm.Tables.{Grown, DataPage, not-Grown, Grown-twice}
use c_loyha.Vmm.Mapping.{set_entry-Space}
use c_loyha.Fault.{
  prot_write, data_entry, set_mapcount, copy_page, one_less, copy_shared, flushed_after,
}
use c_loyha.Fault.Taking.{
  FlagsKept, FlagsKept-trans, counts-Grown, taking-Grown, taken-DataPage, taken_fits, was_free,
}
use c_loyha.Fault.Entry.{UserData}
use c_loyha.Fault.Outcome.{FaultDone, Grown-FaultDone}
use c_loyha.Fault.Touch.{KnowsNx, data_entry_lem, one_mapped}
use c_loyha.Fault.Copy.{flush-Grown, moved-FaultDone}

-- A panic is only for a page that is mapped without being counted.
unfoldable pub FaultOutcome : Vmm → ℕ → Places → ℕ → Bool → Option (Bool × Vmm) → Type 0
FaultOutcome st root place page write none =
    (q : ℕ) × (place q ≡ some (0, prefix 0 page))
    × (pte_present (word st (slot q (index 0 page))) ≡ true)
    × (Page.refcount (Pmm.mem_map st.pmm (frame (word st (slot q (index 0 page))))) ≡ 0)
FaultOutcome st root place page write (some (ok, st')) = FaultDone st root place page write ok st'

-- A copy was made.
module _ (st : Vmm) (root : ℕ) (place : Places) (q page prot p : ℕ) (pmm : Pmm) (write : Bool)
    (space : Space st root place) (fits : root < 0x10000000000) (user : UserData st place)
    (nx : KnowsNx st) (wr : prot_write prot ≡ true) (low : is_user_address page ≡ true)
    (at : place q ≡ some (0, prefix 0 page))
    (here : pte_present (word st (slot q (index 0 page))) ≡ true)
    (found : alloc_pages st.pmm 0 false false ≡ some (p, pmm)) where
  abbrev old : ℕ
  old = frame (word st (slot q (index 0 page)))

  abbrev ram2 : ℕ → ℕ
  ram2 = copy_page pmm.ram (old * page_size) (p * page_size)

  abbrev pages2 : ℕ → Page
  pages2 = Pmm.mem_map (set_mapcount pmm p 1)

  abbrev st2 : Vmm
  st2 = record st { pmm = set_mapcount (record pmm { ram = ram2 }) p 1 }

  abbrev w : ℕ
  w = data_entry st p prot

  abbrev st3 : Vmm
  st3 = set_word st2 (slot q (index 0 page)) w

  unwritten : (a : ℕ) → pmm.ram a ≡ word st a
  unwritten a = ap (λ (ram : ℕ → ℕ). ram a) (ram-alloc_pages st.pmm 0 false false (p, pmm) found)

  alone : (q' j : ℕ) → q' ≢ p → j < 512 → ram2 (slot q' j) ≡ word st (slot q' j)
  alone q' j other less =
      let outside : ram2 (slot q' j) ≡ pmm.ram (slot q' j) = ground arith in
      outside ∙ unwritten (slot q' j)

  copied : (j : ℕ) → j < 512 → ram2 (slot p j) ≡ word st (slot old j)
  copied j less =
      let inside : ram2 (slot p j) ≡ pmm.ram (old * page_size + (slot p j - p * page_size)) =
        ground arith in
      inside ∙ ap pmm.ram (omega arith) ∙ unwritten (slot old j)

  taken : Grown st root place st2 place
  taken = taking-Grown st root place p pmm false pages2 ram2 space found (one_mapped pmm p) alone

  new_data : DataPage st2 place p
  new_data =
      taken-DataPage st root place p pmm false pages2 ram2 space found (one_mapped pmm p) alone

  entry_of_copy :
      (frame w ≡ p)
      × (pte_present w ≡ true)
      × (prot_write prot ≡ true → pte_writable (pte_flags w) ≡ true)
  entry_of_copy =
      data_entry_lem st p prot nx
        (taken_fits st root place p pmm false pages2 ram2 space found (one_mapped pmm p) alone)

  old_is_other : old ≢ p
  unfolding UserData
  old_is_other e =
      let (nowhere, held) = user page q low at here in
      absurd (
        omega (
          arith,
          was_free st root place p pmm false pages2 ram2 space found (one_mapped pmm p) alone,
          held,
          ap (λ (n : ℕ). pool_cover st.pmm n) e,
        ))

  same_count :
      Page.refcount (Pmm.mem_map (one_less st3.pmm old) old)
      ≡ Page.refcount (Pmm.mem_map st.pmm old)
  same_count =
      let ne : old ≢ p = old_is_other in
      let other : (old == p) ≡ false = ground arith in
      let itself : (old == old) ≡ true = ground arith in
      rw (itself, other) (refcount-alloc_pages st.pmm 0 old false false (p, pmm) found old_is_other)

  abbrev pages4 : ℕ → ℕ → Page
  pages4 n = Pmm.mem_map (counted (one_less st3.pmm old) old n)

  flags_kept : (n : ℕ) → FlagsKept st3.pmm.mem_map (pages4 n)
  flags_kept n =
      let less = Pmm.mem_map (one_less st3.pmm old) in
      FlagsKept-trans st3.pmm.mem_map less (pages4 n)
        (kept_at st3.pmm.mem_map old
          (record (st3.pmm.mem_map old) { mapcount = Page.mapcount (st3.pmm.mem_map old) - 1 }) refl
          refl)
        (kept_at less old (record (less old) { refcount = n }) refl refl)

  abbrev st4 : ℕ → Vmm
  st4 n = record st3 { pmm = counted (one_less st3.pmm old) old n; flushed = page ∷ st.flushed }

  last_steps : (n : ℕ) → Grown st3 root place (st4 n) place
  last_steps n =
      let counts =
        counts-Grown st3 root place (pages4 n)
          (set_entry-Space st2 root place q page w taken.space fits at) (flags_kept n) in
      Grown-twice st3 (record st3 { pmm = counted (one_less st3.pmm old) old n }) (st4 n) root place
        place place counts
        (flush-Grown (record st3 { pmm = counted (one_less st3.pmm old) old n }) root place
          (page ∷ st.flushed) counts.space)

  copy-FaultDone : (n : ℕ) → FaultDone st root place page write true (st4 n)
  copy-FaultDone n =
      moved-FaultDone st st2 (st4 n) root place q page w write space fits user low at here
        entry_of_copy.1 (entry_of_copy.2 wr) taken
        (subst (λ (f : ℕ). DataPage st2 place f) (sym entry_of_copy.0) new_data) (last_steps n)
        (λ j less. ap (λ (f : ℕ). ram2 (slot f j)) entry_of_copy.0 ∙ copied j less)
        (λ shared.
          subst (λ (f : ℕ). 0 < pool_cover st.pmm f) (sym entry_of_copy.0)
            (was_free st root place p pmm false pages2 ram2 space found (one_mapped pmm p) alone))

  pub put-FaultOutcome :
      (n : ℕ)
      → Page.refcount (Pmm.mem_map st.pmm old) ≡ n
      → n ≢ 1
      → FaultOutcome st root place page write (
          flushed_after page (elim (put_count (one_less st3.pmm old) old n) [
            | none ↦ none
            | some pmm' ↦ some (true, record st3 { pmm = pmm' })
          ]))
  unfolding FaultOutcome put_count
  put-FaultOutcome zero count shared = (q, at, here, count)
  put-FaultOutcome (suc zero) count shared = absurd (shared refl)
  put-FaultOutcome (suc (suc n)) count shared = copy-FaultDone (suc n)

-- Some other entry leads to the page too.
module _ (st : Vmm) (root : ℕ) (place : Places) (q page prot : ℕ) (space : Space st root place)
    (fits : root < 0x10000000000) (user : UserData st place) (nx : KnowsNx st)
    (wr : prot_write prot ≡ true) (low : is_user_address page ≡ true)
    (at : place q ≡ some (0, prefix 0 page))
    (here : pte_present (word st (slot q (index 0 page))) ≡ true) where
  pub copy_shared-FaultOutcome :
      Page.refcount (Pmm.mem_map st.pmm (frame (word st (slot q (index 0 page))))) ≢ 1
      → FaultOutcome st root place page true (
          flushed_after page
            (copy_shared st (slot q (index 0 page)) (frame (word st (slot q (index 0 page)))) prot))
  unfolding copy_shared put_page FaultOutcome
  copy_shared-FaultOutcome shared =
      let old = frame (word st (slot q (index 0 page))) in
      elim (Option-cases (alloc_pages st.pmm 0 false false)) [
        | inl nothing ↦
            rw (copy_shared, nothing)
              (Grown-FaultDone st st root place place page true space fits user
                (not-Grown st root place space))
        | inr ((p, pmm), found) ↦
            rw (copy_shared, found)
              (subst
                (λ (n : ℕ). FaultOutcome st root place page true (
                  flushed_after page
                    (elim (put_count
                      (one_less
                        (Vmm.pmm (
                          st3 st root place q page prot p pmm true space fits user nx wr low at here
                            found))
                        old)
                      old n) [
                        | none ↦ none
                        | some pmm' ↦ some (
                          true,
                          record (st3 st root place q page prot p pmm true space fits user nx wr low
                              at here found) { pmm = pmm' },
                        )
                      ])))
                (sym (
                  same_count st root place q page prot p pmm true space fits user nx wr low at here
                    found))
                (put-FaultOutcome st root place q page prot p pmm true space fits user nx wr low at
                  here found (Page.refcount (Pmm.mem_map st.pmm old)) refl shared))
      ]

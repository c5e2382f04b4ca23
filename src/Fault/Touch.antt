-- ===== src/Fault/Touch.antt =====
-- The first access to a page: `fault_page` of kernel/mm/mm.c where the entry is absent.
use c_loyha.Base.{
  ℕ, ◌+◌, ◌*◌, ◌/◌, ◌%◌, ◌<◌, ◌≡◌, ◌≢◌, ◌⊎◌, inl, inr, refl, sym, ap, ◌∙◌, subst, arith, bit_or,
}
use c_loyha.Base.{Bool, true, false, Bool-cases, some}
use native.Mathlib.Decide.{ℕ_discrete}
use c_loyha.Vma.{page_size}
use c_loyha.Pmm.{Pmm}
use c_loyha.Pmm.Calls.{alloc_pages, zero_pages}
use c_loyha.Pmm.Pool.{kept_at}
use c_loyha.Pmm.Zeroing.{ram-alloc_pages}
use c_loyha.Vmm.{
  Vmm, word, set_word, pte_present, pte_writable, pte_addr, pte_flags, index, leaf_entry,
}
use c_loyha.Vmm.Entries.{leaf_entry_lem}
use c_loyha.Vmm.Tree.{Places, slot, frame, prefix}
use c_loyha.Vmm.Space.{Space}
use c_loyha.Vmm.Tables.{Grown, DataPage, not-Grown, Grown-twice}
use c_loyha.Vmm.Mapping.{page_of, path_of_page, index_of_page, Rewritten, set_entry-Space}
use c_loyha.Vmm.Pages.{PageEntry}
use c_loyha.Fault.Outcome.{FaultDone}
use c_loyha.Fault.{prot_write, prot_exec, prot_to_pte, data_entry, set_mapcount}
use c_loyha.Fault.Taking.{FlagsKept, taking-Grown, taken-DataPage, taken_fits}
use c_loyha.Fault.Entry.{
  UserData, load, Served, Served-around, entry-SameData, load_leaf, load_same,
}

-- `pte_nx` is the bit 63, or 0 where the processor does not have it.
abbrev pub KnowsNx : Vmm → Type 0
KnowsNx st = (st.pte_nx ≡ 0) ⊎ (st.pte_nx ≡ 0x8000000000000000)

no_address :
    (st : Vmm) (prot : ℕ) → KnowsNx st → pte_flags (prot_to_pte st prot) ≡ prot_to_pte st prot
no_address st prot nx = elim (Bool-cases (prot_write prot)) [
  | inl wr ↦ elim (Bool-cases (prot_exec prot)) [
    | inl ex ↦ rw (wr, ex) refl
    | inr nex ↦ elim nx [ inl off ↦ rw (wr, nex, off) refl | inr on ↦ rw (wr, nex, on) refl ]
  ]
  | inr ro ↦ elim (Bool-cases (prot_exec prot)) [
    | inl ex ↦ rw (ro, ex) refl
    | inr nex ↦ elim nx [ inl off ↦ rw (ro, nex, off) refl | inr on ↦ rw (ro, nex, on) refl ]
  ]
]

data_flags :
    (st : Vmm) (prot : ℕ)
    → KnowsNx st
    → prot_write prot ≡ true
    → pte_writable (bit_or (prot_to_pte st prot) 1) ≡ true
data_flags st prot nx wr = elim (Bool-cases (prot_exec prot)) [
  | inl ex ↦ rw (wr, ex) refl
  | inr nex ↦ elim nx [ inl off ↦ rw (wr, nex, off) refl | inr on ↦ rw (wr, nex, on) refl ]
]

-- The entry of a page of data.
pub data_entry_lem :
    (st : Vmm) (p prot : ℕ)
    → KnowsNx st
    → p < 0x10000000000
    → (frame (data_entry st p prot) ≡ p)
      × (pte_present (data_entry st p prot) ≡ true)
      × (prot_write prot ≡ true → pte_writable (pte_flags (data_entry st p prot)) ≡ true)
data_entry_lem st p prot nx fits =
    let same : leaf_entry (p * 4096) (prot_to_pte st prot) ≡ data_entry st p prot =
      ap (λ (f : ℕ). bit_or (bit_or (p * 4096) f) 1) (no_address st prot nx) in
    let (addr, present, flags) = leaf_entry_lem p (prot_to_pte st prot) fits in
    (
      omega (arith, ap (λ (e : ℕ). pte_addr e) (sym same) ∙ addr),
      ap (λ (e : ℕ). pte_present e) (sym same) ∙ present,
      λ wr.
          ap (λ (e : ℕ). pte_writable (pte_flags e)) (sym same)
          ∙ ap (λ (f : ℕ). pte_writable f) flags
          ∙ ap (λ (f : ℕ). pte_writable (bit_or f 1)) (no_address st prot nx)
          ∙ data_flags st prot nx wr,
    )

pub one_mapped : (pmm : Pmm) (p : ℕ) → FlagsKept pmm.mem_map (Pmm.mem_map (set_mapcount pmm p 1))
one_mapped pmm p = kept_at pmm.mem_map p (record (pmm.mem_map p) { mapcount = 1 }) refl refl

-- A page was made for an absent entry.
module _ (st st1 : Vmm) (root : ℕ) (place place1 : Places) (q page prot p : ℕ) (pmm : Pmm)
    (write : Bool) (space : Space st root place) (fits : root < 0x10000000000)
    (user : UserData st place) (nx : KnowsNx st1) (allowed : write ≡ true → prot_write prot ≡ true)
    (grown : Grown st root place st1 place1) (at : place1 q ≡ some (0, prefix 0 page))
    (nothing_there : ¬ PageEntry st place page)
    (found : alloc_pages st1.pmm 0 true false ≡ some (p, pmm)) where
  abbrev st2 : Vmm
  st2 = record st1 { pmm = set_mapcount pmm p 1 }

  abbrev w : ℕ
  w = data_entry st1 p prot

  zeroed : (a : ℕ) → pmm.ram a ≡ zero_pages (word st1) p 0 a
  zeroed a = ap (λ (ram : ℕ → ℕ). ram a) (ram-alloc_pages st1.pmm 0 true false (p, pmm) found)

  alone : (q' j : ℕ) → q' ≢ p → j < 512 → pmm.ram (slot q' j) ≡ word st1 (slot q' j)
  alone q' j other less = zeroed (slot q' j) ∙ ground arith

  empty_page : (j : ℕ) → j < 512 → pmm.ram (slot p j) ≡ 0
  empty_page j less = zeroed (slot p j) ∙ ground arith

  taken : Grown st1 root place1 st2 place1
  taken =
      taking-Grown st1 root place1 p pmm true (Pmm.mem_map (set_mapcount pmm p 1)) pmm.ram
        grown.space found (one_mapped pmm p) alone

  new_data : DataPage st2 place1 p
  new_data =
      taken-DataPage st1 root place1 p pmm true (Pmm.mem_map (set_mapcount pmm p 1)) pmm.ram
        grown.space found (one_mapped pmm p) alone

  p_fits : p < 0x10000000000
  p_fits =
      taken_fits st1 root place1 p pmm true (Pmm.mem_map (set_mapcount pmm p 1)) pmm.ram grown.space
        found (one_mapped pmm p) alone

  abbrev st3 : Vmm
  st3 = set_word st2 (slot q (index 0 page)) w

  last_step : Grown st3 root place1 st3 place1
  last_step =
      not-Grown st3 root place1 (set_entry-Space st2 root place1 q page w taken.space fits at)

  touched : Served st root place page w st3
  touched =
      Served-around st st2 st3 root place place1 q page w fits user
        (Grown-twice st st1 st2 root place place1 place1 grown taken) at
        (subst (λ (f : ℕ). DataPage st2 place1 f) (sym (data_entry_lem st1 p prot nx p_fits).0)
          new_data)
        last_step

  leads_to_p : frame w ≡ p
  leads_to_p = (data_entry_lem st1 p prot nx p_fits).0

  w_present : pte_present w ≡ true
  w_present = (data_entry_lem st1 p prot nx p_fits).1

  -- Another address of the page was not mapped either.
  same-PageEntry : (a : ℕ) → page_of a ≡ page_of page → ¬ PageEntry st place a
  same-PageEntry a same (r, there, here) = nothing_there (
    r,
    there ∙ ap (λ (x : ℕ). some (0, x)) (path_of_page a page same),
    ap (λ (i : ℕ). pte_present (word st (slot r i))) (sym (index_of_page a page same)) ∙ here,
  )

  reads_zero : (a : ℕ) → page_of a ≡ page_of page → a % 8 ≡ 0 → load st3 (root * 4096) a ≡ some 0
  unfolding Rewritten
  reads_zero a same aligned =
      let (_, words) =
        entry-SameData st2 st3 root place1 q page w taken.space at last_step p new_data in
      let less : a % page_size / 8 < 512 = omega arith in
      load_leaf st3 (root * 4096) a w aligned w_present ((Served.rewritten touched).0 a same)
      ∙ ap (λ (f : ℕ). some (word st3 (slot f (a % page_size / 8)))) leads_to_p
      ∙ ap some (words (a % page_size / 8) less ∙ empty_page (a % page_size / 8) less)

  pub touched-FaultDone : FaultDone st root place page write true st3
  unfolding Rewritten
  touched-FaultDone =
      let (inside, outside) = Served.rewritten touched in
      record {
        place' = Served.place' touched;
        space = Served.space touched;
        user = Served.user touched;
        same_nx = Served.same_nx touched;
        same_data = Served.same_data touched;
        others = outside;
        kept = λ a low aligned entry. elim (ℕ_discrete (page_of a) (page_of page)) [
          | yes same ↦ absurd (same-PageEntry a same entry)
          | no other ↦
              load_same st st3 root place (Served.place' touched) a space fits user
                (Served.same_data touched) low aligned entry (outside a other)
        ];
        zeros = λ done nothing a same aligned. reads_zero a same aligned;
        served = λ done. (
          pte_addr w + page % page_size,
          pte_flags w,
          inside page refl ∙ rw w_present refl,
          λ wr. (data_entry_lem st1 p prot nx p_fits).2 (allowed wr),
        );
        copied = λ done q' at' here'. absurd (nothing_there (q', at', here'));
        refused = λ no. absurd cc;
      }

-- ===== src/Fault/Entry.antt =====
-- The entry of a page is written over by one that leads to a page of data.
use c_loyha.Base.{ℕ, ◌+◌, ◌*◌, ◌/◌, ◌%◌, ◌<◌, ◌≡◌, inl, inr, refl, sym, ap, ◌∙◌, subst, arith}
use c_loyha.Base.{true, Option, none, some}
use c_loyha.Vma.{page_size}
use c_loyha.Vmm.{
  Vmm, word, set_word, write_at, pte_present, pte_flags, index, is_user_address, vmm_translate,
}
use c_loyha.Vmm.Tree.{Places, slot, frame, prefix, index-lt}
use c_loyha.Vmm.Writes.{write_same, write_other, slot_cases}
use c_loyha.Vmm.Space.{Space}
use c_loyha.Vmm.Tables.{Grown, DataPage, cover_ram}
use c_loyha.Vmm.Mapping.{read_leaf, Rewritten, set_entry-Rewritten, translate_entry}
use c_loyha.Vmm.Pages.{PageEntry, same_translation}

-- The entries of the program's addresses lead to pages of data.
unfoldable pub UserData : Vmm → Places → Type 0
UserData st place =
    (virt q : ℕ)
    → is_user_address virt ≡ true
    → place q ≡ some (0, prefix 0 virt)
    → pte_present (word st (slot q (index 0 virt))) ≡ true
    → DataPage st place (frame (word st (slot q (index 0 virt))))

-- The word that a program reads at an address.
abbrev pub load : Vmm → ℕ → ℕ → Option ℕ
load st pml4 a = elim (vmm_translate st pml4 a) [ none ↦ none | some r ↦ some (word st r.0) ]

-- Pages are as they were, before and after the entry.
abbrev pub SameData : Vmm → Places → Vmm → Places → Type 0
SameData st place st' place' =
    (f : ℕ)
    → DataPage st place f
    → DataPage st' place' f × ((j : ℕ) → j < 512 → word st' (slot f j) ≡ word st (slot f j))

pub Grown-UserData :
    (st st' : Vmm) (root : ℕ) (place place' : Places)
    → Grown st root place st' place'
    → UserData st place
    → UserData st' place'
unfolding UserData
Grown-UserData st st' root place place' grown user virt q low at here =
    let (before, kept) = grown.entries q (prefix 0 virt) (index 0 virt) at (index-lt 0 virt) here in
    let there = user virt q low before (subst (λ (e : ℕ). pte_present e ≡ true) kept here) in
    subst (λ (e : ℕ). DataPage st' place' (frame e)) (sym kept)
      (grown.intact (frame (word st (slot q (index 0 virt)))) there).0

-- The entry itself.
module _ (st : Vmm) (root : ℕ) (place : Places) (q virt w : ℕ) (space : Space st root place)
    (at : place q ≡ some (0, prefix 0 virt)) where
  abbrev written : Vmm
  written = set_word st (slot q (index 0 virt)) w

  set_entry-SameData : SameData st place written place
  set_entry-SameData f (nowhere, held) =
      let ram' = write_at (word st) (slot q (index 0 virt)) w in
      (
        (nowhere, cover_ram st.pmm ram' f ∙ held),
        λ j less. elim (slot_cases q (index 0 virt) f j (index-lt 0 virt) less) [
          | inl (e, _) ↦
              let clash : none ≡ some (0, prefix 0 virt) = sym nowhere ∙ ap place e ∙ at in
              absurd cc
          | inr ne ↦ write_other (word st) (slot q (index 0 virt)) w (slot f j) ne
        ],
      )

  set_entry-UserData : DataPage st place (frame w) → UserData st place → UserData written place
  unfolding UserData
  set_entry-UserData leads user virt' q' low at' here =
      let e = word st (slot q' (index 0 virt')) in
      elim (slot_cases q (index 0 virt) q' (index 0 virt') (index-lt 0 virt) (index-lt 0 virt')) [
        | inl (f, g) ↦
            let is_w : word written (slot q' (index 0 virt')) ≡ w =
              ap (word written) (omega arith) ∙ write_same (word st) (slot q (index 0 virt)) w in
            subst (λ (x : ℕ). DataPage written place (frame x)) (sym is_w)
              (set_entry-SameData (frame w) leads).0
        | inr ne ↦
            let is_old : word written (slot q' (index 0 virt')) ≡ e =
              write_other (word st) (slot q (index 0 virt)) w (slot q' (index 0 virt')) ne in
            subst (λ (x : ℕ). DataPage written place (frame x)) (sym is_old)
              (set_entry-SameData (frame e)
                (user virt' q' low at' (subst (λ (x : ℕ). pte_present x ≡ true) is_old here))).0
      ]

-- What the calls before and after the entry is written add up to.
pub record Served (st : Vmm) (root : ℕ) (place : Places) (virt w : ℕ) (st' : Vmm) : Type 0 where
  pub place' : Places
  pub space : Space st' root place'
  pub user : UserData st' place'
  pub same_nx : st'.pte_nx ≡ st.pte_nx
  pub same_data : SameData st place st' place'
  pub rewritten : Rewritten st (root * 4096) virt w st'

pub Served-around :
    (st st2 st4 : Vmm) (root : ℕ) (place place1 : Places) (q virt w : ℕ)
    → root < 0x10000000000
    → UserData st place
    → Grown st root place st2 place1
    → place1 q ≡ some (0, prefix 0 virt)
    → DataPage st2 place1 (frame w)
    → Grown (set_word st2 (slot q (index 0 virt)) w) root place1 st4 place1
    → Served st root place virt w st4
unfolding Rewritten
Served-around st st2 st4 root place place1 q virt w fits user before at leads after =
    let st3 = set_word st2 (slot q (index 0 virt)) w in
    let (inside, outside) = set_entry-Rewritten st2 root place1 q virt w before.space fits at in
    record {
      place' = place1;
      space = after.space;
      user = Grown-UserData st3 st4 root place1 place1 after (
          set_entry-UserData st2 root place1 q virt w before.space at leads
            (Grown-UserData st st2 root place place1 before user));
      same_nx = after.same_nx ∙ before.same_nx;
      same_data = λ f is_data.
          let (between, first) = before.intact f is_data in
          let (still, second) =
            set_entry-SameData st2 root place1 q virt w before.space at f between in
          let (last, third) = after.intact f still in
          (last, λ j less. third j less ∙ second j less ∙ first j less);
      rewritten = (
        λ a here. same_translation st3 st4 root place1 place1 a fits after ∙ inside a here,
        λ a other.
            same_translation st3 st4 root place1 place1 a fits after
            ∙ outside a other
            ∙ same_translation st st2 root place place1 a fits before,
      );
    }

pub entry-SameData :
    (st2 st4 : Vmm) (root : ℕ) (place : Places) (q virt w : ℕ)
    → Space st2 root place
    → place q ≡ some (0, prefix 0 virt)
    → Grown (set_word st2 (slot q (index 0 virt)) w) root place st4 place
    → SameData st2 place st4 place
entry-SameData st2 st4 root place q virt w space at after f is_data =
    let (between, first) = set_entry-SameData st2 root place q virt w space at f is_data in
    let (last, second) = after.intact f between in (last, λ j less. second j less ∙ first j less)

-- What a program reads through an entry.
pub load_leaf :
    (st : Vmm) (pml4 a e : ℕ)
    → a % 8 ≡ 0
    → pte_present e ≡ true
    → vmm_translate st pml4 a ≡ read_leaf e a
    → load st pml4 a ≡ some (word st (slot (frame e) (a % page_size / 8)))
load_leaf st pml4 a e aligned here said =
    let whole : vmm_translate st pml4 a ≡ some (frame e * 4096 + a % page_size, pte_flags e) =
      said ∙ rw here refl in
    rw (load, whole) (ap (λ (x : ℕ). some (word st x)) (omega arith))

-- An address that is translated as before is read as before.
pub load_same :
    (st st' : Vmm) (root : ℕ) (place place' : Places) (a : ℕ)
    → Space st root place
    → root < 0x10000000000
    → UserData st place
    → SameData st place st' place'
    → is_user_address a ≡ true
    → a % 8 ≡ 0
    → PageEntry st place a
    → vmm_translate st' (root * 4096) a ≡ vmm_translate st (root * 4096) a
    → load st' (root * 4096) a ≡ load st (root * 4096) a
unfolding UserData
load_same st st' root place place' a space fits user same low aligned (q, at, here) translated =
    let e = word st (slot q (index 0 a)) in
    let said = translate_entry st root place q a 0 space fits at in
    let (_, words) = same (frame e) (user a q low at here) in
    load_leaf st' (root * 4096) a e aligned here (translated ∙ said)
    ∙ ap some (words (a % page_size / 8) (omega arith))
    ∙ sym (load_leaf st (root * 4096) a e aligned here said)

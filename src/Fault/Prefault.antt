-- ===== src/Fault/Prefault.antt =====
-- `mm_prefault` of kernel/mm/mm.c: the pages of a range are made accessible one after the other.
use c_loyha.Base.{
  ℕ, zero, suc, ◌+◌, ◌*◌, ◌%◌, ◌≤◌, ◌<◌, ◌≡◌, ◌≢◌, ◌⊎◌, inl, inr, refl, sym, ap, ◌∙◌, arith, List,
  subst,
}
use c_loyha.Base.{Bool, true, false, not, ◌&&◌, ltb, Bool-cases, Option-cases, Option, none, some}
use native.Mathlib.Decide.{ℕ_discrete}
use c_loyha.Vma.{Vma, page_size, user_space_end}
use c_loyha.Vmm.{Vmm, vmm_translate}
use c_loyha.Vmm.Tree.{Places}
use c_loyha.Vmm.Space.{Space}
use c_loyha.Vmm.Mapping.{page_of}
use c_loyha.Fault.{prot_write, fault_page, region_at, prefault_from}
use c_loyha.Fault.Entry.{UserData, SameData}
use c_loyha.Fault.Outcome.{Answered, FaultDone}
use c_loyha.Fault.Touch.{KnowsNx}
use c_loyha.Fault.Shared.{FaultOutcome}
use c_loyha.Fault.Handling.{fault_page-FaultOutcome}

-- What the loop leaves: an address space in order, the data as it was, the pages below the first one
-- translated as before, and access to each page of the range where all went well.
pub record Prefaulted (st : Vmm) (root : ℕ) (place : Places) (page fin : ℕ) (write ok : Bool)
    (st' : Vmm) : Type 0 where
  pub place' : Places
  pub space : Space st' root place'
  pub user : UserData st' place'
  pub same_data : SameData st place st' place'
  pub earlier :
      (a : ℕ) → a < page → vmm_translate st' (root * 4096) a ≡ vmm_translate st (root * 4096) a
  pub served :
      ok ≡ true
      → (a : ℕ) → a % page_size ≡ 0
      → page ≤ a
      → a < fin
      → Answered st' (root * 4096) a write

-- A panic is only for a page of the range that is mapped without being counted, when the loop has made
-- the pages before it accessible.
unfoldable pub PrefaultOutcome :
    Vmm → ℕ → Places → ℕ → ℕ → Bool → Option (Bool × List Vma × Vmm) → Type 0
PrefaultOutcome st root place page fin write none =
    (st1 : Vmm) × (a : ℕ) × (page ≤ a)
    × (a < fin)
    × (before : Prefaulted st root place page a write true st1) × FaultOutcome st1 root
        (Prefaulted.place' before) a write none
PrefaultOutcome st root place page fin write (some (ok, vmas, st')) =
    Prefaulted st root place page fin write ok st'

-- Nothing is done any more.
abbrev ended :
    (st : Vmm) (root : ℕ) (place : Places) (page fin : ℕ) (write ok : Bool)
    → Space st root place
    → UserData st place
    → (ok ≡ true → fin ≤ page)
    → Prefaulted st root place page fin write ok st
ended st root place page fin write ok space user done = record {
  place' = place;
  space = space;
  user = user;
  same_data = λ f is_data. (is_data, λ j less. refl);
  earlier = λ a less. refl;
  served = λ yes a aligned from below. absurd (omega (arith, done yes, from, below));
}

other_pages :
    (a page : ℕ)
    → page % page_size ≡ 0
    → a < page
    → page < user_space_end
    → page_of a ≢ page_of page
other_pages a page aligned less low same = omega arith

-- A fault that was refused ends the loop.
stopped :
    (st st1 : Vmm) (root : ℕ) (place : Places) (page fin : ℕ) (write : Bool)
    → page % page_size ≡ 0
    → page < user_space_end
    → FaultDone st root place page write false st1
    → Prefaulted st root place page fin write false st1
stopped st st1 root place page fin write aligned low one = record {
  place' = FaultDone.place' one;
  space = FaultDone.space one;
  user = FaultDone.user one;
  same_data = FaultDone.same_data one;
  earlier = λ a less. FaultDone.others one a (other_pages a page aligned less low);
  served = λ yes. absurd cc;
}

from_or_after :
    (a page : ℕ)
    → a % page_size ≡ 0
    → page % page_size ≡ 0
    → page ≤ a
    → (a ≡ page) ⊎ (page + page_size ≤ a)
from_or_after a page on_page aligned from = elim (ℕ_discrete a page) [
  | yes e ↦ inl e
  | no ne ↦ inr (omega arith)
]

-- A page, and then the pages after it.
abbrev and_then :
    (st st1 st' : Vmm) (root : ℕ) (place : Places) (page fin : ℕ) (write ok : Bool)
    → page % page_size ≡ 0
    → page < user_space_end
    → (one : FaultDone st root place page write true st1)
    → Prefaulted st1 root (FaultDone.place' one) (page + page_size) fin write ok st'
    → Prefaulted st root place page fin write ok st'
and_then st st1 st' root place page fin write ok aligned low one rest = record {
  place' = Prefaulted.place' rest;
  space = Prefaulted.space rest;
  user = Prefaulted.user rest;
  same_data = λ f is_data.
      let (between, first) = FaultDone.same_data one f is_data in
      let (last, second) = Prefaulted.same_data rest f between in
      (last, λ j less. second j less ∙ first j less);
  earlier = λ a less.
      Prefaulted.earlier rest a (omega arith)
      ∙ FaultDone.others one a (other_pages a page aligned less low);
  served = λ yes a on_page from below. elim (from_or_after a page on_page aligned from) [
    | inl here ↦
        let (phys, flags, said, writable) = FaultDone.served one refl in
        (
          phys,
          flags,
          ap (λ (x : ℕ). vmm_translate st' (root * 4096) x) here
              ∙ Prefaulted.earlier rest page (omega arith)
              ∙ said,
          writable,
        )
    | inr after ↦ Prefaulted.served rest yes a on_page after below
  ];
}

after_page :
    (st st1 : Vmm) (root : ℕ) (place : Places) (page fin : ℕ) (write : Bool)
    (r : Option (Bool × List Vma × Vmm))
    → page % page_size ≡ 0
    → page < user_space_end
    → (one : FaultDone st root place page write true st1)
    → PrefaultOutcome st1 root (FaultDone.place' one) (page + page_size) fin write r
    → PrefaultOutcome st root place page fin write r
unfolding PrefaultOutcome
after_page st st1 root place page fin write none aligned low one rest =
    let (st2, a, from, below, before, out) = rest in
    (
      st2,
      a,
      omega (arith, from),
      below,
      and_then st st1 st2 root place page a write true aligned low one before,
      out,
    )
after_page st st1 root place page fin write (some (ok, vmas, st')) aligned low one rest =
    and_then st st1 st' root place page fin write ok aligned low one rest

module _ (root fin : ℕ) (write : Bool) (fits : root < 0x10000000000)
    (end : fin ≤ user_space_end) where
  -- The page has been answered, refused, or was a panic.
  answered :
      (fuel : ℕ) (st : Vmm) (place : Places) (page prot : ℕ) (regions : List Vma)
      → page % page_size ≡ 0
      → page < user_space_end
      → page < fin
      → Space st root place
      → UserData st place
      → (r : Option (Bool × Vmm)) → FaultOutcome st root place page write r
      → ((st1 : Vmm)
          → (one : FaultDone st root place page write true st1)
          → PrefaultOutcome st1 root
              (FaultDone.place' one)
              (page + page_size)
              fin
              write
              (prefault_from fuel regions st1 (root * 4096) (page + page_size) fin write))
      → PrefaultOutcome st root place page fin write (elim r [
        | none ↦ none
        | some (ok, st') ↦ elim ok [
          | false ↦ some (false, regions, st')
          | true ↦ prefault_from fuel regions st' (root * 4096) (page + page_size) fin write
        ]
      ])
  unfolding PrefaultOutcome FaultOutcome
  answered fuel st place page prot regions aligned low more space user none out rest = (
    st,
    page,
    omega arith,
    more,
    ended st root place page page write true space user (λ done. omega arith),
    out,
  )
  answered fuel st place page prot regions aligned low more space user (some (false, st1)) out
        rest =
      stopped st st1 root place page fin write aligned low out
  answered fuel st place page prot regions aligned low more space user (some (true, st1)) out rest =
      after_page st st1 root place page fin write
        (prefault_from fuel regions st1 (root * 4096) (page + page_size) fin write) aligned low out
        (rest st1 out)

  pub prefault_from-PrefaultOutcome :
      (fuel : ℕ) (vmas : List Vma) (st : Vmm) (place : Places) (page : ℕ)
      → Space st root place
      → UserData st place
      → KnowsNx st
      → page % page_size ≡ 0
      → fin ≤ page + fuel * page_size
      → PrefaultOutcome st root place page fin write
          (prefault_from fuel vmas st (root * 4096) page fin write)
  unfolding prefault_from PrefaultOutcome
  prefault_from-PrefaultOutcome zero vmas st place page space user nx aligned enough =
      ended st root place page fin write true space user (λ done. omega arith)
  prefault_from-PrefaultOutcome (suc fuel) vmas st place page space user nx aligned enough =
      let regions = (region_at vmas page).0 in
      elim (Bool-cases (ltb page fin)) [
        | inr over ↦
            rw (prefault_from, over)
              (ended st root place page fin write true space user (λ done. ground arith))
        | inl more ↦
            let low : page < user_space_end = ground arith in
            elim (Option-cases (region_at vmas page).1) [
              | inl nowhere ↦
                  rw (prefault_from, more, nowhere)
                    (ended st root place page fin write false space user (λ done. absurd cc))
              | inr (v, found) ↦ elim (Bool-cases (write && not (prot_write v.prot))) [
                | inl against ↦
                    rw (prefault_from, more, found, against)
                      (ended st root place page fin write false space user (λ done. absurd cc))
                | inr fine ↦
                    rw (prefault_from, more, found, fine)
                      (answered fuel st place page v.prot regions aligned low (ground arith) space
                        user (fault_page st (root * 4096) v.prot page write)
                        (fault_page-FaultOutcome st root place page v.prot write space fits user nx
                          (ground arith) (λ wr. ground arith))
                        (λ st1 one.
                          prefault_from-PrefaultOutcome fuel regions st1 (FaultDone.place' one)
                            (page + page_size) (FaultDone.space one) (FaultDone.user one)
                            (subst (λ (x : ℕ). (x ≡ 0) ⊎ (x ≡ 0x8000000000000000))
                              (sym (FaultDone.same_nx one)) nx)
                            (omega arith) (omega arith)))
              ]
            ]
      ]

-- ===== src/Vmm/Walk.antt =====
-- The walk to the last entry of an address: `next_level` and `vmm_get_pte` of kernel/mm/vmm.c.
use c_loyha.Base.{ℕ, zero, suc, ◌+◌, ◌*◌, ◌<◌, ◌≡◌, inl, inr, refl, sym, ap, ◌∙◌, subst, arith}
use c_loyha.Base.{
  Bool, true, false, not, ◌&&◌, ◌==◌, if◌then◌else◌, Bool-cases, Option-cases, Option, none, some,
  eq_of_some,
}
use c_loyha.Vma.{page_size}
use c_loyha.Pmm.{Pmm}
use c_loyha.Pmm.Calls.{alloc_pages, pmm_alloc_page}
use c_loyha.Vmm.{
  Vmm, word, pte_present, pte_huge, pte_addr, index, alloc_table, make_table, next_level, descend,
  vmm_get_pte, is_user_address,
}
use c_loyha.Vmm.Tree.{Places, slot, Tree, frame, prefix, prefix_step, index-lt}
use c_loyha.Vmm.Space.{Space}
use c_loyha.Vmm.Links.{link-Leads}
use c_loyha.Vmm.Tables.{Grown, Leads, not-Grown, Grown-twice, no_table, alloc_page-Grown}

if_true : {A : Type 0} (b : Bool) (x y : A) → b ≡ true → (if b then x else y) ≡ x
if_true true x y e = refl
if_true false x y e = absurd cc

alloc_table-none :
    (st : Vmm)
    → st.use_buddy ≡ true
    → alloc_pages st.pmm 0 true false ≡ none
    → alloc_table st ≡ none
unfolding alloc_table pmm_alloc_page
alloc_table-none st buddy nothing =
    if_true st.use_buddy _ _ buddy ∙ rw (pmm_alloc_page, nothing) refl

alloc_table-some :
    (st : Vmm) (p : ℕ) (pmm : Pmm)
    → st.use_buddy ≡ true
    → alloc_pages st.pmm 0 true false ≡ some (p, pmm)
    → alloc_table st ≡ some (p * page_size, record st { pmm = pmm })
unfolding alloc_table pmm_alloc_page
alloc_table-some st p pmm buddy found =
    if_true st.use_buddy _ _ buddy ∙ rw (pmm_alloc_page, found) refl

make_table_lem :
    (st : Vmm) (root : ℕ) (place : Places) (q l v i : ℕ) (user : Bool)
    → Space st root place
    → place q ≡ some (suc l, v)
    → i < 512
    → pte_present (word st (slot q i)) ≡ false
    → Leads st root place (make_table st (slot q i) user) l (v * 512 + i)
unfolding make_table
make_table_lem st root place q l v i user space at lt absent =
    elim (Option-cases (alloc_pages st.pmm 0 true false)) [
      | inl nothing ↦
          rw (make_table, alloc_table-none st space.buddy nothing)
            (place, not-Grown st root place space, no_table place l (v * 512 + i))
      | inr ((p, pmm), found) ↦ elim (Bool-cases (p * page_size == 0)) [
        | inl null ↦
            rw (make_table, alloc_table-some st p pmm space.buddy found, null)
              (
                place,
                alloc_page-Grown st root place p pmm space found,
                no_table place l (v * 512 + i),
              )
        | inr fine ↦
            rw (make_table, alloc_table-some st p pmm space.buddy found, fine)
              (link-Leads st root place q l v i p pmm user space at lt absent found)
      ]
    ]

next_level_lem :
    (st : Vmm) (root : ℕ) (place : Places) (q l v i : ℕ) (create user : Bool)
    → Space st root place
    → place q ≡ some (suc l, v)
    → i < 512
    → Leads st root place (next_level st (q * 4096) i create user) l (v * 512 + i)
unfolding next_level
next_level_lem st root place q l v i create user space at lt =
    let e = word st (slot q i) in
    let stay : Leads st root place (none, st) l (v * 512 + i) =
      (place, not-Grown st root place space, no_table place l (v * 512 + i)) in
    elim (Bool-cases (pte_present e)) [
      | inl here ↦ elim (Bool-cases (pte_huge e)) [
        | inl large ↦ rw (here, large) stay
        | inr small ↦
            rw (here, small)
              (
                place,
                not-Grown st root place space,
                λ t h. (
                  frame e,
                  sym (eq_of_some h),
                  Tree.child space.tree q l v i at lt here
                      (ap (λ (b : Bool). b && not (suc l == 3)) small),
                ),
              )
      ]
      | inr absent ↦ elim (Bool-cases create) [
        | inl make ↦
            rw (absent, make) (make_table_lem st root place q l v i user space at lt absent)
        | inr only_look ↦ rw (absent, only_look) stay
      ]
    ]

descend_lem :
    (l : ℕ) (st : Vmm) (root : ℕ) (place : Places) (q virt : ℕ) (create user : Bool)
    → Space st root place
    → place q ≡ some (l, prefix l virt)
    → Leads st root place (descend l st (q * 4096) virt create user) 0 (prefix 0 virt)
unfolding descend
descend_lem zero st root place q virt create user space at =
    (place, not-Grown st root place space, λ t h. (q, sym (eq_of_some h), at))
descend_lem (suc l) st root place q virt create user space at =
    let next = next_level st (q * 4096) (index (suc l) virt) create user in
    let (place1, grown, leads) =
      next_level_lem st root place q l (prefix (suc l) virt) (index (suc l) virt) create user space
        at (index-lt (suc l) virt) in
    elim (Option-cases next.0) [
      | inl nothing ↦ rw (descend, nothing) (place1, grown, no_table place1 0 (prefix 0 virt))
      | inr (t, got) ↦
          let (p, address, there) = leads t got in
          let step =
            prefix_step l virt
              (omega (arith, Tree.low space.tree q (suc l) (prefix (suc l) virt) at)) in
          let (place2, more, last) =
            descend_lem l next.1 root place1 p virt create user (Grown.space grown)
              (there ∙ ap (λ (x : ℕ). some (l, x)) (sym step)) in
          rw (descend, got, address)
            (place2, Grown-twice st next.1 _ root place place1 place2 grown more, last)
    ]

-- The entry that `vmm_get_pte` returns is the one of the last table for the address.
abbrev pub EntryOf : Vmm → ℕ → Places → Option ℕ × Vmm → ℕ → Type 0
EntryOf st root place r virt =
    (place' : Places) × Grown st root place r.1 place'
    × ((a : ℕ)
        → r.0 ≡ some a
        → (q : ℕ) × (a ≡ slot q (index 0 virt)) × (place' q ≡ some (0, prefix 0 virt)))

last_entry :
    (st : Vmm) (root : ℕ) (place : Places) (virt : ℕ) (r : Option ℕ × Vmm)
    → Leads st root place r 0 (prefix 0 virt)
    → EntryOf st root place
        (elim r.0 [ none ↦ (none, r.1) | some t ↦ (some (t + 8 * index 0 virt), r.1) ])
        virt
last_entry st root place virt r (place', grown, last) = elim (Option-cases r.0) [
  | inl nothing ↦ rw nothing (place', grown, λ a h. absurd cc)
  | inr (t, got) ↦ rw got (
    place',
    grown,
    λ a h. let (q, address, at) = last t got in (q, sym (eq_of_some h) ∙ omega arith, at),
  )
]

pub vmm_get_pte-EntryOf :
    (st : Vmm) (root : ℕ) (place : Places) (virt : ℕ) (create : Bool)
    → Space st root place
    → root < 0x10000000000
    → EntryOf st root place (vmm_get_pte st (root * 4096) virt create) virt
unfolding vmm_get_pte
vmm_get_pte-EntryOf st root place virt create space fits =
    let user = is_user_address virt in
    let start : pte_addr (root * 4096) ≡ root * 4096 = omega arith in
    last_entry st root place virt (descend 3 st (pte_addr (root * 4096)) virt create user) (
      subst (λ (t : ℕ). Leads st root place (descend 3 st t virt create user) 0 (prefix 0 virt))
        (sym start)
        (descend_lem 3 st root place root virt create user space (Tree.root_place space.tree)))

-- Where it is only looked for, nothing changes.
next_level_look : (st : Vmm) (table i : ℕ) (user : Bool) → (next_level st table i false user).1 ≡ st
unfolding next_level
next_level_look st table i user = elim (Bool-cases (pte_present (word st (table + 8 * i)))) [
  | inl here ↦ elim (Bool-cases (pte_huge (word st (table + 8 * i)))) [
    | inl large ↦ rw (here, large) refl
    | inr small ↦ rw (here, small) refl
  ]
  | inr absent ↦ rw absent refl
]

descend_look :
    (l : ℕ) (st : Vmm) (table virt : ℕ) (user : Bool) → (descend l st table virt false user).1 ≡ st
unfolding descend
descend_look zero st table virt user = refl
descend_look (suc l) st table virt user =
    let next = next_level st table (index (suc l) virt) false user in
    let still : next.1 ≡ st = next_level_look st table (index (suc l) virt) user in
    elim (Option-cases next.0) [
      | inl nothing ↦ rw (descend, nothing) still
      | inr (t, got) ↦ rw (descend, got) (descend_look l next.1 t virt user ∙ still)
    ]

pub vmm_get_pte_look : (st : Vmm) (pml4 virt : ℕ) → (vmm_get_pte st pml4 virt false).1 ≡ st
unfolding vmm_get_pte
vmm_get_pte_look st pml4 virt =
    let user = is_user_address virt in
    let last = descend 3 st (pte_addr pml4) virt false user in
    let still : last.1 ≡ st = descend_look 3 st (pte_addr pml4) virt user in
    elim (Option-cases last.0) [
      | inl nothing ↦ rw (vmm_get_pte, nothing) still
      | inr (t, got) ↦ rw (vmm_get_pte, got) still
    ]

-- ===== src/Vmm/Finding.antt =====
-- The walk to an entry that is there: `vmm_get_pte` of kernel/mm/vmm.c.
use c_loyha.Base.{ℕ, zero, suc, ◌+◌, ◌*◌, ◌/◌, ◌%◌, ◌<◌, ◌≡◌, refl, ap, ◌∙◌, subst, arith}
use c_loyha.Base.{Bool, true, false, Option, none, some}
use c_loyha.Vmm.{
  Vmm, word, pte_present, pte_huge, pte_addr, index, next_level, descend, vmm_get_pte,
  is_user_address,
}
use c_loyha.Vmm.Tree.{Places, slot, Tree, frame, prefix, prefix_step, index-lt}

-- Where the table is there, the walk goes to it and makes nothing.
module _ (st : Vmm) (root : ℕ) (place : Places) (tree : Tree (word st) root place) (virt : ℕ)
    (create user : Bool) where
  next_level_at :
      (p i q : ℕ)
      → pte_present (word st (slot p i)) ≡ true
      → pte_huge (word st (slot p i)) ≡ false
      → frame (word st (slot p i)) ≡ q
      → next_level st (p * 4096) i create user ≡ (some (q * 4096), st)
  unfolding next_level
  next_level_at p i q here small leads =
      rw (here, small) (ap (λ (x : ℕ). (some (x * 4096), st)) leads)

  descend_down :
      (l : ℕ) (p q : ℕ)
      → next_level st (p * 4096) (index (suc l) virt) create user ≡ (some (q * 4096), st)
      → descend (suc l) st (p * 4096) virt create user ≡ descend l st (q * 4096) virt create user
  unfolding descend
  descend_down l p q next =
      ap
        (λ (r : Option ℕ × Vmm). elim r.0 [
          | none ↦ (none, r.1)
          | some t ↦ descend l r.1 t virt create user
        ])
        next

  descend_bottom : (q : ℕ) → descend 0 st (q * 4096) virt create user ≡ (some (q * 4096), st)
  unfolding descend
  descend_bottom q = refl

  descend_step :
      (l q : ℕ)
      → l < 3
      → place q ≡ some (l, prefix l virt)
      → (p : ℕ) × (place p ≡ some (suc l, prefix (suc l) virt))
        × (descend (suc l) st (p * 4096) virt create user
            ≡ descend l st (q * 4096) virt create user)
  descend_step l q less at =
      let (p, above, here, small, down) = Tree.parent tree q l (prefix l virt) at less in
      let step = prefix_step l virt less in
      let path : prefix l virt / 512 ≡ prefix (suc l) virt =
        omega (arith, step, index-lt (suc l) virt) in
      let idx : prefix l virt % 512 ≡ index (suc l) virt =
        omega (arith, step, index-lt (suc l) virt) in
      let e = word st (slot p (index (suc l) virt)) in
      let present : pte_present e ≡ true =
        subst (λ (i : ℕ). pte_present (word st (slot p i)) ≡ true) idx here in
      let flat : pte_huge e ≡ false =
        subst (λ (i : ℕ). pte_huge (word st (slot p i)) ≡ false) idx small in
      let leads : frame e ≡ q = subst (λ (i : ℕ). frame (word st (slot p i)) ≡ q) idx down in
      (
        p,
        above ∙ ap (λ (x : ℕ). some (suc l, x)) path,
        descend_down l p q (next_level_at p (index (suc l) virt) q present flat leads),
      )

  descend_top :
      (up l q : ℕ)
      → l + up ≡ 3
      → place q ≡ some (l, prefix l virt)
      → descend 3 st (root * 4096) virt create user ≡ descend l st (q * 4096) virt create user
  descend_top zero l q sum at =
      let top : l ≡ 3 = omega arith in
      let is_root : q ≡ root =
        Tree.unique tree q root (3, 0) (subst (λ (m : ℕ). place q ≡ some (m, prefix m virt)) top at)
          (Tree.root_place tree) in
      rw (top, is_root) refl
  descend_top (suc up) l q sum at =
      let (p, above, e) = descend_step l q (omega arith) at in
      descend_top up (suc l) p (omega arith) above ∙ e

pub vmm_get_pte_finds :
    (st : Vmm) (root : ℕ) (place : Places) (virt q : ℕ) (create : Bool)
    → Tree (word st) root place
    → root < 0x10000000000
    → place q ≡ some (0, prefix 0 virt)
    → vmm_get_pte st (root * 4096) virt create ≡ (some (slot q (index 0 virt)), st)
unfolding vmm_get_pte
vmm_get_pte_finds st root place virt q create tree fits at =
    let user = is_user_address virt in
    let start : pte_addr (root * 4096) ≡ root * 4096 = omega arith in
    let found : descend 3 st (pte_addr (root * 4096)) virt create user ≡ (some (q * 4096), st) =
      ap (λ (t : ℕ). descend 3 st t virt create user) start
      ∙ descend_top st root place tree virt create user 3 0 q (omega arith) at
      ∙ descend_bottom st root place tree virt create user q in
    ap
      (λ (r : Option ℕ × Vmm). elim r.0 [
        | none ↦ (none, r.1)
        | some t ↦ (some (t + 8 * index 0 virt), r.1)
      ])
      found

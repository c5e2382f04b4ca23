-- ===== src/Vmm/Tree.antt =====
-- The tables of an address space as a tree. A table page has a place: its level, and the indices that lead
-- to it put together as one number.
use c_loyha.Base.{ℕ, zero, suc, ◌+◌, ◌-◌, ◌*◌, ◌/◌, ◌%◌, ◌≤◌, ◌<◌, ◌≡◌, refl, ap, ◌∙◌, subst, arith}
use c_loyha.Base.{Bool, true, false, not, ◌&&◌, ◌==◌, Option, none, some}
use c_loyha.Vmm.{pte_present, pte_huge, index, translate_from}

-- The number of the page in an entry.
abbrev pub frame : ℕ → ℕ
frame e = e / 4096 % 0x10000000000

-- The indices that lead from the root to the table of the level for an address.
abbrev pub prefix : ℕ → ℕ → ℕ
prefix zero v = v / 0x200000 % 0x8000000
prefix (suc zero) v = v / 0x40000000 % 0x40000
prefix (suc (suc zero)) v = v / 0x8000000000 % 512
prefix (suc (suc (suc l))) v = 0

pub prefix_step : (l v : ℕ) → l < 3 → prefix l v ≡ prefix (suc l) v * 512 + index (suc l) v
prefix_step zero v lt = omega arith
prefix_step (suc zero) v lt = omega arith
prefix_step (suc (suc zero)) v lt = omega arith
prefix_step (suc (suc (suc l))) v lt = absurd (omega arith)

pub index-lt : (l v : ℕ) → index l v < 512
index-lt zero v = omega arith
index-lt (suc zero) v = omega arith
index-lt (suc (suc zero)) v = omega arith
index-lt (suc (suc (suc l))) v = omega arith

abbrev pub Places : Type 0
Places = ℕ → Option (ℕ × ℕ)

abbrev pub slot : ℕ → ℕ → ℕ
slot q i = q * 4096 + 8 * i

pub record Tree (ram : ℕ → ℕ) (root : ℕ) (place : Places) : Type 0 where
  pub root_place : place root ≡ some (3, 0)
  pub low : (q l v : ℕ) → place q ≡ some (l, v) → l ≤ 3
  pub unique : (q q' : ℕ) (x : ℕ × ℕ) → place q ≡ some x → place q' ≡ some x → q ≡ q'
  pub child :
      (q l v i : ℕ)
      → place q ≡ some (suc l, v)
      → i < 512
      → pte_present (ram (slot q i)) ≡ true
      → (pte_huge (ram (slot q i)) && not (suc l == 3)) ≡ false
      → place (frame (ram (slot q i))) ≡ some (l, v * 512 + i)
  pub parent :
      (q l v : ℕ)
      → place q ≡ some (l, v)
      → l < 3
      → (p : ℕ) × (place p ≡ some (suc l, v / 512))
        × (pte_present (ram (slot p (v % 512))) ≡ true)
        × (pte_huge (ram (slot p (v % 512))) ≡ false)
        × (frame (ram (slot p (v % 512))) ≡ q)

-- One step of the walk down.
pub translate_step :
    (ram : ℕ → ℕ) (l table virt q : ℕ)
    → pte_present (ram (table + 8 * index (suc l) virt)) ≡ true
    → (pte_huge (ram (table + 8 * index (suc l) virt)) && not (suc l == 3)) ≡ false
    → frame (ram (table + 8 * index (suc l) virt)) ≡ q
    → translate_from (suc l) ram table virt ≡ translate_from l ram (q * 4096) virt
unfolding translate_from
translate_step ram l table virt q here small e =
    rw (here, small) (ap (λ (x : ℕ). translate_from l ram (x * 4096) virt) e)

pub translate_absent :
    (ram : ℕ → ℕ) (l table virt : ℕ)
    → pte_present (ram (table + 8 * index l virt)) ≡ false
    → translate_from l ram table virt ≡ none
unfolding translate_from
translate_absent ram zero table virt absent = rw absent refl
translate_absent ram (suc l) table virt absent = rw absent refl

-- The walk for an address goes through the table that is at its place.
module _ (ram : ℕ → ℕ) (root : ℕ) (place : Places) (tree : Tree ram root place) where
  translate_up :
      (l q virt : ℕ)
      → l < 3
      → place q ≡ some (l, prefix l virt)
      → (p : ℕ) × (place p ≡ some (suc l, prefix (suc l) virt))
        × (translate_from (suc l) ram (p * 4096) virt ≡ translate_from l ram (q * 4096) virt)
  translate_up l q virt lt at =
      let (p, above, here, small, down) = tree.parent q l (prefix l virt) at lt in
      let step = prefix_step l virt lt in
      let path : prefix l virt / 512 ≡ prefix (suc l) virt =
        omega (arith, step, index-lt (suc l) virt) in
      let idx : prefix l virt % 512 ≡ index (suc l) virt =
        omega (arith, step, index-lt (suc l) virt) in
      (
        p,
        above ∙ ap (λ (x : ℕ). some (suc l, x)) path,
        translate_step ram l (p * 4096) virt q
            (subst (λ (i : ℕ). pte_present (ram (slot p i)) ≡ true) idx here)
            (ap (λ (b : Bool). b && not (suc l == 3))
              (subst (λ (i : ℕ). pte_huge (ram (slot p i)) ≡ false) idx small))
            (subst (λ (i : ℕ). frame (ram (slot p i)) ≡ q) idx down),
      )

  -- `up` more levels lead to the root.
  translate_top :
      (up l q virt : ℕ)
      → l + up ≡ 3
      → place q ≡ some (l, prefix l virt)
      → translate_from 3 ram (root * 4096) virt ≡ translate_from l ram (q * 4096) virt
  translate_top zero l q virt sum at =
      let top : l ≡ 3 = omega arith in
      let is_root : q ≡ root =
        tree.unique q root (3, 0) (subst (λ (m : ℕ). place q ≡ some (m, prefix m virt)) top at)
          tree.root_place in
      rw (top, is_root) refl
  translate_top (suc up) l q virt sum at =
      let (p, above, e) = translate_up l q virt (omega arith) at in
      translate_top up (suc l) p virt (omega arith) above ∙ e

  pub translate_at :
      (l q virt : ℕ)
      → place q ≡ some (l, prefix l virt)
      → translate_from 3 ram (root * 4096) virt ≡ translate_from l ram (q * 4096) virt
  translate_at l q virt at =
      translate_top (3 - l) l q virt (omega (arith, tree.low q l (prefix l virt) at)) at

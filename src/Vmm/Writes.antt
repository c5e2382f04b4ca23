-- ===== src/Vmm/Writes.antt =====
-- What a write to an entry does to the tree of the tables, and to the translation of each address.
use c_loyha.Base.{
  ℕ, zero, suc, ◌+◌, ◌*◌, ◌/◌, ◌%◌, ◌<◌, ◌≡◌, ◌≢◌, ◌⊎◌, inl, inr, refl, sym, ap, ◌∙◌, subst, arith,
}
use c_loyha.Base.{true, false, not, ◌&&◌, ◌==◌, Bool-cases, Option, some, eq_of_some}
use native.Mathlib.Decide.{ℕ_discrete}
use c_loyha.Vmm.{pte_present, pte_huge, index, write_at, translate_from}
use c_loyha.Vmm.Tree.{frame, prefix, prefix_step, index-lt, Places, slot, Tree}

pub write_same : (ram : ℕ → ℕ) (a w : ℕ) → write_at ram a w a ≡ w
write_same ram a w = ground arith

pub write_other : (ram : ℕ → ℕ) (a w b : ℕ) → b ≢ a → write_at ram a w b ≡ ram b
write_other ram a w b ne = ground arith

-- Whether an entry is the one that is written.
pub slot_cases :
    (q i q' i' : ℕ) → i < 512 → i' < 512 → ((q' ≡ q) × (i' ≡ i)) ⊎ (slot q' i' ≢ slot q i)
slot_cases q i q' i' lt lt' = elim (ℕ_discrete q' q) [
  | yes e ↦ elim (ℕ_discrete i' i) [ yes f ↦ inl (e, f) | no ne ↦ inr (λ h. ne (omega arith)) ]
  | no ne ↦ inr (λ h. ne (omega arith))
]

pub level_eq : {l m v u : ℕ} → ◌≡◌ {A = Option (ℕ × ℕ)} (some (l, v)) (some (m, u)) → l ≡ m
level_eq h = ap (λ (x : ℕ × ℕ). x.0) (eq_of_some h)

pub path_eq : {l m v u : ℕ} → ◌≡◌ {A = Option (ℕ × ℕ)} (some (l, v)) (some (m, u)) → v ≡ u
path_eq h = ap (λ (x : ℕ × ℕ). x.1) (eq_of_some h)

-- Walks over two memories that agree on what matters to the tables.
pub translate_same :
    (ram ram' : ℕ → ℕ) (root : ℕ) (place : Places) (virt l q : ℕ)
    → Tree ram root place
    → ((m p : ℕ)
        → place p ≡ some (m, prefix m virt)
        → ram' (slot p (index m virt)) ≡ ram (slot p (index m virt)))
    → place q ≡ some (l, prefix l virt)
    → translate_from l ram' (q * 4096) virt ≡ translate_from l ram (q * 4096) virt
unfolding translate_from
translate_same ram ram' root place virt zero q tree same at = rw (same 0 q at) refl
translate_same ram ram' root place virt (suc l) q tree same at =
    let e = ram (slot q (index (suc l) virt)) in
    elim (Bool-cases (pte_present e)) [
      | inl here ↦ elim (Bool-cases (pte_huge e && not (suc l == 3))) [
        | inl large ↦ rw (same (suc l) q at, here, large) refl
        | inr small ↦
            let next : place (frame e) ≡ some (l, prefix l virt) =
              tree.child q l (prefix (suc l) virt) (index (suc l) virt) at (index-lt (suc l) virt)
                here small
              ∙ ap (λ (x : ℕ). some (l, x))
                  (sym (
                    prefix_step l virt
                      (omega (arith, tree.low q (suc l) (prefix (suc l) virt) at)))) in
            rw (same (suc l) q at, here, small)
              (translate_same ram ram' root place virt l (frame e) tree same next)
      ]
      | inr absent ↦ rw (same (suc l) q at, absent) refl
    ]

-- A last entry is written.
module _ (ram : ℕ → ℕ) (root : ℕ) (place : Places) (q i v w : ℕ) (tree : Tree ram root place)
    (at : place q ≡ some (0, v)) (lt : i < 512) where
  upper_same :
      (p l u j : ℕ)
      → place p ≡ some (suc l, u)
      → j < 512
      → write_at ram (slot q i) w (slot p j) ≡ ram (slot p j)
  upper_same p l u j above less = elim (slot_cases q i p j lt less) [
    | inl (e, f) ↦
        let levels : suc l ≡ 0 = level_eq (sym above ∙ ap place e ∙ at) in absurd (omega arith)
    | inr ne ↦ write_other ram (slot q i) w (slot p j) ne
  ]

  pub leaf-Tree : Tree (write_at ram (slot q i) w) root place
  leaf-Tree = record {
    root_place = tree.root_place;
    low = tree.low;
    unique = tree.unique;
    child = λ p l u j above less.
        subst
          (λ (e : ℕ).
            pte_present e ≡ true
            → (pte_huge e && not (suc l == 3)) ≡ false
            → place (frame e) ≡ some (l, u * 512 + j))
          (sym (upper_same p l u j above less)) (tree.child p l u j above less);
    parent = λ p l u here less.
        let (p', above, present, small, down) = tree.parent p l u here less in
        let keep = sym (upper_same p' l (u / 512) (u % 512) above (omega arith)) in
        (
          p',
          above,
          subst (λ (e : ℕ). pte_present e ≡ true) keep present,
          subst (λ (e : ℕ). pte_huge e ≡ false) keep small,
          subst (λ (e : ℕ). frame e ≡ p) keep down,
        );
  }

  not_both :
      (m virt : ℕ)
      → m ≡ 0
      → prefix m virt ≡ v
      → index m virt ≡ i
      → (prefix 0 virt ≢ v) ⊎ (index 0 virt ≢ i)
      → ⊥
  not_both zero virt z path idx (inl ne) = ne path
  not_both zero virt z path idx (inr ne) = ne idx
  not_both (suc m) virt z path idx apart = absurd (omega arith)

  -- Every address but those of the entry is translated as before.
  pub leaf-translate :
      (virt : ℕ)
      → (prefix 0 virt ≢ v) ⊎ (index 0 virt ≢ i)
      → translate_from 3 (write_at ram (slot q i) w) (root * 4096) virt
        ≡ translate_from 3 ram (root * 4096) virt
  leaf-translate virt apart =
      translate_same ram (write_at ram (slot q i) w) root place virt 3 root tree
        (λ m p here. elim (slot_cases q i p (index m virt) lt (index-lt m virt)) [
          | inl (e, f) ↦
              let same_place : ◌≡◌ {A = Option (ℕ × ℕ)} (some (m, prefix m virt)) (some (0, v)) =
                sym here ∙ ap place e ∙ at in
              absurd (not_both m virt (level_eq same_place) (path_eq same_place) f apart)
          | inr ne ↦ write_other ram (slot q i) w (slot p (index m virt)) ne
        ])
        tree.root_place

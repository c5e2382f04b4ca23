-- ===== src/Vmm/Linking.antt =====
-- A new table is linked into the tree of the tables.
use c_loyha.Base.{
  ℕ, suc, ◌+◌, ◌*◌, ◌/◌, ◌%◌, ◌≤◌, ◌<◌, ◌≡◌, ◌≢◌, ◌⊎◌, inl, inr, sym, ap, ap₂, ◌∙◌, subst, arith,
}
use c_loyha.Base.{true, false, not, ◌&&◌, ◌==◌, Option, none, some, eq_of_some}
use native.Mathlib.Decide.{ℕ_discrete}
use c_loyha.Pmm.{update}
use c_loyha.Vmm.{pte_present, pte_huge, index, write_at, translate_from}
use c_loyha.Vmm.Tree.{frame, prefix, prefix_step, index-lt, Places, slot, Tree}
use c_loyha.Vmm.Tree.{translate_absent, translate_at}
use c_loyha.Vmm.Writes.{write_same, write_other, slot_cases, level_eq, path_eq, translate_same}

-- A table is linked in: an entry that was absent leads to a page of zeros that had no place.
module _ (ram : ℕ → ℕ) (root : ℕ) (place : Places) (q i l v p w : ℕ) (tree : Tree ram root place)
    (at : place q ≡ some (suc l, v)) (lt : i < 512) (absent : pte_present (ram (slot q i)) ≡ false)
    (fresh : place p ≡ none) (empty : (j : ℕ) → j < 512 → pte_present (ram (slot p j)) ≡ false)
    (present : pte_present w ≡ true) (small : pte_huge w ≡ false) (leads : frame w ≡ p) where
  abbrev linked : ℕ → ℕ
  linked = write_at ram (slot q i) w

  abbrev placed : Places
  placed = update place p (some (l, v * 512 + i))

  not_placed : (p' : ℕ) (x : ℕ × ℕ) → place p' ≡ some x → p' ≢ p
  not_placed p' x here e = let nothing : none ≡ some x = sym fresh ∙ ap place (sym e) ∙ here in cc

  placed_old : (p' : ℕ) → p' ≢ p → placed p' ≡ place p'
  placed_old p' ne = ground arith

  placed_new : placed p ≡ some (l, v * 512 + i)
  placed_new = ground arith

  contrary : true ≡ false → ⊥
  contrary h = cc

  q_is_not_p : q ≢ p
  q_is_not_p = not_placed q (suc l, v) at

  placed_cases :
      (p' : ℕ) (x : ℕ × ℕ)
      → placed p' ≡ some x
      → ((p' ≡ p) × ((l, v * 512 + i) ≡ x)) ⊎ ((p' ≢ p) × (place p' ≡ some x))
  placed_cases p' x here = elim (ℕ_discrete p' p) [
    | yes e ↦ inl (e, eq_of_some (sym placed_new ∙ ap placed (sym e) ∙ here))
    | no ne ↦ inr (ne, sym (placed_old p' ne) ∙ here)
  ]

  -- No other table was at the place of the new one.
  no_twin : (p' : ℕ) → place p' ≡ some (l, v * 512 + i) → ⊥
  no_twin p' here =
      let (p0, above, was, _, _) =
        tree.parent p' l (v * 512 + i) here (omega (arith, tree.low q (suc l) v at)) in
      let same : p0 ≡ q =
        tree.unique p0 q (suc l, v) (above ∙ ap (λ (x : ℕ). some (suc l, x)) (omega arith)) at in
      let entry : slot p0 ((v * 512 + i) % 512) ≡ slot q i = omega arith in
      contrary (sym was ∙ ap (λ (a : ℕ). pte_present (ram a)) entry ∙ absent)

  linked_unique : (p' p'' : ℕ) (x : ℕ × ℕ) → placed p' ≡ some x → placed p'' ≡ some x → p' ≡ p''
  linked_unique p' p'' x here there = elim (placed_cases p' x here) [
    | inl (e, is) ↦ elim (placed_cases p'' x there) [
      | inl (e', _) ↦ e ∙ sym e'
      | inr (_, at') ↦ absurd (no_twin p'' (at' ∙ ap some (sym is)))
    ]
    | inr (_, at') ↦ elim (placed_cases p'' x there) [
      | inl (e', is) ↦ absurd (no_twin p' (at' ∙ ap some (sym is)))
      | inr (_, at'') ↦ tree.unique p' p'' x at' at''
    ]
  ]

  linked_low : (p' m u : ℕ) → placed p' ≡ some (m, u) → m ≤ 3
  linked_low p' m u here = elim (placed_cases p' (m, u) here) [
    | inl (_, is) ↦
        let level : l ≡ m = ap (λ (x : ℕ × ℕ). x.0) is in omega (arith, tree.low q (suc l) v at)
    | inr (_, at') ↦ tree.low p' m u at'
  ]

  new_is_empty : (j : ℕ) → j < 512 → pte_present (linked (slot p j)) ≡ false
  new_is_empty j less = elim (slot_cases q i p j lt less) [
    | inl (e, _) ↦ absurd (q_is_not_p (sym e))
    | inr ne ↦
        ap (λ (e : ℕ). pte_present e) (write_other ram (slot q i) w (slot p j) ne) ∙ empty j less
  ]

  linked_child :
      (p' m u j : ℕ)
      → placed p' ≡ some (suc m, u)
      → j < 512
      → pte_present (linked (slot p' j)) ≡ true
      → (pte_huge (linked (slot p' j)) && not (suc m == 3)) ≡ false
      → placed (frame (linked (slot p' j))) ≡ some (m, u * 512 + j)
  linked_child p' m u j here less = elim (placed_cases p' (suc m, u) here) [
    | inl (e, _) ↦ λ is_there not_huge. absurd (
        contrary
          (sym is_there ∙ ap (λ (x : ℕ). pte_present (linked (slot x j))) e ∙ new_is_empty j less))
    | inr (_, at') ↦ elim (slot_cases q i p' j lt less) [
      | inl (e, f) ↦ λ is_there not_huge.
          let places : ◌≡◌ {A = Option (ℕ × ℕ)} (some (suc l, v)) (some (suc m, u)) =
            sym at ∙ ap place (sym e) ∙ at' in
          let levels : l ≡ m = omega (arith, level_eq places) in
          let paths : v ≡ u = path_eq places in
          let entry : linked (slot p' j) ≡ w =
            ap linked (omega arith) ∙ write_same ram (slot q i) w in
          ap (λ (x : ℕ). placed (frame x)) entry
          ∙ ap placed leads
          ∙ placed_new
          ∙ ap (λ (x : ℕ × ℕ). some x) (ap₂ (λ (x y : ℕ). (x, y)) levels (omega arith))
      | inr ne ↦
          subst
            (λ (e : ℕ).
              pte_present e ≡ true
              → (pte_huge e && not (suc m == 3)) ≡ false
              → placed (frame e) ≡ some (m, u * 512 + j))
            (sym (write_other ram (slot q i) w (slot p' j) ne))
            (λ is_there not_huge.
              let old = tree.child p' m u j at' less is_there not_huge in
              placed_old (frame (ram (slot p' j)))
                (not_placed (frame (ram (slot p' j))) (m, u * 512 + j) old)
              ∙ old)
    ]
  ]

  linked_parent :
      (p' m u : ℕ)
      → placed p' ≡ some (m, u)
      → m < 3
      → (p0 : ℕ) × (placed p0 ≡ some (suc m, u / 512))
        × (pte_present (linked (slot p0 (u % 512))) ≡ true)
        × (pte_huge (linked (slot p0 (u % 512))) ≡ false)
        × (frame (linked (slot p0 (u % 512))) ≡ p')
  linked_parent p' m u here less = elim (placed_cases p' (m, u) here) [
    | inl (e, is) ↦
        let level : l ≡ m = ap (λ (x : ℕ × ℕ). x.0) is in
        let path : v * 512 + i ≡ u = ap (λ (x : ℕ × ℕ). x.1) is in
        let entry : linked (slot q (u % 512)) ≡ w =
          ap linked (omega arith) ∙ write_same ram (slot q i) w in
        (
          q,
          placed_old q q_is_not_p
              ∙ at
              ∙ ap (λ (x : ℕ × ℕ). some x) (ap₂ (λ (x y : ℕ). (suc x, y)) level (omega arith)),
          ap (λ (x : ℕ). pte_present x) entry ∙ present,
          ap (λ (x : ℕ). pte_huge x) entry ∙ small,
          ap (λ (x : ℕ). frame x) entry ∙ leads ∙ sym e,
        )
    | inr (_, at') ↦
        let (p0, above, was, flat, down) = tree.parent p' m u at' less in
        let keep : ram (slot p0 (u % 512)) ≡ linked (slot p0 (u % 512)) = sym (
          write_other ram (slot q i) w (slot p0 (u % 512)) (λ same.
            absurd (contrary (sym was ∙ ap (λ (a : ℕ). pte_present (ram a)) same ∙ absent)))) in
        (
          p0,
          placed_old p0 (not_placed p0 (suc m, u / 512) above) ∙ above,
          subst (λ (e : ℕ). pte_present e ≡ true) keep was,
          subst (λ (e : ℕ). pte_huge e ≡ false) keep flat,
          subst (λ (e : ℕ). frame e ≡ p') keep down,
        )
  ]

  pub link-Tree : Tree linked root placed
  link-Tree = record {
    root_place = placed_old root (not_placed root (3, 0) tree.root_place) ∙ tree.root_place;
    low = linked_low;
    unique = linked_unique;
    child = linked_child;
    parent = linked_parent;
  }

  around :
      (virt : ℕ)
      → (prefix (suc l) virt ≡ v → index (suc l) virt ≡ i → ⊥)
      → translate_from 3 linked (root * 4096) virt ≡ translate_from 3 ram (root * 4096) virt
  around virt apart =
      translate_same ram linked root place virt 3 root tree
        (λ m p' here. elim (slot_cases q i p' (index m virt) lt (index-lt m virt)) [
          | inl (e, f) ↦
              let places : ◌≡◌ {A = Option (ℕ × ℕ)} (some (m, prefix m virt)) (some (suc l, v)) =
                sym here ∙ ap place e ∙ at in
              let level : m ≡ suc l = level_eq places in
              absurd (
                apart (ap (λ (k : ℕ). prefix k virt) (sym level) ∙ path_eq places)
                  (ap (λ (k : ℕ). index k virt) (sym level) ∙ f))
          | inr ne ↦ write_other ram (slot q i) w (slot p' (index m virt)) ne
        ])
        tree.root_place

  through_new :
      (virt : ℕ)
      → prefix (suc l) virt ≡ v
      → index (suc l) virt ≡ i
      → translate_from 3 linked (root * 4096) virt ≡ translate_from 3 ram (root * 4096) virt
  through_new virt path idx =
      let old : translate_from 3 ram (root * 4096) virt ≡ none =
        translate_at ram root place tree (suc l) q virt
          (at ∙ ap (λ (x : ℕ). some (suc l, x)) (sym path))
        ∙ translate_absent ram (suc l) (q * 4096) virt
            (ap (λ (j : ℕ). pte_present (ram (slot q j))) idx ∙ absent) in
      let step = prefix_step l virt (omega (arith, tree.low q (suc l) v at)) in
      let new : translate_from 3 linked (root * 4096) virt ≡ none =
        translate_at linked root placed link-Tree l p virt
          (placed_new ∙ ap (λ (x : ℕ). some (l, x)) (omega arith))
        ∙ translate_absent linked l (p * 4096) virt
            (new_is_empty (index l virt) (index-lt l virt)) in
      new ∙ sym old

  -- No address is translated otherwise: those of the new table were not mapped, and are not.
  pub link-translate :
      (virt : ℕ)
      → translate_from 3 linked (root * 4096) virt ≡ translate_from 3 ram (root * 4096) virt
  link-translate virt = elim (ℕ_discrete (prefix (suc l) virt) v) [
    | yes path ↦ elim (ℕ_discrete (index (suc l) virt) i) [
      | yes idx ↦ through_new virt path idx
      | no ne ↦ around virt (λ e f. ne f)
    ]
    | no ne ↦ around virt (λ e f. ne e)
  ]

-- ===== src/Vma/Stack.antt =====
-- `grow_stack`: the region of the stack grows down to an address below it.
use c_loyha.Base.{ℕ, ◌+◌, ◌-◌, ◌*◌, ◌≤◌, ◌<◌, ◌≡◌, ◌≢◌, arith, Bool}
use c_loyha.Base.{
  true, false, ◌||◌, ◌==◌, leb, ltb, if◌then◌else◌, Bool-cases, inl, inr, Option, ◌⊎◌, subst,
}
use c_loyha.Base.{none, some, List, [], ◌∷◌, Option-cases, bit_and, eq_of_some}
use c_loyha.Vma.{Vma, u64, align_down, page_size, user_space_end, user_space_start, find_vma}
use c_loyha.Vma.Find.{Sorted, Sorted-low}

-- `VMA_STACK`
abbrev pub vma_stack : ℕ
vma_stack = 2

-- `USER_STACK_TOP - USER_STACK_MAX`
abbrev pub stack_limit : ℕ
stack_limit = user_space_end - 8 * 1048576

-- Whether the region before is nearer than a page.
abbrev pub near : Option Vma → ℕ → Bool
near none new_start = false
near (some prev) new_start = ltb new_start (u64 (prev.end + page_size))

abbrev after : Vma → Option (List Vma) → Option (List Vma)
after v none = none
after v (some vs) = some (v ∷ vs)

-- The loop with the region `prev` behind it: the list with the stack grown.
unfoldable pub grow_from : Option Vma → List Vma → ℕ → Option (List Vma)
grow_from prev [] addr = none
grow_from prev (v ∷ vs) addr =
    let rest = grow_from (some v) vs addr in
    if bit_and v.flags vma_stack == 0 || leb v.start addr
    then after v rest
    else if ltb addr stack_limit
    then none
    else if near prev (align_down addr)
    then none
    else some (record v { start = align_down addr } ∷ vs)

unfoldable pub grow_stack : List Vma → ℕ → Option (List Vma)
grow_stack vs addr = grow_from none vs addr

-- The shape of the list that has grown: regions that are passed over, and the stack.
grow_from_cases :
    (prev : Option Vma) (v : Vma) (vs : List Vma) (addr : ℕ) (out : List Vma)
    → grow_from prev (v ∷ vs) addr ≡ some out
    → ((rest : List Vma) × (grow_from (some v) vs addr ≡ some rest) × (v ∷ rest ≡ out))
      ⊎ ((addr < v.start)
          × (stack_limit ≤ addr)
          × (near prev (align_down addr) ≡ false)
          × (record v { start = align_down addr } ∷ vs ≡ out))
unfolding grow_from
grow_from_cases prev v vs addr out e =
    elim (Bool-cases (bit_and v.flags vma_stack == 0 || leb v.start addr)) [
      | inl passed ↦ elim (Option-cases (grow_from (some v) vs addr)) [
        | inl nothing ↦ absurd (stuck passed nothing e)
        | inr (rest, grown) ↦ inl (rest, grown, eq_of_some (rw (passed, grown) at e))
      ]
      | inr here ↦ inr (ground arith, ground arith, ground arith, ground arith)
    ]
  where
    stuck :
        (bit_and v.flags vma_stack == 0 || leb v.start addr) ≡ true
        → grow_from (some v) vs addr ≡ none
        → grow_from prev (v ∷ vs) addr ≢ some out
    stuck passed nothing e = ground arith

grow_from_empty :
    (prev : Option Vma) (addr : ℕ) (out : List Vma) → grow_from prev [] addr ≢ some out
unfolding grow_from
grow_from_empty prev addr out e = cc

grow_from-Sorted :
    (prev : Option Vma) (vs : List Vma) (low addr : ℕ) (out : List Vma)
    → Sorted low vs
    → (near prev (align_down addr) ≡ false → stack_limit ≤ addr → low ≤ align_down addr)
    → grow_from prev vs addr ≡ some out
    → Sorted low out × (find_vma vs addr ≡ none → find_vma out addr ≢ none)
unfolding find_vma
grow_from-Sorted prev [] low addr out s clear e = absurd (grow_from_empty prev addr out e)
grow_from-Sorted prev (v ∷ vs) low addr out s clear e =
    elim (grow_from_cases prev v vs addr out e) [
      | inl (rest, grown, same) ↦
          let ih =
            grow_from-Sorted (some v) vs v.end addr rest s.2
              (λ gap high. ground (arith, Sorted-low vs v.end s.2)) grown in
          subst
            (λ (o : List Vma).
              Sorted low o × (find_vma (v ∷ vs) addr ≡ none → find_vma o addr ≢ none))
            same ((s.0, s.1, ih.0), λ nowhere e. ground (arith, ih.1))
      | inr (below, high, gap, same) ↦
          subst
            (λ (o : List Vma).
              Sorted low o × (find_vma (v ∷ vs) addr ≡ none → find_vma o addr ≢ none))
            same ((clear gap high, omega (arith, s.1), s.2), λ nowhere e. ground arith)
    ]

-- Growing the stack to an address in no region, where it is allowed, keeps the regions in order, and the address is
-- then in a region.
pub grow_stack-Sorted :
    (vs : List Vma) (addr : ℕ) (out : List Vma)
    → Sorted user_space_start vs
    → find_vma vs addr ≡ none
    → grow_stack vs addr ≡ some out
    → Sorted user_space_start out × (find_vma out addr ≢ none)
unfolding grow_stack
grow_stack-Sorted vs addr out s nowhere e =
    let (sorted, found) =
      grow_from-Sorted none vs user_space_start addr out s (λ gap high. omega arith) e in
    (sorted, found nowhere)

-- ===== src/Pmm/Buddy.antt =====
-- What splitting and merging do to the pages that the lists of a zone cover.
use c_loyha.Base.{ℕ, zero, suc, ◌+◌, ◌-◌, ◌*◌, ◌^◌, ◌≤◌, ◌<◌, ◌≡◌, inl, inr, sym, ap}
use c_loyha.Base.{subst, arith, Bool-cases, eq_of_some, List-cases, true, false, leb}
use c_loyha.Base.{some, List, ◌∷◌}
use c_loyha.Base.Bits.{bit_at, bit_at-le_one}
use c_loyha.Pmm.{Page, Area, list_del, max_order, add_free, del_free, buddy_of, merged}
use c_loyha.Pmm.{cannot_merge, merge_from, buddy_free, split, take_from, buddy_alloc}
use c_loyha.Pmm.Blocks.{
  in_block, cover_list, cover, times, cover_list-del, cover-update, in_block-halves,
  times-del_other,
}
use c_loyha.Pmm.Xor.{pow_mono, bit_xor-two-pow, bit_and-complement}

-- How often the free blocks of a zone cover the page `i`.
unfoldable pub free_cover : Area → ℕ → ℕ
free_cover a i = cover max_order a.zone.free_area i

-- A page of the zone that is flagged as the first of a free block stands in the list of its order.
unfoldable pub Flagged : Area → Type 0
Flagged a =
    (p : ℕ)
    → Page.buddy (a.page p) ≡ true
    → Page.order (a.page p) < max_order
    → a.zone.start_pfn ≤ p
    → p + 2 ^ Page.order (a.page p) ≤ a.zone.end_pfn
    → 0 < times p (a.zone.free_area (Page.order (a.page p)))

free_cover-add_free :
    (a : Area) (p order i : ℕ)
    → order < max_order
    → free_cover (add_free a p order) i ≡ free_cover a i + in_block order p i
unfolding free_cover add_free cover_list
free_cover-add_free a p order i lt =
    omega (arith, cover-update max_order order i a.zone.free_area (p ∷ a.zone.free_area order) lt)

free_cover-del_free :
    (a : Area) (p order i : ℕ)
    → order < max_order
    → 0 < times p (a.zone.free_area order)
    → free_cover (del_free a p order) i + in_block order p i ≡ free_cover a i
unfolding free_cover del_free
free_cover-del_free a p order i lt listed = omega (
  arith,
  cover-update max_order order i a.zone.free_area (list_del p (a.zone.free_area order)) lt,
  cover_list-del order p i (a.zone.free_area order) listed,
)

pub add_free-Flagged :
    (a : Area) (p order : ℕ) → order < max_order → Flagged a → Flagged (add_free a p order)
unfolding Flagged add_free times
add_free-Flagged a p order lt h q flag small start end = ground (arith, h q)

pub del_free-Flagged : (a : Area) (p order : ℕ) → Flagged a → Flagged (del_free a p order)
unfolding Flagged del_free
del_free-Flagged a p order h q flag small start end =
    ground (arith, h q, times-del_other p q (a.zone.free_area order))

-- The same for the numbers of the pages, where `b` is the bit of the order.
halves_of_bit :
    (pfn buddy lower order b i : ℕ)
    → b ≤ 1
    → buddy + 2 * (b * 2 ^ order) ≡ pfn + 2 ^ order
    → lower + b * 2 ^ order ≡ pfn
    → in_block order pfn i + in_block order buddy i ≡ in_block (suc order) lower i
halves_of_bit pfn buddy lower order zero i le flip cut =
    let same : pfn ≡ lower = omega arith in
    let up : buddy ≡ lower + 2 ^ order = omega arith in
    rw (up, same) (in_block-halves order lower i)
halves_of_bit pfn buddy lower order (suc zero) i le flip cut =
    let same : buddy ≡ lower = omega arith in
    let up : pfn ≡ lower + 2 ^ order = omega arith in
    rw (up, same) (omega (arith, in_block-halves order lower i))
halves_of_bit pfn buddy lower order (suc (suc b)) i le flip cut = absurd (omega arith)

-- A block and its buddy are the two halves of the merged block.
buddies_are_halves :
    (pfn order i : ℕ)
    → pfn < 2 ^ 63
    → order < 64
    → in_block order pfn i + in_block order (buddy_of pfn order) i
      ≡ in_block (suc order) (merged pfn order) i
buddies_are_halves pfn order i fits small =
    halves_of_bit pfn (buddy_of pfn order) (merged pfn order) order (bit_at pfn order) i
      (bit_at-le_one order pfn) (bit_xor-two-pow 63 order pfn fits)
      (bit_and-complement 64 order pfn small (omega arith))

merged_fits : (pfn order : ℕ) → pfn < 2 ^ 63 → order < 64 → merged pfn order < 2 ^ 63
merged_fits pfn order fits small =
    omega (arith, bit_and-complement 64 order pfn small (omega arith))

small_order : (order : ℕ) → order < max_order → 2 ^ order < 2048
small_order order lt = pow_mono order 11 lt

mergeable :
    (a : Area) (pfn order : ℕ)
    → Flagged a
    → pfn < 2 ^ 63
    → order < max_order
    → cannot_merge a (buddy_of pfn order) order ≡ false
    → 0 < times (buddy_of pfn order) (a.zone.free_area order)
unfolding cannot_merge Flagged
mergeable a pfn order flagged fits lt free =
    let buddy = buddy_of pfn order in
    let low : buddy < 2 ^ 63 + 2048 =
      omega (arith, bit_xor-two-pow 63 order pfn fits, small_order order lt) in
    let flag : Page.buddy (a.page buddy) ≡ true = ground arith in
    let same : Page.order (a.page buddy) ≡ order = ground arith in
    let start : a.zone.start_pfn ≤ buddy = ground arith in
    let end : buddy + 2 ^ order ≤ a.zone.end_pfn = ground (arith, small_order order lt) in
    subst (λ (o : ℕ). 0 < times buddy (a.zone.free_area o)) same
      (flagged buddy flag (subst (λ (o : ℕ). o < max_order) (sym same) lt) start
        (subst (λ (o : ℕ). buddy + 2 ^ o ≤ a.zone.end_pfn) (sym same) end))

pub free_cover-merge_from :
    (left : ℕ) (a : Area) (pfn order i : ℕ)
    → Flagged a
    → pfn < 2 ^ 63
    → order + left ≡ max_order - 1
    → free_cover (merge_from left a pfn order) i ≡ free_cover a i + in_block order pfn i
unfolding merge_from
free_cover-merge_from zero a pfn order i flagged fits eq =
    free_cover-add_free a pfn order i (omega arith)
free_cover-merge_from (suc left) a pfn order i flagged fits eq =
    let buddy = buddy_of pfn order in
    elim (Bool-cases (cannot_merge a buddy order)) [
      | inl stop ↦ rw stop (free_cover-add_free a pfn order i (omega arith))
      | inr go ↦
          let listed = mergeable a pfn order flagged fits (omega arith) go in
          let deeper =
            free_cover-merge_from left (del_free a buddy order) (merged pfn order) (order + 1) i
              (del_free-Flagged a buddy order flagged) (merged_fits pfn order fits (omega arith))
              (omega arith) in
          let halves : in_block order pfn i + in_block order buddy i
              ≡ in_block (order + 1) (merged pfn order) i =
            subst
              (λ (o : ℕ).
                in_block order pfn i + in_block order buddy i ≡ in_block o (merged pfn order) i)
              (omega arith) (buddies_are_halves pfn order i fits (omega arith)) in
          rw go (
            omega (arith, deeper, free_cover-del_free a buddy order i (omega arith) listed, halves))
    ]

merge_from-Flagged :
    (left : ℕ) (a : Area) (pfn order : ℕ)
    → Flagged a
    → order + left ≡ max_order - 1
    → Flagged (merge_from left a pfn order)
unfolding merge_from
merge_from-Flagged zero a pfn order flagged eq = add_free-Flagged a pfn order (omega arith) flagged
merge_from-Flagged (suc left) a pfn order flagged eq =
    let buddy = buddy_of pfn order in
    elim (Bool-cases (cannot_merge a buddy order)) [
      | inl stop ↦ rw stop (add_free-Flagged a pfn order (omega arith) flagged)
      | inr go ↦ rw go (
          merge_from-Flagged left (del_free a buddy order) (merged pfn order) (order + 1)
            (del_free-Flagged a buddy order flagged) (omega arith))
    ]

free_cover-split :
    (above : ℕ) (a : Area) (p order i : ℕ)
    → order + above < max_order
    → free_cover (split above a p order) i + in_block order p i
      ≡ free_cover a i + in_block (order + above) p i
unfolding split
free_cover-split zero a p order i lt = ap (λ (o : ℕ). free_cover a i + in_block o p i) (omega arith)
free_cover-split (suc above) a p order i lt =
    let o = order + above in
    let upper = free_cover-add_free a (p + 2 ^ o) o i (omega arith) in
    let whole : in_block o p i + in_block o (p + 2 ^ o) i ≡ in_block (order + suc above) p i =
      subst (λ (k : ℕ). in_block o p i + in_block o (p + 2 ^ o) i ≡ in_block k p i) (omega arith)
        (in_block-halves o p i) in
    omega (
      arith,
      free_cover-split above (add_free a (p + 2 ^ o) o) p order i (omega arith),
      upper,
      whole,
    )

split-Flagged :
    (above : ℕ) (a : Area) (p order : ℕ)
    → order + above < max_order
    → Flagged a
    → Flagged (split above a p order)
unfolding split
split-Flagged zero a p order lt flagged = flagged
split-Flagged (suc above) a p order lt flagged =
    split-Flagged above (add_free a (p + 2 ^ (order + above)) (order + above)) p order (omega arith)
      (add_free-Flagged a (p + 2 ^ (order + above)) (order + above) (omega arith) flagged)

-- What an allocation leaves: the block that it returns is what the lists no longer cover.
unfoldable pub Taken : Area → ℕ → ℕ × Area → Type 0
Taken a order (p, a') =
    Flagged a' × ((i : ℕ) → free_cover a' i + in_block order p i ≡ free_cover a i)

take_first :
    (a : Area) (above order p : ℕ) (ps : List ℕ)
    → order + above < max_order
    → Flagged a
    → a.zone.free_area (order + above) ≡ p ∷ ps
    → Taken a order (p, split above (del_free a p (order + above)) p order)
unfolding times Taken
take_first a above order p ps lt flagged eq =
    let o = order + above in
    let listed : 0 < times p (a.zone.free_area o) = rw eq (ground arith) in
    (
      split-Flagged above (del_free a p o) p order lt (del_free-Flagged a p o flagged),
      λ i. omega (
        arith,
        free_cover-split above (del_free a p o) p order i lt,
        free_cover-del_free a p o i lt listed,
      ),
    )

take_from-Taken :
    (left : ℕ) (a : Area) (above order : ℕ) (r : ℕ × Area)
    → order + above + left ≤ max_order
    → Flagged a
    → take_from left a above order ≡ some r
    → Taken a order r
unfolding take_from
take_from-Taken zero a above order r le flagged found = cc
take_from-Taken (suc left) a above order r le flagged found =
    elim (List-cases (a.zone.free_area (order + above))) [
      | inl empty ↦
          take_from-Taken left a (above + 1) order r (omega arith) flagged
            (rw (take_from, empty) at found)
      | inr (p, ps, eq) ↦
          let first : some (p, split above (del_free a p (order + above)) p order) ≡ some r =
            rw (take_from, eq) at found in
          subst (λ (x : ℕ × Area). Taken a order x) (eq_of_some first)
            (take_first a above order p ps (omega arith) flagged eq)
    ]

pub buddy_alloc-Taken :
    (a : Area) (order : ℕ) (r : ℕ × Area)
    → Flagged a
    → buddy_alloc a order ≡ some r
    → Taken a order r
unfolding buddy_alloc take_from
buddy_alloc-Taken a order r flagged found = elim (Bool-cases (leb order max_order)) [
  | inl le ↦ take_from-Taken (max_order - order) a 0 order r (ground arith) flagged found
  | inr gt ↦
      let z : max_order - order ≡ 0 = ground arith in
      let nothing : take_from 0 a 0 order ≡ some r = rw z at found in cc
]

pub buddy_free_lem :
    (a : Area) (pfn order : ℕ)
    → Flagged a
    → pfn < 2 ^ 63
    → order < max_order
    → Flagged (buddy_free a pfn order)
      × ((i : ℕ) → free_cover (buddy_free a pfn order) i ≡ free_cover a i + in_block order pfn i)
unfolding buddy_free
buddy_free_lem a pfn order flagged fits lt = (
  merge_from-Flagged (max_order - 1 - order) a pfn order flagged (omega arith),
  λ i. free_cover-merge_from (max_order - 1 - order) a pfn order i flagged fits (omega arith),
)

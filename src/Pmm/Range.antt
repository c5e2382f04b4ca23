-- ===== src/Pmm/Range.antt =====
-- The work on the lists of a zone stays inside the zone: the blocks that it lists, and the pages that
-- it writes.
use c_loyha.Base.{ℕ, zero, suc, ◌+◌, ◌-◌, ◌*◌, ◌^◌, ◌≤◌, ◌<◌, ◌≡◌, ◌⊎◌, inl, inr, refl, ap, ◌∙◌}
use c_loyha.Base.{subst, arith, Bool-cases, eq_of_some, List-cases, false}
use c_loyha.Base.{some, List, [], ◌∷◌}
use c_loyha.Base.Bits.{bit_at, bit_at-le_one}
use native.Mathlib.Nat.{pow-suc}
use c_loyha.Pmm.{Zone, Area, list_del, max_order, add_free, del_free, buddy_of, merged}
use c_loyha.Pmm.{cannot_merge, merge_from, buddy_free, split, take_from, buddy_alloc}
use c_loyha.Pmm.Blocks.{times}
use c_loyha.Pmm.Xor.{pow_mono, bit_xor-two-pow, bit_and-complement}

-- The pages `start` to `end` hold the block.
abbrev pub Holds : Zone → ℕ → ℕ → Type 0
Holds z order p = (z.start_pfn ≤ p) × (p + 2 ^ order ≤ z.end_pfn)

unfoldable pub Inside : Area → Type 0
Inside a =
    (order p : ℕ) → order < max_order → 0 < times p (a.zone.free_area order) → Holds a.zone order p

-- The second zone has the bounds of the first, lists blocks inside them, and no page outside changed.
unfoldable pub Local : Area → Area → Type 0
Local a b =
    (b.zone.start_pfn ≡ a.zone.start_pfn)
    × (b.zone.end_pfn ≡ a.zone.end_pfn)
    × Inside b
    × ((p : ℕ) → (p < a.zone.start_pfn) ⊎ (a.zone.end_pfn ≤ p) → b.page p ≡ a.page p)

pub Local-trans : (a b c : Area) → Local a b → Local b c → Local a c
unfolding Local
Local-trans a b c (s, e, _, same) (s', e', inside, same') =
    (s' ∙ s, e' ∙ e, inside, λ p out. same' p (ground arith) ∙ same p out)

pub Local-refl : (a : Area) → Inside a → Local a a
unfolding Local
Local-refl a inside = (refl, refl, inside, λ p out. refl)

pub Local-Inside : (a b : Area) → Local a b → Inside b
unfolding Local
Local-Inside a b (_, _, inside, _) = inside

pub Local-Holds :
    (a b : Area) (order p : ℕ) → Local a b → Holds a.zone order p → Holds b.zone order p
unfolding Local
Local-Holds a b order p (s, e, _, _) (low, high) = (omega arith, omega arith)

twice_pow : (o k : ℕ) → k ≡ suc o → 2 ^ k ≡ 2 ^ o * 2
twice_pow o k eq = ap (λ (n : ℕ). 2 ^ n) eq ∙ pow-suc 2 o

pub positive_pow : (k : ℕ) → 0 < 2 ^ k
positive_pow zero = omega arith
positive_pow (suc k) = omega (arith, positive_pow k, pow-suc 2 k)

Local-add_free :
    (a : Area) (p order : ℕ) → Inside a → Holds a.zone order p → Local a (add_free a p order)
unfolding Local Inside add_free times
Local-add_free a p order inside (low, high) = (
  refl,
  refl,
  λ o q lt listed. ground (arith, inside o q lt),
  λ q out. ground (arith, positive_pow order),
)

times-del_le : (p q : ℕ) (ps : List ℕ) → times q (list_del p ps) ≤ times q ps
unfolding list_del times
times-del_le p q [] = omega arith
times-del_le p q (x ∷ xs) = ground (arith, times-del_le p q xs)

Local-del_free :
    (a : Area) (p order : ℕ) → Inside a → Holds a.zone order p → Local a (del_free a p order)
unfolding Local Inside del_free
Local-del_free a p order inside (low, high) = (
  refl,
  refl,
  λ o q lt listed. inside o q lt (ground (arith, times-del_le p q (a.zone.free_area order))),
  λ q out. ground (arith, positive_pow order),
)

-- Both halves of a block inside a range: so is the block. `b` is the bit of the order.
merged_of_bit :
    (z : Zone) (pfn buddy lower order b : ℕ)
    → b ≤ 1
    → buddy + 2 * (b * 2 ^ order) ≡ pfn + 2 ^ order
    → lower + b * 2 ^ order ≡ pfn
    → Holds z order pfn
    → Holds z order buddy
    → Holds z (order + 1) lower
merged_of_bit z pfn buddy lower order zero le flip cut (l, h) (l', h') =
    let twice : 2 ^ (order + 1) ≡ 2 ^ order * 2 = twice_pow order (order + 1) (omega arith) in
    (omega arith, omega (arith, twice))
merged_of_bit z pfn buddy lower order (suc zero) le flip cut (l, h) (l', h') =
    let twice : 2 ^ (order + 1) ≡ 2 ^ order * 2 = twice_pow order (order + 1) (omega arith) in
    (omega arith, omega (arith, twice))
merged_of_bit z pfn buddy lower order (suc (suc b)) le flip cut hp hb = absurd (omega arith)

-- The buddy that is merged, and the block that the two make, are inside the zone.
buddy_of-Holds :
    (a : Area) (pfn order : ℕ)
    → pfn < 2 ^ 63
    → order < max_order
    → Holds a.zone order pfn
    → cannot_merge a (buddy_of pfn order) order ≡ false
    → Holds a.zone order (buddy_of pfn order) × Holds a.zone (order + 1) (merged pfn order)
unfolding cannot_merge
buddy_of-Holds a pfn order fits lt here go =
    let flip = bit_xor-two-pow 63 order pfn fits in
    let small : buddy_of pfn order + 2 ^ order < 2 ^ 63 + 4096 =
      omega (arith, flip, pow_mono order 11 lt) in
    let there : Holds a.zone order (buddy_of pfn order) = (ground arith, ground arith) in
    (
      there,
      merged_of_bit a.zone pfn (buddy_of pfn order) (merged pfn order) order (bit_at pfn order)
          (bit_at-le_one order pfn) flip
          (bit_and-complement 64 order pfn (omega arith) (omega arith)) here there,
    )

pub Local-merge_from :
    (left : ℕ) (a : Area) (pfn order : ℕ)
    → Inside a
    → pfn < 2 ^ 63
    → order + left ≡ max_order - 1
    → Holds a.zone order pfn
    → Local a (merge_from left a pfn order)
unfolding merge_from
Local-merge_from zero a pfn order inside fits eq here = Local-add_free a pfn order inside here
Local-merge_from (suc left) a pfn order inside fits eq here =
    let buddy = buddy_of pfn order in
    elim (Bool-cases (cannot_merge a buddy order)) [
      | inl stop ↦ rw stop (Local-add_free a pfn order inside here)
      | inr go ↦
          let (there, whole) = buddy_of-Holds a pfn order fits (omega arith) here go in
          let deleted = Local-del_free a buddy order inside there in
          let lower : merged pfn order < 2 ^ 63 =
            omega (arith, bit_and-complement 64 order pfn (omega arith) (omega arith)) in
          rw go (
            Local-trans a (del_free a buddy order)
              (merge_from left (del_free a buddy order) (merged pfn order) (order + 1)) deleted
              (Local-merge_from left (del_free a buddy order) (merged pfn order) (order + 1)
                (Local-Inside a (del_free a buddy order) deleted) lower (omega arith)
                (Local-Holds a (del_free a buddy order) (order + 1) (merged pfn order) deleted
                  whole)))
    ]

pub Local-split :
    (above : ℕ) (a : Area) (p order : ℕ)
    → Inside a
    → Holds a.zone (order + above) p
    → Local a (split above a p order) × Holds a.zone order p
unfolding split add_free
Local-split zero a p order inside here =
    (Local-refl a inside, subst (λ (o : ℕ). Holds a.zone o p) (omega arith) here)
Local-split (suc above) a p order inside (low, high) =
    let o = order + above in
    let twice : 2 ^ (order + suc above) ≡ 2 ^ o * 2 =
      twice_pow o (order + suc above) (omega arith) in
    let added = Local-add_free a (p + 2 ^ o) o inside (omega arith, omega (arith, twice)) in
    let b = add_free a (p + 2 ^ o) o in
    let (rest, block) =
      Local-split above b p order (Local-Inside a b added)
        (Local-Holds a b o p added (low, omega (arith, twice))) in
    (Local-trans a b (split above b p order) added rest, block)

-- What an allocation leaves in the zone, and the block that it returns.
unfoldable pub LocalTake : Area → ℕ → ℕ × Area → Type 0
LocalTake a order (p, b) = Local a b × Holds a.zone order p

first_block_lem :
    (a : Area) (above order p : ℕ) (ps : List ℕ)
    → order + above < max_order
    → Inside a
    → a.zone.free_area (order + above) ≡ p ∷ ps
    → LocalTake a order (p, split above (del_free a p (order + above)) p order)
unfolding Inside times LocalTake del_free
first_block_lem a above order p ps lt inside eq =
    let o = order + above in
    let listed : 0 < times p (a.zone.free_area o) = rw eq (ground arith) in
    let here = inside o p lt listed in
    let deleted = Local-del_free a p o inside here in
    let (rest, block) =
      Local-split above (del_free a p o) p order (Local-Inside a (del_free a p o) deleted) here in
    (Local-trans a (del_free a p o) (split above (del_free a p o) p order) deleted rest, block)

take_from-LocalTake :
    (left : ℕ) (a : Area) (above order : ℕ) (r : ℕ × Area)
    → order + above + left ≤ max_order
    → Inside a
    → take_from left a above order ≡ some r
    → LocalTake a order r
unfolding take_from
take_from-LocalTake zero a above order r le inside found = cc
take_from-LocalTake (suc left) a above order r le inside found =
    elim (List-cases (a.zone.free_area (order + above))) [
      | inl empty ↦
          take_from-LocalTake left a (above + 1) order r (omega arith) inside
            (rw (take_from, empty) at found)
      | inr (p, ps, eq) ↦
          let first : some (p, split above (del_free a p (order + above)) p order) ≡ some r =
            rw (take_from, eq) at found in
          subst (λ (x : ℕ × Area). LocalTake a order x) (eq_of_some first)
            (first_block_lem a above order p ps (omega arith) inside eq)
    ]

pub buddy_alloc-LocalTake :
    (a : Area) (order : ℕ) (r : ℕ × Area)
    → order < max_order
    → Inside a
    → buddy_alloc a order ≡ some r
    → LocalTake a order r
unfolding buddy_alloc
buddy_alloc-LocalTake a order r lt inside found =
    take_from-LocalTake (max_order - order) a 0 order r (omega arith) inside found

pub buddy_free-Local :
    (a : Area) (pfn order : ℕ)
    → Inside a
    → pfn < 2 ^ 63
    → order < max_order
    → Holds a.zone order pfn
    → Local a (buddy_free a pfn order)
unfolding buddy_free
buddy_free-Local a pfn order inside fits lt here =
    Local-merge_from (max_order - 1 - order) a pfn order inside fits (omega arith) here

-- ===== src/Pmm/Blocks.antt =====
-- How often the lists of the free blocks cover a page.
use c_loyha.Base.{ℕ, zero, suc, ◌+◌, ◌^◌, ◌≤◌, ◌<◌, ◌≡◌, ◌≢◌, inl, inr, refl, arith, Bool-cases}
use c_loyha.Base.{◌&&◌, ◌==◌, leb, ltb, if◌then◌else◌, List, [], ◌∷◌}
use native.Mathlib.Nat.{pow-suc}
use c_loyha.Pmm.{update, list_del}

-- 1 for a page of the block of an order that begins at `p`, 0 for any other.
abbrev pub in_block : ℕ → ℕ → ℕ → ℕ
in_block order p i = if leb p i && ltb i (p + 2 ^ order) then 1 else 0

unfoldable pub cover_list : ℕ → List ℕ → ℕ → ℕ
cover_list order [] i = 0
cover_list order (p ∷ ps) i = in_block order p i + cover_list order ps i

-- The lists of the orders below `n`.
unfoldable pub cover : ℕ → (ℕ → List ℕ) → ℕ → ℕ
cover zero lists i = 0
cover (suc n) lists i = cover_list n (lists n) i + cover n lists i

-- How often `p` stands in a list.
unfoldable pub times : ℕ → List ℕ → ℕ
times p [] = 0
times p (q ∷ qs) = (if q == p then 1 else 0) + times p qs

pub cover_list-del :
    (order p i : ℕ) (ps : List ℕ)
    → 0 < times p ps
    → cover_list order (list_del p ps) i + in_block order p i ≡ cover_list order ps i
unfolding cover_list list_del times
cover_list-del order p i [] h = absurd (omega arith)
cover_list-del order p i (q ∷ qs) h = elim (Bool-cases (q == p)) [
  | inl e ↦ let same : q ≡ p = ground arith in rw (e, same) (omega arith)
  | inr ne ↦ rw ne (omega (arith, cover_list-del order p i qs (ground arith)))
]

cover-update_above :
    (n k i : ℕ) (lists : ℕ → List ℕ) (ps : List ℕ)
    → n ≤ k
    → cover n (update lists k ps) i ≡ cover n lists i
unfolding cover
cover-update_above zero k i lists ps le = refl
cover-update_above (suc n) k i lists ps le = ground (arith, cover-update_above n k i lists ps)

-- One list of the table is replaced.
pub cover-update :
    (n k i : ℕ) (lists : ℕ → List ℕ) (ps : List ℕ)
    → k < n
    → cover n (update lists k ps) i + cover_list k (lists k) i ≡ cover n lists i + cover_list k ps i
unfolding cover
cover-update zero k i lists ps lt = absurd (omega arith)
cover-update (suc n) k i lists ps lt = elim (Bool-cases (n == k)) [
  | inl e ↦
      let same : n ≡ k = ground arith in
      let below : cover n (update lists k ps) i ≡ cover n lists i =
        cover-update_above n k i lists ps (omega arith) in
      rw (e, below, same) (omega arith)
  | inr ne ↦ rw ne (omega (arith, cover-update n k i lists ps (ground arith)))
]

-- The two halves of a block.
pub in_block-halves :
    (order p i : ℕ)
    → in_block order p i + in_block order (p + 2 ^ order) i ≡ in_block (suc order) p i
in_block-halves order p i = ground (arith, pow-suc 2 order)

pub times-del_other : (p q : ℕ) (ps : List ℕ) → q ≢ p → times q (list_del p ps) ≡ times q ps
unfolding list_del times
times-del_other p q [] ne = refl
times-del_other p q (x ∷ xs) ne = ground (arith, times-del_other p q xs ne)

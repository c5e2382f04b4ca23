-- ===== src/Vma/Find.antt =====
-- Looking up and inserting regions of an ordered list.
use c_loyha.Base.{ℕ, ◌≤◌, ◌<◌, ◌≡◌, refl, arith, true, false}
use c_loyha.Base.{ltb, Bool-cases, inl, inr, none, some}
use c_loyha.Base.{List, [], ◌∷◌}
use c_loyha.Vma.{Vma, contains, find_vma, range_free, insert_vma, user_space_end}

-- Regions from `low` to the end of the user space, in order, none of them empty and no two sharing an
-- address.
abbrev pub Sorted : ℕ → List Vma → Type 0
Sorted low [] = low ≤ user_space_end
Sorted low (v ∷ vs) = (low ≤ v.start) × (v.start < v.end) × Sorted v.end vs

pub Sorted-mono : (vs : List Vma) (low low' : ℕ) → low' ≤ low → Sorted low vs → Sorted low' vs
Sorted-mono [] low low' le s = omega arith
Sorted-mono (v ∷ vs) low low' le s = (omega (arith, s.0), s.1, s.2)

pub Sorted-low : (vs : List Vma) (low : ℕ) → Sorted low vs → low ≤ user_space_end
Sorted-low [] low s = s
Sorted-low (v ∷ vs) low s = omega (arith, s.0, s.1, Sorted-low vs v.end s.2)

pub insert_vma-Sorted :
    (vs : List Vma) (low : ℕ) (nv : Vma)
    → Sorted low vs
    → low ≤ nv.start
    → nv.start < nv.end
    → nv.end ≤ user_space_end
    → range_free vs nv.start nv.end ≡ true
    → Sorted low (insert_vma vs nv)
unfolding range_free insert_vma
insert_vma-Sorted [] low nv s a b c free = (a, b, c)
insert_vma-Sorted (v ∷ vs) low nv s a b c free = elim (Bool-cases (ltb nv.start v.start)) [
  | inl before ↦ rw before (a, b, (ground arith, s.1, s.2))
  | inr after ↦
      rw after (s.0, s.1, insert_vma-Sorted vs v.end nv s.2 (ground arith) b c (ground arith))
]

-- An address below an ordered list is in none of its regions.
pub find_vma_below :
    (vs : List Vma) (low addr : ℕ) → Sorted low vs → addr < low → find_vma vs addr ≡ none
unfolding find_vma
find_vma_below [] low addr s lt = refl
find_vma_below (v ∷ vs) low addr s lt = ground (arith, find_vma_below vs v.end addr s.2)

pub find_vma_free :
    (vs : List Vma) (start fin addr : ℕ)
    → range_free vs start fin ≡ true
    → start ≤ addr
    → addr < fin
    → find_vma vs addr ≡ none
unfolding find_vma range_free
find_vma_free [] start fin addr free a b = refl
find_vma_free (v ∷ vs) start fin addr free a b = ground (arith, find_vma_free vs start fin addr)

-- After an insertion, the new region is found at its addresses and what was found before elsewhere.
pub find_vma-insert_vma :
    (vs : List Vma) (nv : Vma) (addr : ℕ)
    → find_vma vs addr ≡ none
    → contains nv addr ≡ true
    → find_vma (insert_vma vs nv) addr ≡ some nv
unfolding find_vma insert_vma
find_vma-insert_vma [] nv addr free inside = ground arith
find_vma-insert_vma (v ∷ vs) nv addr free inside = ground (arith, find_vma-insert_vma vs nv addr)

pub find_vma-insert_vma_other :
    (vs : List Vma) (nv : Vma) (addr : ℕ)
    → contains nv addr ≡ false
    → find_vma (insert_vma vs nv) addr ≡ find_vma vs addr
unfolding find_vma insert_vma
find_vma-insert_vma_other [] nv addr outside = ground arith
find_vma-insert_vma_other (v ∷ vs) nv addr outside =
    ground (arith, find_vma-insert_vma_other vs nv addr outside)

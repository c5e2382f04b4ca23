-- ===== src/Base/Slice.antt =====
-- A range of an array, which is a function of the index, as a list.
use Prim.Native.Nat.{ℕ, zero, suc, ◌+◌, ◌<◌}
use mathlib.Core.Path.{◌≡◌, refl, ap, ap₂}
use mathlib.Core.List.{List, [], ◌∷◌, ◌++◌}
use c_loyha.Base.Lists.{length}
use native.Mathlib.Omega.{arith}

unfoldable pub slice : (ℕ → ℕ) → ℕ → ℕ → List ℕ
slice mem start zero = []
slice mem start (suc n) = mem start ∷ slice mem (start + 1) n

pub length-slice : (mem : ℕ → ℕ) (start n : ℕ) → length (slice mem start n) ≡ n
unfolding slice
length-slice mem start zero = refl
length-slice mem start (suc n) = ap suc (length-slice mem (start + 1) n)

-- Two ranges with the same elements.
pub slice_same :
    (mem mem' : ℕ → ℕ) (a b n : ℕ)
    → ((i : ℕ) → i < n → mem (a + i) ≡ mem' (b + i))
    → slice mem a n ≡ slice mem' b n
unfolding slice
slice_same mem mem' a b zero h = refl
slice_same mem mem' a b (suc n) h =
    ap₂ ◌∷◌ (ground (arith, h 0))
      (slice_same mem mem' (a + 1) (b + 1) n (λ i lt. next i (h (suc i) (omega arith))))
  where
    next : (i : ℕ) → mem (a + suc i) ≡ mem' (b + suc i) → mem (a + 1 + i) ≡ mem' (b + 1 + i)
    next i h =
        let e : a + 1 + i ≡ a + suc i = omega arith in
        let e' : b + 1 + i ≡ b + suc i = omega arith in rw (e, e') h

pub slice-add :
    (mem : ℕ → ℕ) (a n k : ℕ) → slice mem a (n + k) ≡ slice mem a n ++ slice mem (a + n) k
unfolding slice
slice-add mem a zero k =
    let e : 0 + k ≡ k = omega arith in let e' : a + 0 ≡ a = omega arith in rw (e, e') refl
slice-add mem a (suc n) k =
    let e : suc n + k ≡ suc (n + k) = omega arith in
    let e' : a + suc n ≡ a + 1 + n = omega arith in
    rw (e, e') (ap (λ xs. mem a ∷ xs) (slice-add mem (a + 1) n k))

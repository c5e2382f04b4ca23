-- ===== src/Libc/Ends.antt =====
-- Strings that end: the searches of user/libc/string.c find what they look for, with fuel for every
-- byte up to the end.
use c_loyha.Base.{ℕ, zero, suc, ◌+◌, ◌≤◌, ◌<◌, ◌≡◌, ◌≢◌, ◌⊎◌, inl, inr, subst, arith}
use c_loyha.Base.{Bool, true, false, not, ◌==◌, Bool-cases, none, some}
use native.Mathlib.Decide.{ℕ_discrete}
use c_loyha.Libc.{Bytes, strchr, span}

-- `n` bytes that are not 0, then a 0.
abbrev pub IsString : Bytes → ℕ → ℕ → Type 0
IsString mem s n = (mem (s + n) ≡ 0) × ((i : ℕ) → i < n → mem (s + i) ≢ 0)

abbrev pub AreBytes : Bytes → Type 0
AreBytes mem = (a : ℕ) → mem a < 256

-- The byte `c` is one of the `k` bytes from `set` on, and is none of them.
abbrev pub Among : Bytes → ℕ → ℕ → ℕ → Type 0
Among mem set k c = (j : ℕ) × (j < k) × (mem (set + j) ≡ c)

abbrev pub Absent : Bytes → ℕ → ℕ → ℕ → Type 0
Absent mem set k c = (j : ℕ) → j < k → mem (set + j) ≢ c

pub IsString-next :
    (mem : Bytes) (s n : ℕ) → IsString mem s (suc n) → (mem s ≢ 0) × IsString mem (s + 1) n
IsString-next mem s n (ends, inside) = (
  λ z. inside 0 (omega arith) (subst (λ (p : ℕ). mem p ≡ 0) (omega arith) z),
  (
    subst (λ (p : ℕ). mem p ≡ 0) (omega arith) ends,
    λ i lt z. inside (suc i) (omega arith) (subst (λ (p : ℕ). mem p ≡ 0) (omega arith) z),
  ),
)

IsString-begin : (mem : Bytes) (s : ℕ) → IsString mem s 0 → mem s ≡ 0
IsString-begin mem s (ends, _) = subst (λ (p : ℕ). mem p ≡ 0) (omega arith) ends

Among-next : (mem : Bytes) (set k c : ℕ) → Among mem (set + 1) k c → Among mem set (suc k) c
Among-next mem set k c (j, lt, at) =
    (suc j, omega arith, subst (λ (p : ℕ). mem p ≡ c) (omega arith) at)

Absent-next :
    (mem : Bytes) (set k c : ℕ) → mem set ≢ c → Absent mem (set + 1) k c → Absent mem set (suc k) c
Absent-next mem set k c ne others zero lt at = ne (subst (λ (p : ℕ). mem p ≡ c) (omega arith) at)
Absent-next mem set k c ne others (suc j) lt at =
    others j (omega arith) (subst (λ (p : ℕ). mem p ≡ c) (omega arith) at)

-- The two answers of a search for a byte that is not 0.
pub strchr_lem :
    (bound : ℕ) (mem : Bytes) (set k c : ℕ)
    → IsString mem set k
    → k < bound
    → c < 256
    → c ≢ 0
    → ((at : ℕ) × (strchr bound mem set c ≡ some (some at)) × Among mem set k c)
      ⊎ ((strchr bound mem set c ≡ some none) × Absent mem set k c)
unfolding strchr
strchr_lem zero mem set k c ends lt byte ne = absurd (omega arith)
strchr_lem (suc bound) mem set zero c ends lt byte ne =
    inr (ground (arith, IsString-begin mem set ends), λ j h at. absurd (omega arith))
strchr_lem (suc bound) mem set (suc k) c ends lt byte ne =
    let (other, rest) = IsString-next mem set k ends in
    elim (Bool-cases (mem set == c)) [
      | inl here ↦
          let same : mem set ≡ c = ground arith in
          inl (set, ground arith, (0, omega arith, subst (λ (p : ℕ). mem p ≡ c) (omega arith) same))
      | inr elsewhere ↦ elim (strchr_lem bound mem (set + 1) k c rest (omega arith) byte ne) [
        | inl (at, found, among) ↦ inl (at, ground arith, Among-next mem set k c among)
        | inr (nothing, absent) ↦ inr (ground arith, Absent-next mem set k c (ground arith) absent)
      ]
    ]

-- The bytes that a span goes over.
unfoldable pub Wanted : Bool → Bytes → ℕ → ℕ → ℕ → Type 0
Wanted true mem set k c = Among mem set k c
Wanted false mem set k c = Absent mem set k c

-- A span ends at the first byte that it does not go over.
abbrev pub SpanEnd : Bool → Bytes → ℕ → ℕ → ℕ → ℕ → ℕ → ℕ → Type 0
SpanEnd wanted mem s l set k n r =
    (n ≤ r)
    × (r ≤ l)
    × ((i : ℕ) → n ≤ i → i < r → Wanted wanted mem set k (mem (s + i)))
    × ((r ≡ l) ⊎ ((r < l) × Wanted (not wanted) mem set k (mem (s + r))))

SpanEnd-stop_here :
    (wanted : Bool) (mem : Bytes) (s l set k n : ℕ)
    → n < l
    → Wanted (not wanted) mem set k (mem (s + n))
    → SpanEnd wanted mem s l set k n n
SpanEnd-stop_here wanted mem s l set k n lt w =
    (omega arith, omega arith, λ i a b. absurd (omega arith), inr (lt, w))

SpanEnd-go_on :
    (wanted : Bool) (mem : Bytes) (s l set k n r : ℕ)
    → Wanted wanted mem set k (mem (s + n))
    → SpanEnd wanted mem s l set k (n + 1) r
    → SpanEnd wanted mem s l set k n r
SpanEnd-go_on wanted mem s l set k n r here (le, below, over, stop) = (
  omega arith,
  below,
  λ i a b. elim (ℕ_discrete n i) [
    | yes e ↦ subst (λ (p : ℕ). Wanted wanted mem set k (mem (s + p))) e here
    | no ne ↦ over i (omega arith) b
  ],
  stop,
)

-- One round of a span, with what the rounds after it do.
span_round :
    (fuel bound : ℕ) (wanted : Bool) (mem : Bytes) (s l set k n r : ℕ)
    → AreBytes mem
    → IsString mem set k
    → k < bound
    → mem (s + n) ≢ 0
    → n < l
    → span fuel bound wanted mem s set (n + 1) ≡ some r
    → SpanEnd wanted mem s l set k (n + 1) r
    → (r : ℕ) × (span (suc fuel) bound wanted mem s set n ≡ some r)
      × SpanEnd wanted mem s l set k n r
unfolding span Wanted
span_round fuel bound true mem s l set k n r bytes set_str room char lt rest end =
    elim (strchr_lem bound mem set k (mem (s + n)) set_str room (bytes (s + n)) char) [
      | inl (at, found, among) ↦ (r, ground arith, SpanEnd-go_on true mem s l set k n r among end)
      | inr (nothing, absent) ↦ (n, ground arith, SpanEnd-stop_here true mem s l set k n lt absent)
    ]
span_round fuel bound false mem s l set k n r bytes set_str room char lt rest end =
    elim (strchr_lem bound mem set k (mem (s + n)) set_str room (bytes (s + n)) char) [
      | inl (at, found, among) ↦ (n, ground arith, SpanEnd-stop_here false mem s l set k n lt among)
      | inr (nothing, absent) ↦ (r, ground arith, SpanEnd-go_on false mem s l set k n r absent end)
    ]

-- A span of a string comes to its end, and goes over exactly the bytes that it should.
pub span_lem :
    (fuel bound : ℕ) (wanted : Bool) (mem : Bytes) (s l set k n : ℕ)
    → AreBytes mem
    → IsString mem s l
    → IsString mem set k
    → n ≤ l
    → l < n + fuel
    → k < bound
    → (r : ℕ) × (span fuel bound wanted mem s set n ≡ some r) × SpanEnd wanted mem s l set k n r
unfolding span Wanted
span_lem zero bound wanted mem s l set k n bytes str set_str le enough room = absurd (omega arith)
span_lem (suc fuel) bound wanted mem s l set k n bytes (ends, inside) set_str le enough room =
    elim (ℕ_discrete n l) [
      | yes e ↦
          let at_end : mem (s + n) ≡ 0 = subst (λ (p : ℕ). mem (s + p) ≡ 0) (omega arith) ends in
          (
            n,
            ground (arith, at_end),
            (omega arith, omega arith, λ i a b. absurd (omega arith), inl e),
          )
      | no ne ↦
          let char : mem (s + n) ≢ 0 = inside n (omega arith) in
          let (r, rest, end) =
            span_lem fuel bound wanted mem s l set k (n + 1) bytes (ends, inside) set_str
              (omega arith) (omega arith) room in
          span_round fuel bound wanted mem s l set k n r bytes set_str room char (omega arith) rest
            end
    ]

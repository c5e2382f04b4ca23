-- ===== src/Libc/Split.antt =====
-- What one call of `strtok_r` returns and leaves.
use c_loyha.Base.{ℕ, ◌+◌, ◌-◌, ◌≤◌, ◌<◌, ◌≡◌, ◌≢◌, ◌⊎◌, inl, inr, refl, ap, sym, ◌∙◌, subst, arith}
use c_loyha.Base.{min, true, false, ◌==◌, none, some}
use native.Mathlib.Decide.{ℕ_discrete}
use c_loyha.Libc.{Bytes, put, strspn, strcspn, Cut, cut_token, cut_from, strtok_r}
use c_loyha.Libc.Ends.{IsString, AreBytes, Among, Absent, Wanted, SpanEnd, span_lem}

-- The call has cut the string `s` of `l` bytes: either every byte is a delimiter and there is no token,
-- or the token is the first run of bytes that are none, ended by a 0 in the place of the
-- delimiter behind it, and the next call starts behind that.
pub data NextToken (mem : Bytes) (s l delim k : ℕ) (c : Cut) : Type 0 where
  no_token :
      ((i : ℕ) → i < l → Among mem delim k (mem (s + i)))
      → c.token ≡ none
      → c.saved ≡ s + l
      → c.memory ≡ mem
      → NextToken mem s l delim k c
  first_run :
      (at len : ℕ)
      → 0 < len
      → ((i : ℕ) → i < at → Among mem delim k (mem (s + i)))
      → ((i : ℕ) → i < len → Absent mem delim k (mem (s + at + i)))
      → (at + len ≡ l) ⊎ Among mem delim k (mem (s + at + len))
      → c.token ≡ some (s + at)
      → c.saved ≡ s + min l (at + len + 1)
      → IsString c.memory (s + at) len
      → ((a : ℕ) → a ≢ s + at + len → c.memory a ≡ mem a)
      → NextToken mem s l delim k c

IsString-behind :
    (mem : Bytes) (s l i : ℕ) → i ≤ l → IsString mem s l → IsString mem (s + i) (l - i)
IsString-behind mem s l i le (ends, inside) = (
  subst (λ (p : ℕ). mem p ≡ 0) (omega arith) ends,
  λ j lt z. inside (i + j) (omega arith) (subst (λ (p : ℕ). mem p ≡ 0) (omega arith) z),
)

put-other : (mem : Bytes) (p b a : ℕ) → a ≢ p → put mem p b a ≡ mem a
put-other mem p b a ne = ground arith

put-same : (mem : Bytes) (p b : ℕ) → put mem p b p ≡ b
put-same mem p b = ground arith

-- A token whose end is the end of the string, and one with a delimiter behind it.
module _ (mem : Bytes) (s l delim k at len : ℕ) (str : IsString mem s l)
    (skipped : (i : ℕ) → i < at → Among mem delim k (mem (s + i)))
    (run : (i : ℕ) → i < len → Absent mem delim k (mem (s + at + i))) (positive : 0 < len) where
  run_in_string : at + len ≤ l → (i : ℕ) → i < len → mem (s + at + i) ≢ 0
  run_in_string le i lt z =
      let (ends, inside) = str in
      inside (at + i) (omega arith) (subst (λ (p : ℕ). mem p ≡ 0) (omega arith) z)

  cut_token-at_end :
      at + len ≡ l → NextToken mem s l delim k (cut_token mem (s + at) (s + at + len))
  unfolding cut_token
  cut_token-at_end all =
      let (ends, inside) = str in
      let z : mem (s + at + len) ≡ 0 = subst (λ (p : ℕ). mem p ≡ 0) (omega arith) ends in
      let b : (mem (s + at + len) == 0) ≡ true = ground arith in
      rw b (
        first_run at len positive skipped run (inl all) refl (omega arith)
          (z, run_in_string (omega arith)) (λ a ne. refl))

  cut_token-inside :
      at + len < l
      → Among mem delim k (mem (s + at + len))
      → NextToken mem s l delim k (cut_token mem (s + at) (s + at + len))
  unfolding cut_token
  cut_token-inside lt among =
      let (ends, inside) = str in
      let nz : mem (s + at + len) ≢ 0 =
        λ z. inside (at + len) lt (subst (λ (p : ℕ). mem p ≡ 0) (omega arith) z) in
      let b : (mem (s + at + len) == 0) ≡ false = ground arith in
      rw b (
        first_run at len positive skipped run (inr among) refl (omega arith)
          (
            put-same mem (s + at + len) 0,
            λ i less z.
                run_in_string (omega arith) i less
                  (sym (put-other mem (s + at + len) 0 (s + at + i) (omega arith)) ∙ z),
          )
          (λ a ne. put-other mem (s + at + len) 0 a ne))

cut_token_lem :
    (mem : Bytes) (s l delim k at len : ℕ)
    → IsString mem s l
    → at < l
    → Absent mem delim k (mem (s + at))
    → ((i : ℕ) → i < at → Among mem delim k (mem (s + i)))
    → SpanEnd false mem (s + at) (l - at) delim k 0 len
    → NextToken mem s l delim k (cut_token mem (s + at) (s + at + len))
unfolding Wanted
cut_token_lem mem s l delim k at len str lt this skipped (_, below, over, stop) = elim stop [
  | inl all ↦
      cut_token-at_end mem s l delim k at len str skipped (λ i less. over i (omega arith) less)
        (omega arith) (omega arith)
  | inr (less, among) ↦
      let positive : 0 < len = elim (ℕ_discrete len 0) [
        | yes e ↦ let (j, jk, same) = among in absurd (this j jk (same ∙ ap mem (omega arith)))
        | no ne ↦ omega arith
      ] in
      cut_token-inside mem s l delim k at len str skipped (λ i lt'. over i (omega arith) lt')
        positive (omega arith) among
]

-- For a string `s` and a string of delimiters that both end within the fuel, `strtok_r` returns, and
-- cuts off the first run of bytes that are not delimiters.
pub strtok_r_lem :
    (fuel bound : ℕ) (mem : Bytes) (s l delim k save : ℕ)
    → AreBytes mem
    → IsString mem s l
    → IsString mem delim k
    → l < fuel
    → k < bound
    → (c : Cut) × (strtok_r fuel bound mem (some s) delim save ≡ some c)
      × NextToken mem s l delim k c
unfolding strtok_r cut_from strspn strcspn Wanted
strtok_r_lem fuel bound mem s l delim k save bytes str set_str enough room =
    let (at, skip, (_, below, over, stop)) =
      span_lem fuel bound true mem s l delim k 0 bytes str set_str (omega arith) (omega arith)
        room in
    let skipped : (i : ℕ) → i < at → Among mem delim k (mem (s + i)) =
      λ i lt. over i (omega arith) lt in
    elim stop [
      | inl all ↦
          let (ends, inside) = str in
          let z : mem (s + at) ≡ 0 = subst (λ (p : ℕ). mem (s + p) ≡ 0) (omega arith) ends in
          (
            record { token = none; saved = s + at; memory = mem },
            ground (arith),
            no_token (λ i lt. skipped i (omega arith)) refl (omega arith) refl,
          )
      | inr (lt, this) ↦
          let (ends, inside) = str in
          let nz : mem (s + at) ≢ 0 = inside at lt in
          let (len, keep, end) =
            span_lem fuel bound false mem (s + at) (l - at) delim k 0 bytes
              (IsString-behind mem s l at below str) set_str (omega arith) (omega arith) room in
          (
            cut_token mem (s + at) (s + at + len),
            ground arith,
            cut_token_lem mem s l delim k at len str lt this skipped end,
          )
    ]

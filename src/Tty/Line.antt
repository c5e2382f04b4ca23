-- ===== src/Tty/Line.antt =====
-- The line buffer of the terminal: its bounds, and what a key may change in it.
use c_loyha.Base.{ℕ, zero, suc, ◌+◌, ◌-◌, ◌<◌, ◌≤◌, ◌≡◌, ◌∙◌, ◌⊎◌, inl, inr, refl, arith}
use c_loyha.Base.{ltb, List, Bool-cases}
use c_loyha.Tty.{Tty, echo, erase_one, erase_line, end_of_file, end_line, put_char, canon_char}
use c_loyha.Tty.{canon_input, line_max}

-- Bytes `rpos` to `ready` wait for a reader and those up to `len` are being typed. When nothing waits
-- the buffer starts with the typed part, and the typed part leaves room for the end of its line.
pub record WellFormed (t : Tty) : Type 0 where
  pub read_bound : t.rpos ≤ t.ready
  pub ready_bound : t.ready ≤ t.len
  pub len_bound : t.len ≤ line_max
  pub compact : (t.rpos < t.ready) ⊎ (t.ready ≡ 0)
  pub room : (t.len < line_max) ⊎ (t.ready ≡ line_max)

-- What a key leaves alone: the bytes that wait for a reader, and everything outside the array.
pub record Kept (t t' : Tty) : Type 0 where
  pub same_rpos : t'.rpos ≡ t.rpos
  pub more_ready : t.ready ≤ t'.ready
  pub waiting_bytes : (i : ℕ) → i < t.ready → t'.line i ≡ t.line i
  pub outside : (i : ℕ) → line_max ≤ i → t'.line i ≡ t.line i

abbrev Good : Tty → Tty → Type 0
Good t t' = WellFormed t' × Kept t t'

echo-Good : (t u : Tty) (s : List ℕ) → Good t u → Good t (echo u s)
unfolding echo
echo-Good t u s g = ground arith

erase_one-Good : (t : Tty) → WellFormed t → Good t (erase_one t)
unfolding erase_one echo
erase_one-Good t w = ground arith

end_of_file-Good : (t : Tty) → WellFormed t → Good t (end_of_file t)
unfolding end_of_file
end_of_file-Good t w = ground arith

end_line-Good : (t : Tty) → WellFormed t → Good t (end_line t)
unfolding end_line echo
end_line-Good t w = ground arith

put_char-Good : (t : Tty) (c : ℕ) → WellFormed t → Good t (put_char t c)
unfolding put_char echo
put_char-Good t c w = ground arith

Kept-trans : {t u v : Tty} → Kept t u → Kept u v → Kept t v
Kept-trans {t = t} {u = u} {v = v} a b = record {
  same_rpos = cc;
  more_ready = omega (arith, a.more_ready, b.more_ready);
  waiting_bytes =
      λ i lt. b.waiting_bytes i (omega (arith, a.more_ready, lt)) ∙ a.waiting_bytes i lt;
  outside = λ i ge. b.outside i ge ∙ a.outside i ge;
}

erase_line-Good : (fuel : ℕ) (t : Tty) → WellFormed t → Good t (erase_line fuel t)
unfolding erase_line
erase_line-Good zero t w = ground arith
erase_line-Good (suc fuel) t w = elim (Bool-cases (ltb t.ready t.len)) [
  | inl more ↦
      let one = erase_one-Good t w in
      let rest = erase_line-Good fuel (erase_one t) one.0 in
      rw more (rest.0, Kept-trans one.1 rest.1)
  | inr enough ↦ rw enough (ground arith)
]

erase_one_less :
    (t : Tty) → t.ready < t.len → ((erase_one t).len + 1 ≡ t.len) × ((erase_one t).ready ≡ t.ready)
unfolding erase_one echo
erase_one_less t lt = ground arith

-- The kill loop erases everything that is typed when its fuel is the number of typed bytes.
pub erase_line_ends :
    (fuel : ℕ) (t : Tty)
    → t.ready ≤ t.len
    → t.len ≤ t.ready + fuel
    → ((erase_line fuel t).len ≡ t.ready) × ((erase_line fuel t).ready ≡ t.ready)
unfolding erase_line
erase_line_ends zero t le bound = (omega arith, refl)
erase_line_ends (suc fuel) t le bound = elim (Bool-cases (ltb t.ready t.len)) [
  | inl more ↦
      let one = erase_one_less t (ground arith) in
      let (a, b) = erase_line_ends fuel (erase_one t) (ground (arith, one)) (ground (arith, one)) in
      rw more (a ∙ one.1, b ∙ one.1)
  | inr enough ↦ rw enough (ground arith, refl)
]

cancel-Good : (t : Tty) → WellFormed t → Good t (record t { len = t.ready })
cancel-Good t w = ground arith

canon_char-Good : (t : Tty) (c : ℕ) → WellFormed t → Good t (canon_char t c)
unfolding canon_char
canon_char-Good t c w = ground (
  arith,
  erase_one-Good t w,
  erase_line-Good (t.len - t.ready) t w,
  cancel-Good t w,
  end_of_file-Good t w,
  end_line-Good t w,
  put_char-Good t c w,
)

-- One key keeps the bounds of the line buffer, leaves the bytes that wait for a reader as they are, and
-- writes nothing outside the array.
pub canon_input-WellFormed :
    (t : Tty) (c : ℕ) → WellFormed t → WellFormed (canon_input t c) × Kept t (canon_input t c)
unfolding canon_input
canon_input-WellFormed t c w = ground (arith, canon_char-Good t c w, canon_char-Good t 10 w)

-- ===== src/Tty/Read.antt =====
-- `tty_read`. A sleep gives the lock of the queue back and starts over, so it is an outcome: the reader
-- that is woken up runs `collect` again on the terminal it finds.
pub mod Delivery
use c_loyha.Base.{
  ℕ, zero, suc, ◌+◌, ◌-◌, ◌%◌, ◌<◌, ◌≤◌, ◌≡◌, ◌∙◌, refl, sym, ap, ap₂, arith, Bool, true, false,
}
use c_loyha.Base.{not, ◌&&◌, ◌||◌, ◌==◌, leb, ltb, min, if◌then◌else◌, List, [], ◌∷◌, ◌++◌, length}
use c_loyha.Base.{Bool-cases, inl, inr, ◌⊎◌}
use c_loyha.Base.Slice.{slice, length-slice, slice_same, slice-add}
use c_loyha.Abi.{Ret, done, fail, eintr}
use c_loyha.Console.{
  Console, Getc, char, interrupted, sleeps, console_getc, console_input_available,
}
use c_loyha.Console.{waiting_count, InRing, input_buffer_size}
use c_loyha.Tty.{Tty, echo, has_flag, icanon, canon_input, line_max}
use c_loyha.Tty.Line.{WellFormed, Kept, canon_input-WellFormed}

-- How the loop that waits for a line ends.
pub data Collected : Type 0 where
  collected : Tty → Console → Collected
  cut : Tty → Console → Collected
  asleep : Tty → Console → Collected

unfoldable pub collect : ℕ → Tty → Console → Bool → Collected
collect zero t k signalled = asleep t k
collect (suc fuel) t k signalled =
    if not (t.rpos == t.ready) || t.eof then collected t k else elim (console_getc k signalled) [
      | char c k' ↦ collect fuel (canon_input t c) k' signalled
      | interrupted ↦ cut t k
      | sleeps ↦ asleep t k
    ]

-- `memmove(line, line + from, n)`
abbrev pub move_down : (ℕ → ℕ) → ℕ → ℕ → ℕ → ℕ
move_down line start n i = if ltb i n then line (start + i) else line i

unfoldable pub advance : Tty → ℕ → Tty
advance t n =
    if t.rpos + n == t.ready
    then record t {
      line = move_down t.line t.ready (t.len - t.ready);
      len = t.len - t.ready;
      ready = 0;
      rpos = 0;
    }
    else record t { rpos = t.rpos + n }

-- The canonical branch after its loop: the bytes that the program gets.
unfoldable pub take_line : Tty → ℕ → List ℕ × Tty
take_line t len =
    if t.rpos == t.ready
    then ([], record t { eof = false })
    else let n = min len (t.ready - t.rpos) in (slice t.line t.rpos n, advance t n)

-- The raw branch after the first character: it never waits.
unfoldable pub raw_more : ℕ → Console → Bool → List ℕ × Console
raw_more zero k signalled = ([], k)
raw_more (suc room) k signalled =
    if console_input_available k
    then elim (console_getc k signalled) [
      | char c k' ↦ let (cs, after) = raw_more room k' signalled in (c ∷ cs, after)
      | interrupted ↦ ([], k)
      | sleeps ↦ ([], k)
    ]
    else ([], k)

pub data ReadResult : Type 0 where
  returns : Ret → List ℕ → Tty → Console → ReadResult
  waits : Tty → Console → ReadResult

unfoldable pub read_raw : Tty → Console → Bool → ℕ → ReadResult
read_raw t k signalled len = elim (console_getc k signalled) [
  | char c k' ↦
      let (cs, after) = raw_more (len - 1) k' signalled in
      returns (done (length (c ∷ cs))) (c ∷ cs) (echo t (c ∷ cs)) after
  | interrupted ↦ returns (fail eintr) [] t k
  | sleeps ↦ waits t k
]

unfoldable pub read_canonical : Tty → Console → Bool → ℕ → ReadResult
read_canonical t k signalled len = elim (collect (waiting_count k + 1) t k signalled) [
  | collected t' k' ↦
      let (bytes, after) = take_line t' len in returns (done (length bytes)) bytes after k'
  | cut t' k' ↦ returns (fail eintr) [] t' k'
  | asleep t' k' ↦ waits t' k'
]

-- `tty_read` of a foreground process.
unfoldable pub tty_read : Tty → Console → Bool → ℕ → ReadResult
tty_read t k signalled len =
    if len == 0
    then returns (done 0) [] t k
    else if has_flag t.tio.c_lflag icanon
    then read_canonical t k signalled len
    else read_raw t k signalled len

-- ===== src/Tty.antt =====
-- kernel/drivers/tty.c: the line discipline. The state is that of `tty`, with what has been written to
-- the screen; `fg_pgrp` is never negative. The array `line` is a function of the index.
pub mod Line
pub mod Keys
pub mod Read
pub mod Settings
use c_loyha.Base.{
  ℕ, zero, suc, ◌+◌, ◌-◌, Bool, true, false, not, ◌&&◌, ◌||◌, ◌==◌, leb, ltb, bit_and,
}
use c_loyha.Base.{if◌then◌else◌, List, [], ◌∷◌, ◌++◌}
use c_loyha.Console.{write_byte}

-- `LINE_MAX`
abbrev pub line_max : ℕ
line_max = 1024

-- `struct myos_termios`
pub record Termios : Type 0 where
  pub c_iflag : ℕ
  pub c_lflag : ℕ
  pub c_cc : ℕ → ℕ

pub record Tty : Type 0 where
  pub tio : Termios
  pub line : ℕ → ℕ
  pub len : ℕ
  pub ready : ℕ
  pub rpos : ℕ
  pub eof : Bool
  pub fg_pgrp : ℕ
  pub esc_state : ℕ
  pub screen : List ℕ

abbrev pub icrnl : ℕ
icrnl = 256

abbrev pub isig : ℕ
isig = 1

abbrev pub icanon : ℕ
icanon = 2

abbrev pub echo_flag : ℕ
echo_flag = 8

abbrev pub echoe : ℕ
echoe = 16

abbrev pub vintr : ℕ
vintr = 0

abbrev pub vquit : ℕ
vquit = 1

abbrev pub verase : ℕ
verase = 2

abbrev pub vkill : ℕ
vkill = 3

abbrev pub veof : ℕ
veof = 4

abbrev pub vsusp : ℕ
vsusp = 10

abbrev pub has_flag : ℕ → ℕ → Bool
has_flag flags f = not (bit_and flags f == 0)

-- `echo`
unfoldable pub echo : Tty → List ℕ → Tty
echo t s = if has_flag t.tio.c_lflag echo_flag then record t { screen = t.screen ++ s } else t

unfoldable pub erase_one : Tty → Tty
unfolding echo
erase_one t =
    if t.len == t.ready
    then t
    else if has_flag t.tio.c_lflag echoe
    then echo (record t { len = t.len - 1 }) (8 ∷ 32 ∷ 8 ∷ [])
    else record t { len = t.len - 1 }

-- The loop of the kill character, on fuel.
unfoldable pub erase_line : ℕ → Tty → Tty
erase_line zero t = t
erase_line (suc fuel) t =
    let rest = erase_line fuel (erase_one t) in if ltb t.ready t.len then rest else t

unfoldable pub end_of_file : Tty → Tty
end_of_file t = record t { eof = t.eof || t.len == t.ready; ready = t.len }

unfoldable pub end_line : Tty → Tty
unfolding echo
end_line t =
    if ltb t.len line_max
    then echo (record t { line = write_byte t.line t.len 10; len = t.len + 1; ready = t.len + 1 })
        (10 ∷ [])
    else echo (record t { ready = t.len }) (10 ∷ [])

unfoldable pub put_char : Tty → ℕ → Tty
unfolding echo
put_char t c =
    if ltb t.len (line_max - 1)
    then echo (record t { line = write_byte t.line t.len c; len = t.len + 1 }) (c ∷ [])
    else t

abbrev pub is_signal_key : Termios → ℕ → Bool
is_signal_key tio c =
    has_flag tio.c_lflag isig && (c == tio.c_cc vintr || c == tio.c_cc vquit || c == tio.c_cc vsusp)

-- The dispatch of `canon_input` on a character that is in no escape sequence.
unfoldable pub canon_char : Tty → ℕ → Tty
canon_char t c =
    if c == t.tio.c_cc verase || c == 8
    then erase_one t
    else if c == t.tio.c_cc vkill
    then erase_line (t.len - t.ready) t
    else if is_signal_key t.tio c
    then record t { len = t.ready }
    else if c == t.tio.c_cc veof
    then end_of_file t
    else if c == 10
    then end_line t
    else if leb 32 c || c == 9
    then put_char t c
    else t

unfoldable pub canon_input : Tty → ℕ → Tty
canon_input t c =
    if t.esc_state == 1
    then record t { esc_state = if c == 0x5B || c == 0x4F then 2 else 0 }
    else if t.esc_state == 2
    then (if leb 0x40 c && leb c 0x7E then record t { esc_state = 0 } else t)
    else if c == 0x1B
    then record t { esc_state = 1 }
    else canon_char t (if c == 13 && has_flag t.tio.c_iflag icrnl then 10 else c)

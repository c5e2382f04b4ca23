-- ===== src/Tty/Settings.antt =====
-- `tty_ioctl` after its arguments are copied in, the initial state, and everything that can happen to
-- the terminal.
use c_loyha.Base.{ℕ, inl, inr, refl, arith, Bool, false, not, ◌&&◌, ◌==◌}
use c_loyha.Base.{if◌then◌else◌, [], bit_or}
use c_loyha.Abi.{Ret, done, fail, einval, ℤ, pos, negsuc}
use c_loyha.Console.{Console}
use c_loyha.Tty.{
  Tty, Termios, has_flag, isig, icanon, echo_flag, echoe, icrnl, vintr, vquit, vsusp, verase,
}
use c_loyha.Tty.{vkill, veof}
use c_loyha.Tty.Line.{WellFormed}
use c_loyha.Tty.Read.{tty_read}
use c_loyha.Tty.Read.Delivery.{tty_of, tty_read-WellFormed}

-- `VMIN`
abbrev pub vmin : ℕ
vmin = 6

-- The control characters that the terminal starts with.
abbrev pub initial_cc : ℕ → ℕ
initial_cc i =
    if i == vintr
    then 3
    else if i == vquit
    then 0x1C
    else if i == vsusp
    then 26
    else if i == verase
    then 0x7F
    else if i == vkill
    then 21
    else if i == veof
    then 4
    else if i == vmin
    then 1
    else 0

abbrev pub initial : Tty
initial = record {
  tio = record {
    c_iflag = icrnl;
    c_lflag = bit_or isig (bit_or icanon (bit_or echo_flag echoe));
    c_cc = initial_cc;
  };
  line = λ i. 0;
  len = 0;
  ready = 0;
  rpos = 0;
  eof = false;
  fg_pgrp = 0;
  esc_state = 0;
  screen = [];
}

-- TCSETS: leaving the canonical mode throws the line away.
unfoldable pub set_termios : Tty → Termios → Tty
set_termios t new =
    if has_flag t.tio.c_lflag icanon && not (has_flag new.c_lflag icanon)
    then record t { tio = new; len = 0; ready = 0; rpos = 0; eof = false }
    else record t { tio = new }

-- TIOCSPGRP
unfoldable pub set_pgrp : Tty → ℤ → Ret × Tty
set_pgrp t (pos pg) = (done 0, record t { fg_pgrp = pg })
set_pgrp t (negsuc n) = (fail einval, t)

pub data Step : Tty → Tty → Type 0 where
  reads :
      {t : Tty} (k : Console) (signalled : Bool) (len : ℕ)
      → Step t (tty_of (tty_read t k signalled len))
  sets : {t : Tty} (new : Termios) → Step t (set_termios t new)
  moves : {t : Tty} (pg : ℤ) → Step t (set_pgrp t pg).1

pub data Reach : Tty → Type 0 where
  start : Reach initial
  next : {t t' : Tty} → Reach t → Step t t' → Reach t'

set_termios-WellFormed : (t : Tty) (new : Termios) → WellFormed t → WellFormed (set_termios t new)
unfolding set_termios
set_termios-WellFormed t new w = ground arith

set_pgrp-WellFormed : (t : Tty) (pg : ℤ) → WellFormed t → WellFormed (set_pgrp t pg).1
unfolding set_pgrp
set_pgrp-WellFormed t (pos pg) w = ground arith
set_pgrp-WellFormed t (negsuc n) w = w

-- However the terminal is read and set up, from its initial state on, the positions in its line buffer
-- stay in order and within the array, and a line that is being typed keeps room for its end.
pub Reach-WellFormed : {t : Tty} → Reach t → WellFormed t
Reach-WellFormed start = record {
  read_bound = omega arith;
  ready_bound = omega arith;
  len_bound = omega arith;
  compact = inr refl;
  room = inl (omega arith);
}
Reach-WellFormed (next r (reads {t = t} k signalled len)) =
    tty_read-WellFormed t k signalled len (Reach-WellFormed r)
Reach-WellFormed (next r (sets {t = t} new)) = set_termios-WellFormed t new (Reach-WellFormed r)
Reach-WellFormed (next r (moves {t = t} pg)) = set_pgrp-WellFormed t pg (Reach-WellFormed r)

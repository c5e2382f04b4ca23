-- ===== src/Tty/Keys.antt =====
-- `tty_input_signal`, `console_input_char`, the job control of `tty_read`, and the keys that end or
-- erase a line.
use c_loyha.Base.{ℕ, ◌-◌, ◌<◌, ◌≤◌, ◌≡◌, arith, Bool, true, false}
use c_loyha.Base.{not, ◌||◌, ◌==◌, if◌then◌else◌, List, [], ◌∷◌}
use c_loyha.Base.{Option, none, some, ◌≢◌}
use c_loyha.Base.Bits.{bit_at}
use c_loyha.Abi.{Ret, fail, eio, eintr, sigint, sigquit, sigtstp, sigttin, sig_ign}
use c_loyha.Proc.{Process}
use c_loyha.Signal.Group.{signal_send_pgrp_locked}
use c_loyha.Base.{◌⊎◌, ◌%◌, ◌+◌}
use c_loyha.Console.{Console, console_input_flush, enqueue, waiting_count, input_buffer_size}
use c_loyha.Tty.{Tty, Termios, echo, has_flag, isig, icanon, vintr, vquit, vsusp, is_signal_key}
use c_loyha.Tty.{end_line, canon_char, canon_input, verase, vkill}
use c_loyha.Tty.{veof}
use c_loyha.Tty.Line.{WellFormed, erase_line_ends}

-- The signal of a key, and what is shown for it.
unfoldable pub signal_of_key : Termios → ℕ → Option (ℕ × List ℕ)
signal_of_key tio c =
    if c == tio.c_cc vintr
    then some (sigint, 94 ∷ 67 ∷ 10 ∷ [])
    else if c == tio.c_cc vquit
    then some (sigquit, 94 ∷ 92 ∷ 10 ∷ [])
    else if c == tio.c_cc vsusp
    then some (sigtstp, 94 ∷ 90 ∷ 10 ∷ [])
    else none

-- The terminal, its input queue and the table of processes.
pub record Terminal : Type 0 where
  pub tty : Tty
  pub input : Console
  pub procs : List Process

-- The result says whether the character is kept out of the queue.
unfoldable pub tty_input_signal : Terminal → ℕ → Bool × Terminal
unfolding echo
tty_input_signal s c =
    if not (has_flag s.tty.tio.c_lflag isig) then (false, s) else elim (signal_of_key s.tty.tio c) [
      | none ↦ (false, s)
      | some (sig, shown) ↦ (
        not (has_flag s.tty.tio.c_lflag icanon),
        record {
          tty = echo s.tty shown;
          input = console_input_flush s.input;
          procs = (signal_send_pgrp_locked s.procs s.tty.fg_pgrp sig).1;
        },
      )
    ]

unfoldable pub console_input_char : Terminal → ℕ → Terminal
console_input_char s c =
    let (taken, after) = tty_input_signal s c in
    if taken then after else record after { input = enqueue after.input c }

-- A reader outside the foreground group is stopped by SIGTTIN, or refused where it cannot be.
unfoldable pub background_read_check : Tty → List Process → Process → Option Ret × List Process
background_read_check t procs me =
    if t.fg_pgrp == 0 || not me.is_user || me.pgid == t.fg_pgrp
    then (none, procs)
    else if (me.sig_actions sigttin).sa_handler == sig_ign || bit_at me.sig_blocked sigttin == 1
    then (some (fail eio), procs)
    else (some (fail eintr), (signal_send_pgrp_locked procs me.pgid sigttin).1)

-- Enter gives a waiting reader a line: with nothing waiting, no escape sequence open, and none of the
-- control keys set to the end-of-line character, some byte waits after it, and the last is that
-- character.
pub canon_input-enter :
    (t : Tty)
    → WellFormed t
    → t.rpos ≡ t.ready
    → t.esc_state ≡ 0
    → t.tio.c_cc verase ≢ 10
    → t.tio.c_cc vkill ≢ 10
    → t.tio.c_cc veof ≢ 10
    → is_signal_key t.tio 10 ≡ false
    → ((canon_input t 10).rpos < (canon_input t 10).ready)
      × ((canon_input t 10).line ((canon_input t 10).ready - 1) ≡ 10)
unfolding canon_input canon_char end_line echo
canon_input-enter t w nothing no_escape erase kill eof signal = ground arith

-- The byte `i` of those that wait in the queue.
abbrev pub held : Console → ℕ → ℕ
held k i = k.input_buffer ((k.input_tail + i) % input_buffer_size)

-- The queue has one byte more, at its end; or it was full, and is as it was.
abbrev pub Queued : Console → ℕ → Console → Type 0
Queued k c k' =
    ((waiting_count k ≡ 1023) × (k' ≡ k))
    ⊎ ((waiting_count k' ≡ waiting_count k + 1)
        × (held k' (waiting_count k) ≡ c)
        × ((i : ℕ) → i < waiting_count k → held k' i ≡ held k i))

-- A key that sends `sig` to the foreground group and flushes the queue: in canonical mode the key alone
-- waits, in raw mode nothing.
abbrev pub Signalled : Terminal → ℕ → ℕ → Type 0
Signalled s c sig =
    let out = console_input_char s c in
    (out.procs ≡ (signal_send_pgrp_locked s.procs s.tty.fg_pgrp sig).1)
    × (has_flag s.tty.tio.c_lflag icanon ≡ true
        → (waiting_count out.input ≡ 1) × (held out.input 0 ≡ c))
    × (has_flag s.tty.tio.c_lflag icanon ≡ false → waiting_count out.input ≡ 0)

-- The kill character and a signal key that reaches the reader drop what is typed of the line, and
-- nothing that waits for a reader.
pub canon_char-kill :
    (t : Tty) (c : ℕ)
    → t.ready ≤ t.len
    → not (c == t.tio.c_cc verase || c == 8) ≡ true
    → (c == t.tio.c_cc vkill || is_signal_key t.tio c) ≡ true
    → ((canon_char t c).len ≡ t.ready) × ((canon_char t c).ready ≡ t.ready)
unfolding canon_char
canon_char-kill t c le not_erase kills =
    ground (arith, erase_line_ends (t.len - t.ready) t le (omega arith))

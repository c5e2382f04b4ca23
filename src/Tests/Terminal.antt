-- ===== src/Tests/Terminal.antt =====
-- The terminal on concrete keys.
use c_loyha.Base.{◌+◌, ◌-◌, ◌≡◌, refl, arith, false, min, []}
use c_loyha.Base.{◌++◌, length, inl, inr}
use c_loyha.Console.{Console, waiting_count, console_getc}
use c_loyha.Tty.{Tty, canon_input}
use c_loyha.Tty.Line.{WellFormed, Kept, canon_input-WellFormed}
use c_loyha.Tty.Keys.{Terminal}
use c_loyha.Tty.Read.{collect, read_canonical, take_line, waits}
use c_loyha.Tty.Read.Delivery.{unread, take_line_lem}
use c_loyha.Tty.Settings.{initial, start, next, moves, set_pgrp, Reach-WellFormed}
use c_loyha.Abi.{pos}

abbrev no_input : Console
no_input = record { input_buffer = λ i. 0; input_head = 0; input_tail = 0 }

initial-WellFormed : WellFormed initial
initial-WellFormed = Reach-WellFormed start

-- "ls" is typed.
abbrev typed : Tty
typed = record initial { line = λ i. 108; len = 2 }

typed-WellFormed : WellFormed typed
typed-WellFormed = record {
  read_bound = omega arith;
  ready_bound = omega arith;
  len_bound = omega arith;
  compact = inr refl;
  room = inl (omega arith);
}

-- "ls" and Enter are typed.
abbrev entered_line : Tty
entered_line = record initial { line = λ i. 108; len = 3; ready = 3 }

entered_line-WellFormed : WellFormed entered_line
entered_line-WellFormed = record {
  read_bound = omega arith;
  ready_bound = omega arith;
  len_bound = omega arith;
  compact = inl (omega arith);
  room = inl (omega arith);
}

canon_input-WellFormed_example :
    WellFormed (canon_input typed 97) × Kept typed (canon_input typed 97)
canon_input-WellFormed_example = canon_input-WellFormed typed 97 typed-WellFormed

Reach-WellFormed_example : WellFormed (set_pgrp initial (pos 2)).1
Reach-WellFormed_example = Reach-WellFormed (next start (moves (pos 2)))

take_line_lem_example :
    (length (take_line entered_line 2).0 ≡ min 2 (entered_line.ready - entered_line.rpos))
    × ((take_line entered_line 2).0 ++ unread (take_line entered_line 2).1 ≡ unread entered_line)
    × ((take_line entered_line 2).1.ready - (take_line entered_line 2).1.rpos
        ≡ entered_line.ready - entered_line.rpos - 2)
take_line_lem_example = take_line_lem entered_line 2 entered_line-WellFormed

sleeping : read_canonical typed no_input false 10 ≡ waits typed no_input
unfolding read_canonical waiting_count collect console_getc
sleeping = refl

abbrev two_keys : Console
two_keys = record { input_buffer = λ i. 97 + i; input_head = 2; input_tail = 0 }

abbrev terminal : Terminal
terminal = record { tty = initial; input = two_keys; procs = [] }

-- ===== src/Tests/Signals.antt =====
-- kernel/proc/signal.c on concrete processes.
use c_loyha.Base.{ℕ, ◌+◌, ◌*◌, ◌%◌, ◌≤◌, ◌^◌, ◌≡◌, ◌≢◌, refl, arith, true, false, none, some}
use c_loyha.Base.{not, ◌&&◌, ◌==◌, if◌then◌else◌}
use c_loyha.Base.Bits.{bit_at, ctz}
use c_loyha.Abi.{fail, einval, sigkill, sigcont, sigtstp, sa_restorer}
use c_loyha.Proc.{nowhere, Process, Sigaction, running}
use c_loyha.Signal.Sending.{drops, stops}
use c_loyha.Signal.{clear, unblockable, send_refused}
use c_loyha.Signal.{signal_send_locked, signal_interrupted, next_signal}
use c_loyha.Signal.Sending.{IsMasked, Exclusive, signal_send_pending}
use c_loyha.Signal.Sending.{signal_send-Exclusive}
use c_loyha.Signal.Frame.{Frame, exit_by, stuck, setup_frame, frame_address, signal_deliver}
use c_loyha.Signal.Frame.{enter_handler, block_for_handler, sigframe_words, sigctx_count}
use c_loyha.Signal.Frame.Return.{resumes, sys_sigreturn}
use c_loyha.Signal.Frame.RoundTrip.{Restored, sigreturn-setup_frame, frame_address_lem}
use c_loyha.Signal.Frame.Loop.{Uncatchable, signal_deliver_ends, signal_deliver-sigkill}
use c_loyha.Signal.Calls.{no_action, sys_sigaction}
use c_loyha.Signal.Calls.Reach.{Reach, here, next, send, sigaction, Reach-Uncatchable}
use c_loyha.Uaccess.{UserMem, user_ok, copy_to_user, copy_from_user, store}

abbrev shell : Process
shell = record {
  pid = 2;
  state = running;
  is_user = true;
  is_idle = false;
  parent = none;
  killed = false;
  pgid = 2;
  sid = 2;
  sig_pending = 0;
  sig_blocked = 0;
  sig_actions = λ s. no_action;
  stop_sig = 0;
  stop_reported = false;
  alarm_tick = 0;
  exit_status = 0;
  wait_channel = nowhere;
  wake_tick = 0;
  cpu_ticks = 0;
  quantum_left = 5;
}

-- SIGINT and SIGTSTP wait, and SIGINT is blocked.
abbrev waiting : Process
waiting = record shell { sig_pending = 2 ^ 20 + 2 ^ 2; sig_blocked = 2 ^ 2 }

abbrev memory : UserMem
memory = record { prefault = λ addr len write. true; word = λ a. 0 }

abbrev catch_int : Sigaction
catch_int = record {
  sa_handler = 0x401000;
  sa_flags = sa_restorer;
  sa_restorer = 0x402000;
  sa_mask = 2 ^ 9;
}

abbrev registers : Frame
registers = record {
  r15 = 15;
  r14 = 14;
  r13 = 13;
  r12 = 12;
  r11 = 11;
  r10 = 10;
  r9 = 9;
  r8 = 8;
  rbp = 7;
  rdi = 6;
  rsi = 5;
  rdx = 4;
  rcx = 3;
  rbx = 2;
  rax = 1;
  vector = 32;
  error_code = 0;
  rip = 0x400123;
  cs = 0x23;
  rflags = 0x246;
  rsp = 0x7ffff000;
  ss = 0x1b;
}

shell-Uncatchable : Uncatchable shell
unfolding bit_at
shell-Uncatchable = omega arith

waiting-IsMasked : IsMasked waiting
waiting-IsMasked = omega arith

kill_and_catch : Reach shell (sys_sigaction (signal_send_locked shell sigkill) memory 9 64 0).1
kill_and_catch = next (next here (send sigkill)) (sigaction memory 9 64 0)

sigaction_refuses_sigkill : (sys_sigaction shell memory 9 64 0).0 ≡ fail einval
unfolding sys_sigaction copy_from_user
sigaction_refuses_sigkill = refl

Reach-Uncatchable_example :
    Uncatchable (sys_sigaction (signal_send_locked shell sigkill) memory 9 64 0).1
Reach-Uncatchable_example = Reach-Uncatchable kill_and_catch shell-Uncatchable

abbrev stack_top : ℕ
stack_top = 0x7fffeec8

abbrev entered_memory : UserMem
entered_memory = record memory {
  word = store memory.word stack_top (sigframe_words catch_int registers 4 2);
}

entered :
    setup_frame waiting registers memory 2 catch_int
    ≡ some (
      block_for_handler waiting 2 catch_int,
      enter_handler registers stack_top 2 catch_int,
      entered_memory,
    )
unfolding setup_frame copy_to_user frame_address
entered = refl

abbrev at_return : Frame
at_return = record registers { rsp = stack_top + 8 }

top : at_return.rsp ≡ (enter_handler registers stack_top 2 catch_int).rsp + 8
unfolding enter_handler
top = refl

readable : user_ok entered_memory at_return.rsp (8 * sigctx_count) false ≡ true
unfolding user_ok
readable = refl

sigreturn-setup_frame_example :
    (rax : ℕ) × (q : Process) × (f : Frame) × (sys_sigreturn
        (block_for_handler waiting 2 catch_int)
        at_return
        entered_memory
      ≡ resumes rax q f)
    × Restored registers rax f
    × (q.sig_blocked ≡ clear 4 unblockable)
sigreturn-setup_frame_example =
    sigreturn-setup_frame waiting registers memory 2 catch_int at_return entered (omega arith)
      (omega arith) (omega arith) top readable

frame_address_lem_example :
    (frame_address 0x7ffff000 % 16 ≡ 8)
    × (frame_address 0x7ffff000 + 168 + 128 ≤ 0x7ffff000)
    × (0x7ffff000 ≤ frame_address 0x7ffff000 + 168 + 128 + 23)
frame_address_lem_example = frame_address_lem 0x7ffff000 (omega arith) (omega arith)

signal_deliver_ends_example : signal_deliver waiting registers memory ≢ stuck
signal_deliver_ends_example = signal_deliver_ends waiting registers memory waiting-IsMasked

abbrev doomed : Process
doomed = record shell { sig_pending = 2 ^ 9 + 2 ^ 2; sig_blocked = 2 ^ 2 }

doomed-IsMasked : IsMasked doomed
doomed-IsMasked = omega arith

doomed-Uncatchable : Uncatchable doomed
unfolding bit_at
doomed-Uncatchable = omega arith

sigkill_waits : bit_at doomed.sig_pending sigkill ≡ 1
unfolding bit_at
sigkill_waits = refl

signal_deliver-sigkill_example : signal_deliver doomed registers memory ≡ exit_by sigkill
signal_deliver-sigkill_example =
    signal_deliver-sigkill doomed registers memory doomed-IsMasked doomed-Uncatchable refl
      sigkill_waits

not_refused : send_refused waiting sigcont ≡ false
unfolding send_refused
not_refused = refl

-- SIGCONT takes the waiting SIGTSTP back.
signal_send_pending_example : bit_at (signal_send_locked waiting sigcont).sig_pending sigtstp ≡ (
    if sigcont == sigtstp && not (drops waiting sigcont)
    then 1
    else if sigcont == sigcont && stops sigtstp
    then 0
    else if stops sigcont && sigtstp == sigcont
    then 0
    else bit_at waiting.sig_pending sigtstp)
signal_send_pending_example =
    signal_send_pending waiting sigcont sigtstp (omega arith) (omega arith) refl refl refl
      (omega arith) (omega arith)

waiting-Exclusive : Exclusive waiting
waiting-Exclusive j small halts waits = absurd (omega (arith, no_cont))
  where
    no_cont : bit_at waiting.sig_pending sigcont ≡ 0
    no_cont = unfold bit_at in refl

signal_send-Exclusive_example : Exclusive (signal_send_locked waiting sigcont)
signal_send-Exclusive_example = signal_send-Exclusive waiting sigcont waiting-Exclusive

waiting_interrupted : signal_interrupted waiting ≡ true
unfolding signal_interrupted
waiting_interrupted = refl

next_signal-waiting : next_signal waiting ≡ sigtstp
unfolding next_signal ctz
next_signal-waiting = refl

no_signal_zero : bit_at waiting.sig_pending 0 ≡ 0
unfolding bit_at
no_signal_zero = refl

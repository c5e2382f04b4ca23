-- ===== src/Signal/Frame.antt =====
-- kernel/proc/signal.c: how a signal is delivered to a handler (`setup_frame`, `signal_deliver`) and
-- how the handler returns (`sys_sigreturn`).
pub mod Return
pub mod RoundTrip
pub mod Loop
use c_loyha.Base.{ℕ, zero, suc, ◌+◌, ◌-◌, ◌*◌, ◌/◌, ◌%◌, ◌^◌, bit_and, bit_or, Bool, false, not}
use c_loyha.Base.{◌&&◌, ◌||◌, ◌==◌, leb, if◌then◌else◌, Option, none, some, List, [], ◌∷◌}
use c_loyha.Base.Bits.{complement}
use c_loyha.Abi.{sigkill, sigsegv, sig_dfl, sig_ign, sa_restorer, sa_nodefer, sa_resethand}
use c_loyha.Proc.{Process, Sigaction, stopped}
use c_loyha.Signal.{bit, clear, unblockable, default_ignore, default_stop, next_signal}
use c_loyha.Uaccess.{UserMem, copy_to_user, copy_from_user}

-- `struct interrupt_frame`: the registers of the interrupted program.
pub record Frame : Type 0 where
  pub r15 : ℕ
  pub r14 : ℕ
  pub r13 : ℕ
  pub r12 : ℕ
  pub r11 : ℕ
  pub r10 : ℕ
  pub r9 : ℕ
  pub r8 : ℕ
  pub rbp : ℕ
  pub rdi : ℕ
  pub rsi : ℕ
  pub rdx : ℕ
  pub rcx : ℕ
  pub rbx : ℕ
  pub rax : ℕ
  pub vector : ℕ
  pub error_code : ℕ
  pub rip : ℕ
  pub cs : ℕ
  pub rflags : ℕ
  pub rsp : ℕ
  pub ss : ℕ

-- `struct sigframe` in memory: `retaddr`, then the fields of `ctx`.
abbrev pub sigctx_words : Frame → ℕ → ℕ → List ℕ
sigctx_words f mask sig =
    f.r15 ∷ f.r14 ∷ f.r13 ∷ f.r12 ∷ f.r11 ∷ f.r10 ∷ f.r9 ∷ f.r8 ∷ f.rbp ∷ f.rdi ∷ f.rsi ∷ f.rdx
    ∷ f.rcx ∷ f.rbx ∷ f.rax ∷ f.rip ∷ f.rflags ∷ f.rsp ∷ mask ∷ sig ∷ []

abbrev pub sigframe_words : Sigaction → Frame → ℕ → ℕ → List ℕ
sigframe_words act f mask sig = act.sa_restorer ∷ sigctx_words f mask sig

-- `sizeof(struct sigframe)` and the words of `struct sigctx`
abbrev pub sigframe_size : ℕ
sigframe_size = 168

abbrev pub sigctx_count : ℕ
sigctx_count = 20

-- Below the red zone, aligned to 16, then 8 lower; `uint64_t` subtraction wraps.
unfoldable pub frame_address : ℕ → ℕ
frame_address rsp =
    let sp = (rsp + 2 ^ 64 - 128 - sigframe_size) % 2 ^ 64 in (sp / 16 * 16 + 2 ^ 64 - 8) % 2 ^ 64

-- `(1 << 8) | (1 << 10)`: TF and DF
abbrev pub handler_clears : ℕ
handler_clears = bit_or (2 ^ 8) (2 ^ 10)

-- The registers at the handler's entry.
unfoldable pub enter_handler : Frame → ℕ → ℕ → Sigaction → Frame
enter_handler f sp sig act = record f {
  rip = act.sa_handler;
  rsp = sp;
  rdi = sig;
  rsi = 0;
  rdx = 0;
  rax = 0;
  rflags = bit_and f.rflags (complement 64 handler_clears);
}

-- What is blocked while the handler runs, and the reset of a handler that serves once.
unfoldable pub block_for_handler : Process → ℕ → Sigaction → Process
block_for_handler p sig act =
    let masked = bit_or p.sig_blocked (clear (act.sa_mask % 2 ^ 32) unblockable) in
    let blocked' =
      if bit_and act.sa_flags sa_nodefer == 0 then bit_or masked (bit sig) else masked in
    let reset : ℕ → Sigaction = λ s.
      if s == sig then record (p.sig_actions s) { sa_handler = sig_dfl } else p.sig_actions s in
    record p {
      sig_blocked = blocked';
      sig_actions = if bit_and act.sa_flags sa_resethand == 0 then p.sig_actions else reset;
    }

-- `none` is -1: there is no way back, or the stack cannot be written.
unfoldable pub setup_frame :
    Process → Frame → UserMem → ℕ → Sigaction → Option (Process × Frame × UserMem)
setup_frame p f m sig act =
    if bit_and act.sa_flags sa_restorer == 0 || act.sa_restorer == 0
    then none
    else (let sp = frame_address f.rsp in
        elim (copy_to_user m sp (sigframe_words act f p.sig_blocked sig)) [
          | none ↦ none
          | some m' ↦ some (block_for_handler p sig act, enter_handler f sp sig act, m')
        ])

-- What `signal_deliver` comes to: the program goes on, it ends by a signal, or it stops until
-- SIGCONT (and the loop then starts anew). `stuck` means that the fuel ran out.
pub data Delivery : Type 0 where
  go_on : Process → Frame → UserMem → Delivery
  exit_by : ℕ → Delivery
  stop_by : ℕ → Process → Delivery
  stuck : Delivery

-- `proc_stop_self`
unfoldable pub proc_stop_self : Process → ℕ → Process
proc_stop_self p sig = record p { state = stopped; stop_sig = sig; stop_reported = false }

-- The handling of one signal that was taken from the queue; `again` is the next round of the loop.
unfoldable pub deliver_one : Process → Frame → UserMem → ℕ → Delivery → Delivery
deliver_one p f m sig again =
    let act = p.sig_actions sig in
    if act.sa_handler == sig_ign
    then again
    else if act.sa_handler == sig_dfl
    then (if default_ignore sig
        then again
        else if default_stop sig
        then (if p.killed then again else stop_by sig (proc_stop_self p sig))
        else exit_by sig)
    else elim (setup_frame p f m sig act) [
      | none ↦ exit_by sigsegv
      | some (p', f', m') ↦ go_on p' f' m'
    ]

unfoldable pub take_signal : Process → ℕ → Process
take_signal p sig = record p { sig_pending = clear p.sig_pending (bit sig) }

-- The loop of `signal_deliver`, with fuel for its rounds.
unfoldable pub deliver_loop : ℕ → Process → Frame → UserMem → Delivery
deliver_loop zero p f m = stuck
deliver_loop (suc fuel) p f m =
    let sig = next_signal p in
    let p' = take_signal p sig in
    let again = deliver_loop fuel p' f m in
    let handled = deliver_one p' f m sig again in
    if p.killed then exit_by sigkill else if sig == 0 then go_on p f m else handled

-- A round takes one of the 32 signals from the queue, so 33 rounds are enough.
unfoldable pub signal_deliver : Process → Frame → UserMem → Delivery
signal_deliver p f m = if not p.is_user then go_on p f m else deliver_loop 33 p f m

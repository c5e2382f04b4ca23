-- ===== src/Signal/Calls/Uncatchable.antt =====
-- No sequence of system calls, deliveries and faults lets a program block or catch SIGKILL or
-- SIGSTOP.
use c_loyha.Base.{ℕ, ◌%◌, ◌^◌, ◌≡◌, ◌≢◌, refl, arith}
use c_loyha.Base.{some}
use c_loyha.Base.{bit_or, inl, inr, Option-cases, List, [], ◌∷◌}
use c_loyha.Base.Bits.{bit_at, bit_at-bit_and, bit_at-bit_or, complement}
use c_loyha.Abi.{sigkill, sigstop, sig_dfl}
use c_loyha.Proc.{Process, Sigaction}
use c_loyha.Signal.{bit, clear, unblockable}
use c_loyha.Signal.{send_wake, signal_send_locked}
use c_loyha.Signal.Masks.{bit_at-clear, bit_at-insert}
use c_loyha.Signal.Sending.{send_effects_blocked, send_effects_actions}
use c_loyha.Signal.Frame.{Frame}
use c_loyha.Signal.Frame.{block_for_handler}
use c_loyha.Signal.Frame.Loop.{Uncatchable}
use c_loyha.Signal.Frame.Return.{word_at, resumes, restore}
use c_loyha.Signal.Calls.{install, report, sys_sigaction, change_mask, sys_sigprocmask}
use c_loyha.Signal.Calls.{action_words, signal_force, signal_exec_reset, action_of_words}
use c_loyha.Uaccess.{UserMem, copy_from_user}

-- A mask that leaves both signals open.
record IsOpen (mask : ℕ) : Type 0 where
  kill : bit_at mask sigkill ≡ 0
  stop : bit_at mask sigstop ≡ 0

unblockable_bits : (bit_at unblockable sigkill ≡ 1) × (bit_at unblockable sigstop ≡ 1)
unfolding bit_at
unblockable_bits = (refl, refl)

clear-unblockable-IsOpen : (x : ℕ) → IsOpen (clear x unblockable)
clear-unblockable-IsOpen x = omega (
  arith,
  unblockable_bits,
  bit_at-clear sigkill x unblockable (omega arith) (omega arith),
  bit_at-clear sigstop x unblockable (omega arith) (omega arith),
)

clear-IsOpen : {x : ℕ} (y : ℕ) → IsOpen x → IsOpen (clear x y)
clear-IsOpen {x} y o = omega (
  arith,
  o.kill,
  o.stop,
  bit_at-bit_and sigkill x (complement 32 y),
  bit_at-bit_and sigstop x (complement 32 y),
)

bit_or-IsOpen : {x y : ℕ} → IsOpen x → IsOpen y → IsOpen (bit_or x y)
bit_or-IsOpen {x} {y} o q =
    omega
      (arith, o.kill, o.stop, q.kill, q.stop, bit_at-bit_or sigkill x y, bit_at-bit_or sigstop x y)

insert-IsOpen : {x : ℕ} (s : ℕ) → IsOpen x → s ≢ sigkill → s ≢ sigstop → IsOpen (bit_or x (bit s))
insert-IsOpen {x} s o a b =
    ground (arith, o.kill, o.stop, bit_at-insert sigkill x s, bit_at-insert sigstop x s)

-- The two actions are the default ones.
abbrev DefaultActions : (ℕ → Sigaction) → Type 0
DefaultActions actions =
    ((actions sigkill).sa_handler ≡ sig_dfl) × ((actions sigstop).sa_handler ≡ sig_dfl)

uncatchable : (p : Process) → IsOpen p.sig_blocked → DefaultActions p.sig_actions → Uncatchable p
uncatchable p o d = record {
  kill_open = o.kill;
  stop_open = o.stop;
  kill_default = d.0;
  stop_default = d.1;
}

Uncatchable-IsOpen : {p : Process} → Uncatchable p → IsOpen p.sig_blocked
Uncatchable-IsOpen u = record { kill = u.kill_open; stop = u.stop_open }

-- Sending a signal touches neither the blocked mask nor the actions.
send_blocked : (p : Process) (sig : ℕ) → (signal_send_locked p sig).sig_blocked ≡ p.sig_blocked
unfolding signal_send_locked send_wake
send_blocked p sig = ground (arith, send_effects_blocked p sig)

send_actions : (p : Process) (sig : ℕ) → (signal_send_locked p sig).sig_actions ≡ p.sig_actions
unfolding signal_send_locked send_wake
send_actions p sig = ground (arith, send_effects_actions p sig)

pub send-Uncatchable :
    {p : Process} (sig : ℕ) → Uncatchable p → Uncatchable (signal_send_locked p sig)
send-Uncatchable {p} sig u =
    uncatchable (signal_send_locked p sig) (rw (send_blocked p sig) (Uncatchable-IsOpen u))
      (rw (send_actions p sig) (u.kill_default, u.stop_default))

pub force-Uncatchable : {p : Process} (sig : ℕ) → Uncatchable p → Uncatchable (signal_force p sig).0
unfolding signal_force
force-Uncatchable {p} sig u =
    let o = clear-IsOpen (bit sig) (Uncatchable-IsOpen u) in ground (arith, o.kill, o.stop)

pub exec-Uncatchable : {p : Process} → Uncatchable p → Uncatchable (signal_exec_reset p)
unfolding signal_exec_reset
exec-Uncatchable u = ground arith

install-Uncatchable :
    {p : Process} (sig : ℕ) (act : Sigaction)
    → sig ≢ sigkill
    → sig ≢ sigstop
    → Uncatchable p
    → Uncatchable (install p sig act)
unfolding install
install-Uncatchable sig act a b u = ground arith

report_process : (p : Process) (m : UserMem) (uold : ℕ) (old : List ℕ) → (report p m uold old).1 ≡ p
unfolding report
report_process p m uold old = ground arith

report-Uncatchable :
    {p : Process} (m : UserMem) (uold : ℕ) (old : List ℕ)
    → Uncatchable p
    → Uncatchable (report p m uold old).1
report-Uncatchable {p} m uold old u = rw (report_process p m uold old) u

pub sigaction-Uncatchable :
    {p : Process} (m : UserMem) (sig uact uold : ℕ)
    → Uncatchable p
    → Uncatchable (sys_sigaction p m sig uact uold).1
unfolding sys_sigaction
sigaction-Uncatchable {p} m sig uact uold u = elim (Option-cases (copy_from_user m uact 4)) [
  | inl e ↦ ground (arith, report-Uncatchable m uold old u)
  | inr (ws, e) ↦ ground (
    arith,
    report-Uncatchable m uold old u,
    report-Uncatchable {p = install p sig (action_of_words ws)} m uold old,
    install-Uncatchable {p = p} sig (action_of_words ws),
  )
]
  where
    old : List ℕ
    old = action_words (p.sig_actions sig)

change_mask-Uncatchable :
    (p q : Process) (how set : ℕ) → change_mask p how set ≡ some q → Uncatchable p → Uncatchable q
unfolding change_mask
change_mask-Uncatchable p q how set e u = ground (
  arith,
  clear-unblockable-IsOpen (set % 2 ^ 32),
  bit_or-IsOpen (Uncatchable-IsOpen u) (clear-unblockable-IsOpen (set % 2 ^ 32)),
  clear-IsOpen (clear (set % 2 ^ 32) unblockable) (Uncatchable-IsOpen u),
)

pub sigprocmask-Uncatchable :
    {p : Process} (m : UserMem) (how uset uold : ℕ)
    → Uncatchable p
    → Uncatchable (sys_sigprocmask p m how uset uold).1
unfolding sys_sigprocmask
sigprocmask-Uncatchable {p} m how uset uold u = elim (Option-cases (copy_from_user m uset 1)) [
  | inl e ↦ ground (arith, report-Uncatchable m uold old u)
  | inr (ws, e) ↦ elim (Option-cases (change_mask p how (word_at ws 0))) [
    | inl unknown ↦ ground (arith, report-Uncatchable m uold old u)
    | inr (q, changed) ↦ ground (
      arith,
      report-Uncatchable m uold old u,
      report-Uncatchable {p = q} m uold old
          (change_mask-Uncatchable p q how (word_at ws 0) changed u),
    )
  ]
]
  where
    old : List ℕ
    old = p.sig_blocked ∷ []

pub restore-Uncatchable :
    (p q : Process) (g f : Frame) (c : List ℕ) (rax : ℕ)
    → restore p g c ≡ resumes rax q f
    → Uncatchable p
    → Uncatchable q
unfolding restore
restore-Uncatchable p q g f c rax e u =
    ground (arith, clear-unblockable-IsOpen (word_at c 18 % 2 ^ 32))

pub block_for_handler-Uncatchable :
    {p : Process} (sig : ℕ) (act : Sigaction)
    → sig ≢ sigkill
    → sig ≢ sigstop
    → Uncatchable p
    → Uncatchable (block_for_handler p sig act)
unfolding block_for_handler
block_for_handler-Uncatchable {p} sig act a b u =
    let masked =
      bit_or-IsOpen (Uncatchable-IsOpen u) (clear-unblockable-IsOpen (act.sa_mask % 2 ^ 32)) in
    ground (arith, masked, insert-IsOpen sig masked a b)

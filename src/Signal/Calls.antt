-- ===== src/Signal/Calls.antt =====
-- kernel/proc/signal.c: the system calls by which a process changes its own signal state
-- (`sys_sigaction`, `sys_sigprocmask`), signals forced by a fault (`signal_force`), the reset at
-- `exec` (`signal_exec_reset`), and whether an interrupted call starts again.
pub mod Uncatchable
pub mod Reach
use c_loyha.Base.{
  ℕ, ◌+◌, ◌-◌, ◌*◌, ◌/◌, ◌%◌, ◌^◌, bit_and, bit_or, Bool, true, false, not, ◌&&◌, ◌||◌,
}
use c_loyha.Base.{◌==◌, leb, ltb, if◌then◌else◌, Option, none, some, List, [], ◌∷◌}
use c_loyha.Base.Bits.{complement}
use c_loyha.Abi.{Ret, done, fail, einval, efault, sigkill, sigstop, nsig, sig_dfl, sig_ign}
use c_loyha.Abi.{sig_block, sig_unblock, sig_setmask, sa_restart}
use c_loyha.Proc.{Process, Sigaction}
use c_loyha.Signal.{bit, clear, has, unblockable, default_ignore, default_stop, next_signal}
use c_loyha.Signal.Frame.Return.{word_at}
use c_loyha.Uaccess.{UserMem, copy_to_user, copy_from_user}

-- `struct myos_sigaction` in the memory of a program.
abbrev pub action_words : Sigaction → List ℕ
action_words a = a.sa_handler ∷ a.sa_flags ∷ a.sa_restorer ∷ a.sa_mask ∷ []

abbrev pub action_of_words : List ℕ → Sigaction
action_of_words ws = record {
  sa_handler = word_at ws 0;
  sa_flags = word_at ws 1;
  sa_restorer = word_at ws 2;
  sa_mask = word_at ws 3;
}

abbrev pub set_action : (ℕ → Sigaction) → ℕ → Sigaction → ℕ → Sigaction
set_action actions sig act s = if s == sig then act else actions s

-- The new action of `sys_sigaction`: it never masks SIGKILL and SIGSTOP, and a signal that is now
-- ignored no longer waits.
unfoldable pub install : Process → ℕ → Sigaction → Process
install p sig act =
    let act' = record act { sa_mask = bit_and act.sa_mask (complement 64 unblockable) } in
    let p' = record p { sig_actions = set_action p.sig_actions sig act' } in
    if act.sa_handler == sig_ign || act.sa_handler == sig_dfl && default_ignore sig
    then record p' { sig_pending = clear p.sig_pending (bit sig) }
    else p'

-- The end of `sys_sigaction` and `sys_sigprocmask`: the old value goes out, if it was asked for.
unfoldable pub report : Process → UserMem → ℕ → List ℕ → Ret × Process × UserMem
report p m uold old =
    if uold == 0
    then (done 0, p, m)
    else elim (copy_to_user m uold old) [ none ↦ (fail efault, p, m) | some m' ↦ (done 0, p, m') ]

unfoldable pub sys_sigaction : Process → UserMem → ℕ → ℕ → ℕ → Ret × Process × UserMem
sys_sigaction p m sig uact uold =
    if sig == 0 || leb nsig sig
    then (fail einval, p, m)
    else (let old = action_words (p.sig_actions sig) in
        if uact == 0 then report p m uold old else elim (copy_from_user m uact 4) [
          | none ↦ (fail efault, p, m)
          | some ws ↦
              if sig == sigkill || sig == sigstop
              then (fail einval, p, m)
              else report (install p sig (action_of_words ws)) m uold old
        ])

-- `none` is the EINVAL of an unknown `how`.
unfoldable pub change_mask : Process → ℕ → ℕ → Option Process
change_mask p how set =
    let s = clear (set % 2 ^ 32) unblockable in
    if how == sig_block
    then some (record p { sig_blocked = bit_or p.sig_blocked s })
    else if how == sig_unblock
    then some (record p { sig_blocked = clear p.sig_blocked s })
    else if how == sig_setmask
    then some (record p { sig_blocked = s })
    else none

unfoldable pub sys_sigprocmask : Process → UserMem → ℕ → ℕ → ℕ → Ret × Process × UserMem
sys_sigprocmask p m how uset uold =
    let old = p.sig_blocked ∷ [] in
    if uset == 0 then report p m uold old else elim (copy_from_user m uset 1) [
      | none ↦ (fail efault, p, m)
      | some ws ↦ elim (change_mask p how (word_at ws 0)) [
        | none ↦ (fail einval, p, m)
        | some p' ↦ report p' m uold old
      ]
    ]

-- A fault cannot be ignored or blocked: it falls back to the default action. The result says whether
-- the default action applies.
unfoldable pub signal_force : Process → ℕ → Process × Bool
signal_force p sig =
    let act = p.sig_actions sig in
    let p' =
      if act.sa_handler == sig_ign || has p.sig_blocked sig
      then record p {
        sig_actions = set_action p.sig_actions sig (record act { sa_handler = sig_dfl });
        sig_blocked = clear p.sig_blocked (bit sig);
      }
      else p in
    let p'' = record p' { sig_pending = bit_or p'.sig_pending (bit sig) } in
    (p'', (p''.sig_actions sig).sa_handler == sig_dfl)

-- `memset(&p->sig_actions[s], 0, ...)`
abbrev pub no_action : Sigaction
no_action = record { sa_handler = 0; sa_flags = 0; sa_restorer = 0; sa_mask = 0 }

-- At `exec` every handler is dropped, and what is ignored stays ignored.
unfoldable pub signal_exec_reset : Process → Process
signal_exec_reset p = record p {
  sig_actions = λ s.
      if not (s == 0) && ltb s nsig && not ((p.sig_actions s).sa_handler == sig_ign)
      then no_action
      else p.sig_actions s;
}

-- The system calls that `signal_should_restart` tells apart.
pub data Syscall : Type 0 where
  read write wait ioctl sleep other : Syscall

abbrev pub is_restartable : Syscall → Bool
is_restartable other = false
is_restartable _ = true

abbrev pub is_sleep : Syscall → Bool
is_sleep sleep = true
is_sleep _ = false

unfoldable pub signal_should_restart : Process → Syscall → Bool
signal_should_restart p nr =
    let sig = next_signal p in
    let act = p.sig_actions sig in
    if not (is_restartable nr) || sig == 0 || sig == sigkill
    then false
    else if act.sa_handler == sig_dfl
    then default_stop sig
    else if not (act.sa_handler == sig_ign) && not (is_sleep nr)
    then not (bit_and act.sa_flags sa_restart == 0)
    else false

-- ===== src/Signal/Calls/Reach.antt =====
-- The life of a process as a sequence of steps, each of which changes its signal state.
use c_loyha.Base.{
  ℕ, zero, suc, ◌≡◌, ◌≢◌, refl, sym, subst, arith, Bool, true, false, ◌==◌, if◌then◌else◌, Option,
}
use c_loyha.Base.{none, some, not, Option-cases, inl, inr}
use c_loyha.Abi.{sigkill, sigstop, sig_dfl, sig_ign, sigsegv}
use c_loyha.Proc.{Process}
use c_loyha.Signal.{signal_send_locked, default_ignore, default_stop, next_signal}
use c_loyha.Signal.Frame.{Frame, Delivery, go_on, exit_by, stop_by, stuck, deliver_one, take_signal}
use c_loyha.Signal.Frame.{deliver_loop, signal_deliver, setup_frame}
use c_loyha.Signal.Frame.{proc_stop_self, sigctx_count}
use c_loyha.Signal.Frame.Loop.{Uncatchable}
use c_loyha.Signal.Frame.Return.{resumes, sys_sigreturn}
use c_loyha.Signal.Frame.RoundTrip.{setup_frame-Entered}
use c_loyha.Signal.Calls.{sys_sigaction, sys_sigprocmask, signal_force, signal_exec_reset}
use c_loyha.Signal.Calls.Uncatchable.{send-Uncatchable, force-Uncatchable, exec-Uncatchable}
use c_loyha.Signal.Calls.Uncatchable.{sigaction-Uncatchable, sigprocmask-Uncatchable}
use c_loyha.Signal.Calls.Uncatchable.{restore-Uncatchable, block_for_handler-Uncatchable}
use c_loyha.Uaccess.{UserMem, copy_from_user}

-- What happens to a process, whoever does it: a signal is sent or forced, the process makes a system
-- call, leaves the kernel with its signals delivered, stops, or executes another program.
pub data Step (p : Process) : Process → Type 0 where
  send : (sig : ℕ) → Step p (signal_send_locked p sig)
  force : (sig : ℕ) → Step p (signal_force p sig).0
  sigaction : (m : UserMem) (sig uact uold : ℕ) → Step p (sys_sigaction p m sig uact uold).1
  sigprocmask : (m : UserMem) (how uset uold : ℕ) → Step p (sys_sigprocmask p m how uset uold).1
  sigreturn :
      {q : Process} (g f : Frame) (m : UserMem) (rax : ℕ)
      → sys_sigreturn p g m ≡ resumes rax q f
      → Step p q
  deliver :
      {q : Process} (f f' : Frame) (m m' : UserMem)
      → signal_deliver p f m ≡ go_on q f' m'
      → Step p q
  stop :
      {q : Process} (f : Frame) (m : UserMem) (sig : ℕ)
      → signal_deliver p f m ≡ stop_by sig q
      → Step p q
  exec : Step p (signal_exec_reset p)

pub data Reach (p : Process) : Process → Type 0 where
  here : Reach p p
  next : {q r : Process} → Reach p q → Step q r → Reach p r

-- The process that a delivery leaves behind, if it leaves one, cannot catch SIGKILL or SIGSTOP.
abbrev LeavesUncatchable : Delivery → Type 0
LeavesUncatchable (go_on p f m) = Uncatchable p
LeavesUncatchable (exit_by sig) = Unit
LeavesUncatchable (stop_by sig p) = Uncatchable p
LeavesUncatchable stuck = Unit

-- The two signals have the default action, so that no handler is entered for them.
not_default :
    {p : Process} (sig : ℕ)
    → Uncatchable p
    → (p.sig_actions sig).sa_handler ≢ sig_dfl
    → (sig ≢ sigkill) × (sig ≢ sigstop)
not_default {p} sig u h = (
  λ e. h (subst (λ (k : ℕ). (p.sig_actions k).sa_handler ≡ sig_dfl) (sym e) u.kill_default),
  λ e. h (subst (λ (k : ℕ). (p.sig_actions k).sa_handler ≡ sig_dfl) (sym e) u.stop_default),
)

take_signal-Uncatchable : {p : Process} (sig : ℕ) → Uncatchable p → Uncatchable (take_signal p sig)
unfolding take_signal
take_signal-Uncatchable sig u = ground arith

stop_self-Uncatchable : {p : Process} (sig : ℕ) → Uncatchable p → Uncatchable (proc_stop_self p sig)
unfolding proc_stop_self
stop_self-Uncatchable sig u = ground arith

setup_frame-Uncatchable :
    (p q : Process) (f f' : Frame) (m m' : UserMem) (sig : ℕ)
    → setup_frame p f m sig (p.sig_actions sig) ≡ some (q, f', m')
    → (p.sig_actions sig).sa_handler ≢ sig_dfl
    → Uncatchable p
    → Uncatchable q
setup_frame-Uncatchable p q f f' m m' sig set handler u =
    let (a, b) = not_default sig u handler in
    rw ((setup_frame-Entered p f m sig (p.sig_actions sig) set).process)
      (block_for_handler-Uncatchable sig (p.sig_actions sig) a b u)

if-LeavesUncatchable :
    (b : Bool) (x y : Delivery)
    → (b ≡ true → LeavesUncatchable x)
    → (b ≡ false → LeavesUncatchable y)
    → LeavesUncatchable (if b then x else y)
if-LeavesUncatchable true x y t e = t refl
if-LeavesUncatchable false x y t e = e refl

entered-LeavesUncatchable :
    (o : Option (Process × Frame × UserMem))
    → ((q : Process) (f : Frame) (m : UserMem) → o ≡ some (q, f, m) → Uncatchable q)
    → let d : Delivery = elim o [ none ↦ exit_by sigsegv | some (q, f, m) ↦ go_on q f m ] in
      LeavesUncatchable d
entered-LeavesUncatchable none h = tt
entered-LeavesUncatchable (some (q, f, m)) h = h q f m refl

deliver_one-LeavesUncatchable :
    (p : Process) (f : Frame) (m : UserMem) (sig : ℕ) (again : Delivery)
    → Uncatchable p
    → LeavesUncatchable again
    → LeavesUncatchable (deliver_one p f m sig again)
unfolding deliver_one
deliver_one-LeavesUncatchable p f m sig again u h =
    if-LeavesUncatchable (handler == sig_ign) again _ (λ _. h)
      λ _.
        if-LeavesUncatchable (handler == sig_dfl) _ _
          (λ _.
            if-LeavesUncatchable (default_ignore sig) again _ (λ _. h)
              λ _.
                if-LeavesUncatchable (default_stop sig) _ (exit_by sig)
                  (λ _.
                    if-LeavesUncatchable p.killed again (stop_by sig (proc_stop_self p sig))
                      (λ _. h) (λ _. stop_self-Uncatchable sig u))
                  (λ _. tt))
          (λ handled.
            entered-LeavesUncatchable (setup_frame p f m sig (p.sig_actions sig))
              λ q f' m' set. setup_frame-Uncatchable p q f f' m m' sig set (ground arith) u)
  where
    handler : ℕ
    handler = (p.sig_actions sig).sa_handler

deliver_loop-LeavesUncatchable :
    (fuel : ℕ) (p : Process) (f : Frame) (m : UserMem)
    → Uncatchable p
    → LeavesUncatchable (deliver_loop fuel p f m)
unfolding deliver_loop
deliver_loop-LeavesUncatchable zero p f m u = tt
deliver_loop-LeavesUncatchable (suc fuel) p f m u =
    if-LeavesUncatchable p.killed (exit_by sigkill) _ (λ _. tt)
      λ _.
        if-LeavesUncatchable (sig == 0) (go_on p f m) _ (λ _. u)
          λ _.
            deliver_one-LeavesUncatchable p' f m sig (deliver_loop fuel p' f m) taken
              (deliver_loop-LeavesUncatchable fuel p' f m taken)
  where
    sig : ℕ
    sig = next_signal p

    p' : Process
    p' = take_signal p sig

    taken : Uncatchable p'
    taken = take_signal-Uncatchable sig u

signal_deliver-LeavesUncatchable :
    (p : Process) (f : Frame) (m : UserMem)
    → Uncatchable p
    → LeavesUncatchable (signal_deliver p f m)
unfolding signal_deliver
signal_deliver-LeavesUncatchable p f m u =
    if-LeavesUncatchable (not p.is_user) (go_on p f m) (deliver_loop 33 p f m) (λ _. u)
      (λ _. deliver_loop-LeavesUncatchable 33 p f m u)

sigreturn-Uncatchable :
    (p q : Process) (g f : Frame) (m : UserMem) (rax : ℕ)
    → sys_sigreturn p g m ≡ resumes rax q f
    → Uncatchable p
    → Uncatchable q
unfolding sys_sigreturn
sigreturn-Uncatchable p q g f m rax e u =
    elim (Option-cases (copy_from_user m g.rsp sigctx_count)) [
      | inl fault ↦ ground arith
      | inr (c, read) ↦ restore-Uncatchable p q g f c rax (ground arith) u
    ]

Step-Uncatchable : {p q : Process} → Step p q → Uncatchable p → Uncatchable q
Step-Uncatchable (send sig) u = send-Uncatchable sig u
Step-Uncatchable (force sig) u = force-Uncatchable sig u
Step-Uncatchable (sigaction m sig uact uold) u = sigaction-Uncatchable m sig uact uold u
Step-Uncatchable (sigprocmask m how uset uold) u = sigprocmask-Uncatchable m how uset uold u
Step-Uncatchable {p} {q} (sigreturn g f m rax e) u = sigreturn-Uncatchable p q g f m rax e u
Step-Uncatchable {p} {q} (deliver f f' m m' e) u =
    subst LeavesUncatchable e (signal_deliver-LeavesUncatchable p f m u)
Step-Uncatchable {p} {q} (stop f m sig e) u =
    subst LeavesUncatchable e (signal_deliver-LeavesUncatchable p f m u)
Step-Uncatchable exec u = exec-Uncatchable u

-- Whatever is done to a process and whatever it does, by any sequence of signals sent and forced,
-- `sigaction`, `sigprocmask`, `sigreturn`, deliveries, stops and `exec`, it never comes to block
-- SIGKILL or SIGSTOP or to have a handler for them, if it did not at first.
pub Reach-Uncatchable : {p q : Process} → Reach p q → Uncatchable p → Uncatchable q
Reach-Uncatchable here u = u
Reach-Uncatchable (next r st) u = Step-Uncatchable st (Reach-Uncatchable r u)

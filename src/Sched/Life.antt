-- ===== src/Sched/Life.antt =====
-- The life of the table: every step that processes, the clock and the scheduler make on it.
use c_loyha.Base.{ℕ, ◌≡◌, ◌≢◌, refl, sym, ◌∙◌, ap, arith, Bool, true, false}
use c_loyha.Base.{Option, some, List}
use c_loyha.Base.{get_elem?, map, eq_of_some}
use c_loyha.Abi.{ℤ}
use c_loyha.Proc.{Process, is_unused, unused, embryo, ready, running, blocked}
use c_loyha.Proc.{dead, Channel, Sigaction}
use c_loyha.Signal.{signal_send_locked}
use c_loyha.Sched.{modify, wakeup_locked, wake_on, do_exit, proc_alloc, proc_free}
use c_loyha.Sched.{
  proc_sleep, proc_yield, proc_make_ready, tick_process, dispatch, reap_orphan, is_zombie,
}
use c_loyha.Sched.Family.{LiveAt, ParentsLive, KeepsFamily, map-ParentsLive, modify-ParentsLive}
use c_loyha.Sched.Family.{do_exit-ParentsLive, replace-ParentsLive, signal_send-KeepsFamily}
use c_loyha.Sched.Family.{wake_on-KeepsFamily, tick_process-KeepsFamily}
use c_loyha.Sched.Wait.{
  proc_wait, proc_wait-WaitSound, Waited, reaps, reports, wait_fails, no_news, wait_sleeps,
}
use c_loyha.Sched.Wait.{WaitSound}
use c_loyha.Sched.Slots.{
  InState, stop_and_tell, set_state-ParentsLive, zombie_family, proc_alloc-ParentsLive,
  stop_and_tell-ParentsLive, free_childless-ParentsLive,
}

pub data Step : List Process → List Process → Type 0 where
  allocates :
      {procs : List Process} (cur : Option ℕ) (next_pid : ℕ) (no_action : Sigaction)
      (has_stack : Bool)
      → ((j : ℕ) → cur ≡ some j → LiveAt procs j)
      → Step procs (proc_alloc procs cur next_pid no_action has_stack).1
  starts :
      {procs : List Process} (i : ℕ) → InState procs i embryo → Step procs (proc_make_ready procs i)
  runs :
      {procs : List Process} (i : ℕ) → InState procs i ready → Step procs (modify procs i dispatch)
  yields :
      {procs : List Process} (i : ℕ) → InState procs i running → Step procs (proc_yield procs i)
  sleeps :
      {procs : List Process} (i : ℕ) (channel : Channel)
      → InState procs i running
      → Step procs (proc_sleep procs i channel)
  wakes : {procs : List Process} (channel : Channel) → Step procs (wakeup_locked procs channel)
  ticks : {procs : List Process} (now : ℕ) → Step procs (map (tick_process now) procs)
  sends :
      {procs : List Process} (i sig : ℕ)
      → Step procs (modify procs i (λ p. signal_send_locked p sig))
  exits :
      {procs : List Process} (cur status : ℕ)
      → LiveAt procs cur
      → Step procs (do_exit procs cur status)
  waits :
      {procs : List Process} (cur : ℕ) (pid : ℤ) (pgid : ℕ) (untraced nohang signalled : Bool)
      → Step procs (proc_wait procs cur pid pgid untraced nohang signalled).1
  reaps_orphan : {procs : List Process} (i : ℕ) → Step procs (modify procs i reap_orphan)
  frees : {procs : List Process} (i : ℕ) → InState procs i dead → Step procs (proc_free procs i)
  -- `proc_stop_self` stops the running process, unless it is killed, and tells its parent.
  stops :
      {procs : List Process} (cur sig : ℕ)
      → InState procs cur running
      → Step procs (stop_and_tell procs cur sig)
  -- `proc_fork` gives a new process back. It has never run, so it is nobody's parent.
  frees_embryo :
      {procs : List Process} (i : ℕ)
      → InState procs i embryo
      → ((k : ℕ) (p : Process)
          → get_elem? procs k ≡ some p
          → is_unused p.state ≡ false
          → p.parent ≢ some i)
      → Step procs (proc_free procs i)

pub data Reach : List Process → List Process → Type 0 where
  here : {procs : List Process} → Reach procs procs
  next : {a b c : List Process} → Reach a b → Step b c → Reach a c

proc_wait-ParentsLive :
    (procs : List Process) (cur : ℕ) (pid : ℤ) (pgid : ℕ) (untraced nohang signalled : Bool)
    → ParentsLive procs
    → ParentsLive (proc_wait procs cur pid pgid untraced nohang signalled).1
proc_wait-ParentsLive procs cur pid pgid untraced nohang signalled inv =
    after (proc_wait procs cur pid pgid untraced nohang signalled).0
      (proc_wait procs cur pid pgid untraced nohang signalled).1
      (proc_wait-WaitSound procs cur pid pgid untraced nohang signalled).0
  where
    after :
        (w : Waited) (procs' : List Process)
        → WaitSound procs cur pid pgid untraced nohang signalled w procs'
        → ParentsLive procs'
    after (reaps i n status) procs' (p, at_p, ours, gone, pid_is, status_is, table) = rw table (
        modify-ParentsLive (λ q. record q { state = dead }) procs i
          (λ q at_q.
            let same : p ≡ q = eq_of_some (sym at_p ∙ at_q) in
            let (a, b) =
              zombie_family q.state (sym (ap (λ (r : Process). is_zombie r.state) same) ∙ gone) in
            (refl, sym a, sym b))
          inv)
    after (reports n status) procs' (i, p, at_p, ours, halted, asked, fresh, pid_is, word, table) =
        rw table (
          modify-ParentsLive (λ q. record q { stop_reported = true }) procs i
            (λ q at_q. (refl, refl, refl)) inv)
    after (wait_fails e) procs' sound = rw sound.0 inv
    after no_news procs' sound = rw sound.0 inv
    after wait_sleeps procs' sound = rw sound.0 inv

reap_orphan-KeepsFamily : KeepsFamily reap_orphan
unfolding reap_orphan
reap_orphan-KeepsFamily p = ground (arith, zombie_family p.state)

Step-ParentsLive : {a b : List Process} → Step a b → ParentsLive a → ParentsLive b
unfolding proc_make_ready proc_yield proc_sleep wakeup_locked proc_free dispatch
Step-ParentsLive (allocates {procs} cur next_pid no_action has_stack live) inv =
    proc_alloc-ParentsLive procs cur next_pid no_action has_stack live inv
Step-ParentsLive (starts {procs} i at_i) inv =
    set_state-ParentsLive procs i embryo (λ p. record p { state = ready }) at_i refl
      (λ p. (refl, refl)) inv
Step-ParentsLive (runs {procs} i at_i) inv =
    set_state-ParentsLive procs i ready dispatch at_i refl (λ p. (refl, refl)) inv
Step-ParentsLive (yields {procs} i at_i) inv =
    set_state-ParentsLive procs i running (λ p. record p { state = ready }) at_i refl
      (λ p. (refl, refl)) inv
Step-ParentsLive (sleeps {procs} i channel at_i) inv =
    set_state-ParentsLive procs i running
      (λ p. record p { wait_channel = channel; state = blocked }) at_i refl (λ p. (refl, refl)) inv
Step-ParentsLive (wakes {procs} channel) inv =
    map-ParentsLive (wake_on channel) procs (wake_on-KeepsFamily channel) inv
Step-ParentsLive (ticks {procs} now) inv =
    map-ParentsLive (tick_process now) procs (tick_process-KeepsFamily now) inv
Step-ParentsLive (sends {procs} i sig) inv =
    modify-ParentsLive (λ p. signal_send_locked p sig) procs i
      (λ p e. signal_send-KeepsFamily sig p) inv
Step-ParentsLive (exits {procs} cur status live) inv = do_exit-ParentsLive procs cur status inv live
Step-ParentsLive (waits {procs} cur pid pgid untraced nohang signalled) inv =
    proc_wait-ParentsLive procs cur pid pgid untraced nohang signalled inv
Step-ParentsLive (reaps_orphan {procs} i) inv =
    modify-ParentsLive reap_orphan procs i (λ p e. reap_orphan-KeepsFamily p) inv
Step-ParentsLive (frees {procs} i at_i) inv =
    replace-ParentsLive procs i (λ p. record p { state = unused }) inv
      (λ p at_p.
        let same = eq_of_some (sym at_i.1 ∙ at_p) in
        let s = sym (ap (λ (r : Process). r.state) same) ∙ at_i.2 in rw s refl)
      (λ p j at_p used par. cc)
Step-ParentsLive (stops {procs} cur sig at_cur) inv =
    stop_and_tell-ParentsLive procs cur sig at_cur inv
Step-ParentsLive (frees_embryo {procs} i at_i childless) inv =
    free_childless-ParentsLive procs i childless inv

-- From a table where the parent of every process in use is a live process, every run of creation,
-- start, dispatch, yield, sleep, wakeup, clock tick, signal, stop, exit, wait, reaping and freeing keeps
-- it so: none of them leaves a pointer to a process that is gone. A process is created by a live one;
-- an embryo that is freed is nobody's parent.
pub Reach-ParentsLive : {a b : List Process} → Reach a b → ParentsLive a → ParentsLive b
Reach-ParentsLive here inv = inv
Reach-ParentsLive (next r s) inv = Step-ParentsLive s (Reach-ParentsLive r inv)

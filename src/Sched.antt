-- ===== src/Sched.antt =====
-- kernel/proc/process.c: the table of processes, the scheduler, sleeping and waking up, exit and wait.
-- The table is a list of `max_procs` slots, and `cur` is the slot of the current process. What runs
-- under `proc_lock` is one step. A parent that is no slot of the table (an idle process) is `none`.
pub mod Fair
pub mod Family
pub mod Scan
pub mod Wait
pub mod Slots
pub mod Life
pub mod ExitWait
use c_loyha.Base.{
  ℕ, zero, suc, ◌+◌, ◌-◌, ◌*◌, ◌/◌, ◌%◌, ◌^◌, Bool, true, false, not, ◌&&◌, ◌||◌, ◌==◌,
}
use c_loyha.Base.{
  leb, ltb, if◌then◌else◌, Option, none, some, List, [], ◌∷◌, get_elem?, set, map, bit_and,
}
use c_loyha.Abi.{Ret, done, fail, echild, eintr, sigchld, ℤ, pos, negsuc}
use c_loyha.Proc.{
  Process, ProcState, embryo, ready, running, blocked, zombie, dead, unused, stopped,
}
use c_loyha.Proc.{
  Channel, nowhere, slot_channel, sleep_channel, address, Sigaction, is_unused, is_blocked,
}
use c_loyha.Proc.{is_stopped}
use c_loyha.Signal.{signal_send_locked}
use c_loyha.Signal.Group.{is_slot, check_alarm}

-- `MAX_PROCS`
abbrev pub max_procs : ℕ
max_procs = 64

-- `SCHED_QUANTUM`
abbrev pub sched_quantum : ℕ
sched_quantum = 5

abbrev pub is_ready : ProcState → Bool
is_ready ready = true
is_ready _ = false

abbrev pub is_zombie : ProcState → Bool
is_zombie zombie = true
is_zombie _ = false

abbrev pub modify : List Process → ℕ → (Process → Process) → List Process
modify [] i f = []
modify (p ∷ ps) zero f = f p ∷ ps
modify (p ∷ ps) (suc i) f = p ∷ modify ps i f

abbrev pub ready_at : List Process → ℕ → Bool
ready_at procs i = elim (get_elem? procs i) [ none ↦ false | some p ↦ is_ready p.state ]

-- The loop of `pick_next` from round `n` on, with `left` rounds to go.
unfoldable pub pick_from : List Process → ℕ → ℕ → ℕ → Option ℕ
pick_from procs rr_next n zero = none
pick_from procs rr_next n (suc left) =
    if ready_at procs ((rr_next + n) % max_procs)
    then some ((rr_next + n) % max_procs)
    else pick_from procs rr_next (n + 1) left

-- The slot that runs next, and the new `rr_next`.
unfoldable pub pick_next : List Process → ℕ → Option ℕ × ℕ
pick_next procs rr_next = elim (pick_from procs rr_next 0 max_procs) [
  | none ↦ (none, rr_next)
  | some i ↦ (some i, (i + 1) % max_procs)
]

-- What `scheduler_loop` does to the process that it picks.
unfoldable pub dispatch : Process → Process
dispatch p = record p { state = running; quantum_left = sched_quantum }

unfoldable pub proc_yield : List Process → ℕ → List Process
proc_yield procs cur = modify procs cur (λ p. record p { state = ready })

abbrev pub is_channel : Channel → Channel → Bool
is_channel nowhere nowhere = true
is_channel sleep_channel sleep_channel = true
is_channel (slot_channel i) (slot_channel j) = i == j
is_channel (address i) (address j) = i == j
is_channel _ _ = false

unfoldable pub wake_on : Channel → Process → Process
wake_on channel p =
    if is_blocked p.state && is_channel p.wait_channel channel
    then record p { state = ready }
    else p

unfoldable pub wakeup_locked : List Process → Channel → List Process
wakeup_locked procs channel = map (wake_on channel) procs

-- `proc_sleep` up to the switch to another process.
unfoldable pub proc_sleep : List Process → ℕ → Channel → List Process
proc_sleep procs cur channel =
    modify procs cur (λ p. record p { wait_channel = channel; state = blocked })

-- The part of `sched_tick` that the first processor does.
unfoldable pub tick_process : ℕ → Process → Process
tick_process now p = check_alarm now (
    if is_blocked p.state && is_channel p.wait_channel sleep_channel && leb p.wake_tick now
    then record p { state = ready }
    else p)

-- `proc_alloc`: the new process of the slot that it finds, with `pid` from `next_pid`.
unfoldable pub new_process : List Process → Option ℕ → ℕ → Sigaction → Process
new_process procs cur pid no_action =
    let fresh : Process = record {
      pid = pid;
      state = embryo;
      is_user = false;
      is_idle = false;
      parent = cur;
      killed = false;
      pgid = 0;
      sid = 0;
      sig_pending = 0;
      sig_blocked = 0;
      sig_actions = λ s. no_action;
      stop_sig = 0;
      stop_reported = false;
      alarm_tick = 0;
      exit_status = 0;
      wait_channel = nowhere;
      wake_tick = 0;
      cpu_ticks = 0;
      quantum_left = sched_quantum;
    } in
    elim cur [
      | none ↦ fresh
      | some j ↦ elim (get_elem? procs j) [
        | none ↦ fresh
        | some par ↦ if par.is_idle then fresh else record fresh {
          pgid = par.pgid;
          sid = par.sid;
          sig_actions = par.sig_actions;
          sig_blocked = par.sig_blocked;
        }
      ]
    ]

unfoldable pub find_unused : ℕ → List Process → Option ℕ
find_unused i [] = none
find_unused i (p ∷ ps) = if is_unused p.state then some i else find_unused (i + 1) ps

-- The new slot and table; `has_stack` says whether the kernel stack could be allocated.
unfoldable pub proc_alloc : List Process → Option ℕ → ℕ → Sigaction → Bool → Option ℕ × List Process
proc_alloc procs cur next_pid no_action has_stack = elim (find_unused 0 procs) [
  | none ↦ (none, procs)
  | some i ↦
      let p = new_process procs cur next_pid no_action in
      if has_stack
      then (some i, modify procs i (λ old. p))
      else (none, modify procs i (λ old. record p { state = unused }))
]

-- `proc_free`, after the resources are released.
unfoldable pub proc_free : List Process → ℕ → List Process
proc_free procs i = modify procs i (λ p. record p { state = unused })

unfoldable pub proc_make_ready : List Process → ℕ → List Process
proc_make_ready procs i = modify procs i (λ p. record p { state = ready })

-- The loop of `do_exit` over the children.
unfoldable pub orphan : ℕ → Process → Process
orphan cur p =
    if not (is_unused p.state) && is_slot p.parent cur then record p { parent = none } else p

-- `if (me->parent)`: the parent is woken up and told.
unfoldable pub tell_parent : List Process → Option ℕ → List Process
tell_parent procs none = procs
tell_parent procs (some j) =
    modify (wakeup_locked procs (slot_channel j)) j (λ p. signal_send_locked p sigchld)

unfoldable pub parent_of : List Process → ℕ → Option ℕ
parent_of procs i = elim (get_elem? procs i) [ none ↦ none | some p ↦ p.parent ]

-- The children lose their parent, and the process is a zombie with a status.
unfoldable pub become_zombie : List Process → ℕ → ℕ → List Process
become_zombie procs cur status =
    modify (map (orphan cur) procs) cur (λ me. record me { exit_status = status; state = zombie })

-- `do_exit` after the files and the memory are given back.
unfoldable pub do_exit : List Process → ℕ → ℕ → List Process
do_exit procs cur status =
    let procs' = become_zombie procs cur status in tell_parent procs' (parent_of procs' cur)

unfoldable pub proc_exit : List Process → ℕ → ℕ → List Process
proc_exit procs cur code = do_exit procs cur (bit_and code 0xFF * 2 ^ 8)

unfoldable pub proc_exit_signal : List Process → ℕ → ℕ → List Process
proc_exit_signal procs cur sig = do_exit procs cur (bit_and sig 0x7F)

-- One slot of `reap_orphans`, up to `proc_free`.
unfoldable pub reap_orphan : Process → Process
reap_orphan p = elim p.parent [
  | none ↦ if is_zombie p.state then record p { state = dead } else p
  | some j ↦ p
]

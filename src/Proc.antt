-- ===== src/Proc.antt =====
-- kernel/proc/process.h and the parts of kernel/proc/process.c that other components call: the
-- process structure, the table of processes and waking up. Of the structure, the model keeps the
-- fields that signals, pipes and the terminal read or write.
use c_loyha.Base.{ℕ, suc, Bool, true, false, not, ◌&&◌, ◌==◌, if◌then◌else◌}
use c_loyha.Base.{Option, none, some, List, [], ◌∷◌}

-- `enum proc_state`
pub data ProcState : Type 0 where
  unused embryo ready running blocked zombie dead stopped : ProcState

-- `struct myos_sigaction`
pub record Sigaction : Type 0 where
  pub sa_handler : ℕ
  pub sa_flags : ℕ
  pub sa_restorer : ℕ
  pub sa_mask : ℕ

-- What a process sleeps on (`const void *`): the slot of a process, the clock, or the address of
-- something else.
pub data Channel : Type 0 where
  nowhere : Channel
  slot_channel : ℕ → Channel
  sleep_channel : Channel
  address : ℕ → Channel

-- `struct process`. `parent` is a slot of the table; `sig_actions` is an array of NSIG entries.
pub record Process : Type 0 where
  pub pid : ℕ
  pub state : ProcState
  pub is_user : Bool
  pub is_idle : Bool
  pub parent : Option ℕ
  pub killed : Bool
  pub pgid : ℕ
  pub sid : ℕ
  pub sig_pending : ℕ
  pub sig_blocked : ℕ
  pub sig_actions : ℕ → Sigaction
  pub stop_sig : ℕ
  pub stop_reported : Bool
  pub alarm_tick : ℕ
  pub exit_status : ℕ
  pub wait_channel : Channel
  pub wake_tick : ℕ
  pub cpu_ticks : ℕ
  pub quantum_left : ℕ

abbrev pub is_unused : ProcState → Bool
is_unused unused = true
is_unused _ = false

abbrev pub is_blocked : ProcState → Bool
is_blocked blocked = true
is_blocked _ = false

abbrev pub is_stopped : ProcState → Bool
is_stopped stopped = true
is_stopped _ = false

-- `alive` of signal.c
abbrev pub is_alive : ProcState → Bool
is_alive unused = false
is_alive zombie = false
is_alive dead = false
is_alive _ = true

-- `proc_wake_locked`
unfoldable pub proc_wake_locked : Process → Process
proc_wake_locked p = if is_blocked p.state then record p { state = ready } else p

-- `proc_find_locked`: the first slot in use with this pid, counted from `i`.
pub find_from : ℕ → List Process → ℕ → Option ℕ
find_from i [] pid = none
find_from i (p ∷ ps) pid =
    if not (is_unused p.state) && p.pid == pid then some i else find_from (suc i) ps pid

unfoldable pub proc_find_locked : List Process → ℕ → Option ℕ
unfolding find_from
proc_find_locked procs pid = find_from 0 procs pid

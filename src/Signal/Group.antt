-- ===== src/Signal/Group.antt =====
-- kernel/proc/signal.c: what works on the table of processes: signals to a process or a group
-- (`signal_kill`, `signal_send_pgrp`), process groups and sessions (`sys_setpgid`, `sys_setsid`), and
-- alarms. The table is a list of slots, and `cur` is the slot of the current process.
pub mod Sessions
pub mod Setpgid
pub mod Kill
use c_loyha.Base.{ℕ, zero, suc, ◌+◌, ◌-◌, ◌*◌, ◌/◌, ◌%◌, ◌^◌, Bool, true, false, not, ◌&&◌, ◌||◌}
use c_loyha.Base.{◌==◌, leb, ltb, if◌then◌else◌, Option, none, some, List, [], ◌∷◌, get_elem?, set}
use c_loyha.Abi.{Ret, done, fail, eperm, esrch, einval, ℤ, pos, negsuc, nsig, sigalrm}
use c_loyha.Proc.{Process, is_unused, is_alive, proc_find_locked}
use c_loyha.Signal.{signal_send_locked}

-- `p == &procs[i]` for a pointer that may be null
abbrev pub is_slot : Option ℕ → ℕ → Bool
is_slot none i = false
is_slot (some j) i = j == i

-- `p->parent && p->parent->is_user`
unfoldable pub has_user_parent : List Process → Process → Bool
has_user_parent procs p = elim p.parent [
  | none ↦ false
  | some j ↦ elim (get_elem? procs j) [ none ↦ false | some q ↦ q.is_user ]
]

-- The members of a group, which `signal_send_pgrp_locked` signals and counts.
unfoldable pub send_members : List Process → ℕ → ℕ → ℕ × List Process
send_members [] pgid sig = (0, [])
send_members (p ∷ ps) pgid sig =
    let (n, rest) = send_members ps pgid sig in
    if not (is_unused p.state) && p.is_user && p.pgid == pgid
    then (n + 1, signal_send_locked p sig ∷ rest)
    else (n, p ∷ rest)

-- A group number is positive; 0 stands for every `pgid <= 0`.
unfoldable pub signal_send_pgrp_locked : List Process → ℕ → ℕ → ℕ × List Process
signal_send_pgrp_locked procs pgid sig =
    if pgid == 0 then (0, procs) else send_members procs pgid sig

-- Whom `kill(pid, sig)` means when `pid` is no process: everybody but the caller and init (-1), or a
-- group.
pub data Audience : Type 0 where
  everybody : Audience
  group : ℕ → Audience

-- Whether the loop of `signal_kill` reaches slot `i`. Sending changes nothing that is read here.
unfoldable pub is_addressed : List Process → ℕ → Audience → ℕ → Process → Bool
is_addressed procs cur everybody i p =
    is_alive p.state && p.is_user && not (i == cur) && has_user_parent procs p
is_addressed procs cur (group pgid) i p = is_alive p.state && p.is_user && p.pgid == pgid

-- `if (sig) signal_send_locked(p, sig)`: signal 0 only asks whether the process may be signalled.
unfoldable pub send_if : Process → ℕ → Process
send_if p sig = if sig == 0 then p else signal_send_locked p sig

-- The loop from slot `i` on: the table after it, and whether somebody was reached.
unfoldable pub kill_from : List Process → ℕ → Audience → ℕ → ℕ → List Process → Bool × List Process
kill_from procs cur who sig i [] = (false, [])
kill_from procs cur who sig i (p ∷ ps) =
    let (found, rest) = kill_from procs cur who sig (i + 1) ps in
    if is_addressed procs cur who i p then (true, send_if p sig ∷ rest) else (found, p ∷ rest)

unfoldable pub kill_process : List Process → ℕ → ℕ → Ret × List Process
kill_process procs pid sig = elim (proc_find_locked procs pid) [
  | none ↦ (fail esrch, procs)
  | some i ↦ elim (get_elem? procs i) [
    | none ↦ (fail esrch, procs)
    | some p ↦
        if not (is_alive p.state)
        then (fail esrch, procs)
        else if not p.is_user
        then (fail eperm, procs)
        else (done 0, set procs i (send_if p sig))
  ]
]

unfoldable pub kill_audience : List Process → ℕ → Audience → ℕ → Ret × List Process
kill_audience procs cur who sig =
    let (found, procs') = kill_from procs cur who sig 0 procs in
    (if found then done 0 else fail esrch, procs')

-- `current->pgid`
unfoldable pub current_pgid : List Process → ℕ → ℕ
current_pgid procs cur = elim (get_elem? procs cur) [ none ↦ 0 | some me ↦ me.pgid ]

unfoldable pub kill_number : List Process → ℕ → ℤ → ℕ → Ret × List Process
kill_number procs cur (pos zero) sig = kill_audience procs cur (group (current_pgid procs cur)) sig
kill_number procs cur (pos (suc n)) sig = kill_process procs (suc n) sig
kill_number procs cur (negsuc zero) sig = kill_audience procs cur everybody sig
kill_number procs cur (negsuc (suc n)) sig = kill_audience procs cur (group (n + 2)) sig

unfoldable pub signal_kill : List Process → ℕ → ℤ → ℤ → Ret × List Process
signal_kill procs cur pid (negsuc n) = (fail einval, procs)
signal_kill procs cur pid (pos sig) =
    if leb nsig sig then (fail einval, procs) else kill_number procs cur pid sig

-- Whether a live process of the session is in the group.
unfoldable pub group_in_session : List Process → ℕ → ℕ → Bool
group_in_session [] target sid = false
group_in_session (q ∷ qs) target sid =
    is_alive q.state && q.pgid == target && q.sid == sid || group_in_session qs target sid

-- `sys_setpgid` for the process `p` of slot `k`, called by `me`; `pgid` is an `int64_t` that is not
-- negative, and is cut to `int`.
unfoldable pub setpgid_checked : List Process → ℕ → Process → ℕ → Process → ℕ → Ret × List Process
setpgid_checked procs cur me k p pgid =
    let target = if pgid == 0 then p.pid else pgid % 2 ^ 32 in
    if not (is_alive p.state) || not (k == cur) && not (is_slot p.parent cur)
    then (fail esrch, procs)
    else if not (p.sid == me.sid) || p.sid == p.pid
    then (fail eperm, procs)
    else if target == p.pid || group_in_session procs target me.sid
    then (done 0, set procs k (record p { pgid = target }))
    else (fail eperm, procs)

-- `proc_find_locked((int)pid)`, for the 32 bits that are left of `pid`. No process has a negative pid.
unfoldable pub find_int : List Process → ℕ → Option ℕ
find_int procs word = if ltb word (2 ^ 31) then proc_find_locked procs word else none

-- `pid == 0 ? me : proc_find_locked((int)pid)`: the test reads all 64 bits, the search 32 of them.
unfoldable pub slot_of : List Process → ℕ → ℤ → Option ℕ
slot_of procs cur (pos zero) = some cur
slot_of procs cur (pos (suc n)) = find_int procs (suc n % 2 ^ 32)
slot_of procs cur (negsuc n) = find_int procs (2 ^ 32 - 1 - n % 2 ^ 32)

unfoldable pub setpgid_slot : List Process → ℕ → Process → Option ℕ → ℕ → Ret × List Process
setpgid_slot procs cur me none pgid = (fail esrch, procs)
setpgid_slot procs cur me (some k) pgid = elim (get_elem? procs k) [
  | none ↦ (fail esrch, procs)
  | some p ↦ setpgid_checked procs cur me k p pgid
]

unfoldable pub sys_setpgid : List Process → ℕ → Process → ℤ → ℤ → Ret × List Process
sys_setpgid procs cur me pid (negsuc n) = (fail einval, procs)
sys_setpgid procs cur me pid (pos pgid) = setpgid_slot procs cur me (slot_of procs cur pid) pgid

unfoldable pub sys_getpgid : List Process → ℕ → ℤ → Ret
sys_getpgid procs cur pid = elim (slot_of procs cur pid) [
  | none ↦ fail esrch
  | some k ↦ elim (get_elem? procs k) [
    | none ↦ fail esrch
    | some p ↦ if is_alive p.state then done p.pgid else fail esrch
  ]
]

unfoldable pub group_taken : List Process → ℕ → Bool
group_taken [] pgid = false
group_taken (q ∷ qs) pgid = is_alive q.state && q.pgid == pgid || group_taken qs pgid

unfoldable pub sys_setsid : List Process → ℕ → Process → Ret × List Process
sys_setsid procs cur me =
    if group_taken procs me.pid
    then (fail eperm, procs)
    else (done me.pid, set procs cur (record me { sid = me.pid; pgid = me.pid }))

-- `TIMER_HZ`
abbrev pub timer_hz : ℕ
timer_hz = 100

unfoldable pub sys_alarm : Process → ℕ → ℕ → ℕ × Process
sys_alarm me now seconds =
    let left =
      if ltb now me.alarm_tick then (me.alarm_tick - now + timer_hz - 1) / timer_hz else 0 in
    (
      left,
      record me { alarm_tick = if seconds == 0 then 0 else (now + seconds * timer_hz) % 2 ^ 64 },
    )

-- A process whose time has come; `signal_check_alarms_locked` asks it of every slot.
unfoldable pub check_alarm : ℕ → Process → Process
check_alarm now p =
    if not (p.alarm_tick == 0) && leb p.alarm_tick now && is_alive p.state
    then signal_send_locked (record p { alarm_tick = 0 }) sigalrm
    else p

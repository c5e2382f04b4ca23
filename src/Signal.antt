-- ===== src/Signal.antt =====
-- kernel/proc/signal.c: the masks, sending a signal to a process, and which signal comes next.
-- A mask is a `uint32_t` with a bit for each signal.
pub mod Masks
pub mod Sending
pub mod Next
pub mod Frame
pub mod Calls
pub mod Group
use c_loyha.Base.{ℕ, ◌^◌, bit_and, bit_or, Bool, true, not, ◌&&◌, ◌||◌, ◌==◌, leb}
use c_loyha.Base.{if◌then◌else◌}
use c_loyha.Base.Bits.{complement, ctz}
use c_loyha.Abi.{sigkill, sigchld, sigcont, sigstop, sigtstp, sigttin, sigttou, sigwinch, nsig}
use c_loyha.Abi.{sig_dfl, sig_ign}
use c_loyha.Proc.{Process, ready, is_alive, is_blocked, is_stopped, proc_wake_locked}

-- `BIT(s)`
abbrev pub bit : ℕ → ℕ
bit s = 2 ^ s

-- `a & ~b` on `uint32_t`
abbrev pub clear : ℕ → ℕ → ℕ
clear a b = bit_and a (complement 32 b)

-- `(a & BIT(s)) != 0`
abbrev pub has : ℕ → ℕ → Bool
has a s = not (bit_and a (bit s) == 0)

-- `UNBLOCKABLE`
abbrev pub unblockable : ℕ
unblockable = bit_or (bit sigkill) (bit sigstop)

-- `STOP_SIGNALS`
abbrev pub stop_signals : ℕ
stop_signals = bit_or (bit_or (bit_or (bit sigstop) (bit sigtstp)) (bit sigttin)) (bit sigttou)

-- 23 is SIGURG.
unfoldable pub default_ignore : ℕ → Bool
default_ignore sig = sig == sigchld || sig == sigcont || sig == sigwinch || sig == 23

unfoldable pub default_stop : ℕ → Bool
default_stop sig = has stop_signals sig

-- The guard at the head of `signal_send_locked`.
unfoldable pub send_refused : Process → ℕ → Bool
send_refused p sig =
    sig == 0 || leb nsig sig || not p.is_user || p.is_idle || not (is_alive p.state)

-- SIGCONT: forget the stop signals that wait, and let a stopped process go on.
unfoldable pub continue_process : Process → Process
continue_process p =
    let p' = record p { sig_pending = clear p.sig_pending stop_signals } in
    if is_stopped p.state then record p' { state = ready } else p'

-- What is done before the signal is queued: SIGKILL marks the process, SIGCONT continues it, and a
-- stop signal takes back a waiting SIGCONT.
unfoldable pub send_effects : Process → ℕ → Process
unfolding continue_process
send_effects p sig =
    let p1 = if sig == sigkill then record p { killed = true } else p in
    let p2 = if sig == sigcont then continue_process p1 else p1 in
    if default_stop sig then record p2 { sig_pending = clear p2.sig_pending (bit sigcont) } else p2

-- Whether the process ignores the signal, so that it is not queued at all.
unfoldable pub send_ignored : Process → ℕ → Bool
unfolding default_ignore
send_ignored p sig =
    let h = (p.sig_actions sig).sa_handler in
    not (has unblockable sig)
    && not (has p.sig_blocked sig)
    && (h == sig_ign || h == sig_dfl && default_ignore sig)

-- After the signal is queued: a sleeping process wakes up, and SIGKILL lets a stopped one run.
unfoldable pub send_wake : Process → ℕ → Process
unfolding proc_wake_locked
send_wake p sig =
    if not (has p.sig_blocked sig) || has unblockable sig
    then (if is_blocked p.state
        then proc_wake_locked p
        else if is_stopped p.state && sig == sigkill
        then record p { state = ready }
        else p)
    else p

unfoldable pub signal_send_locked : Process → ℕ → Process
signal_send_locked p sig =
    if send_refused p sig
    then p
    else (let q = send_effects p sig in
        if send_ignored q sig
        then q
        else send_wake (record q { sig_pending = bit_or q.sig_pending (bit sig) }) sig)

-- `sig_pending & ~sig_blocked`
abbrev pub deliverable : Process → ℕ
deliverable p = clear p.sig_pending p.sig_blocked

unfoldable pub signal_interrupted : Process → Bool
signal_interrupted p = p.killed || not (deliverable p == 0)

-- The signal to deliver next; 0 for none.
unfoldable pub next_signal : Process → ℕ
next_signal p =
    if p.killed
    then sigkill
    else if deliverable p == 0
    then 0
    else if has (deliverable p) sigkill
    then sigkill
    else ctz 32 (deliverable p)

-- ===== src/Tests/Processes.antt =====
-- The scheduler, exit and wait on a table of two processes.
use c_loyha.Base.{ℕ, zero, suc, ◌<◌, ◌≡◌, refl, ap, ◌∙◌, subst, arith, true, false, some}
use c_loyha.Base.{get_elem?, eq_of_some}
use c_loyha.Abi.{pos, negsuc}
use c_loyha.Proc.{Process}
use c_loyha.Sched.{max_procs, pick_next, do_exit, modify, dispatch}
use c_loyha.Sched.Fair.{rr_after, pick_next-runs}
use c_loyha.Sched.Family.{ParentsLive, LiveAt}
use c_loyha.Base.{◌↔◌}
use c_loyha.Proc.{Process}
use c_loyha.Sched.Scan.{Asked, is_candidate}
use c_loyha.Sched.Wait.{proc_wait, WaitSound, reaps, proc_wait-WaitSound}
use c_loyha.Abi.{sigtstp}
use c_loyha.Sched.{tell_parent, wakeup_locked, wake_on}
use c_loyha.Signal.Frame.{proc_stop_self}
use c_loyha.Proc.{proc_wake_locked}
use c_loyha.Signal.{
  signal_send_locked, send_refused, send_effects, continue_process, send_ignored, default_ignore,
  default_stop, send_wake,
}
use c_loyha.Sched.Slots.{stop_and_tell}
use c_loyha.Sched.Life.{here, next, exits, runs, stops, Reach-ParentsLive}
use c_loyha.Sched.ExitWait.{proc_wait-do_exit}
use c_loyha.Tests.Groups.{leader, child, table}

pick_next-runs_example :
    (n : ℕ) × (n < max_procs) × ((pick_next table (rr_after (λ k. table) 60 n)).0 ≡ some 1)
pick_next-runs_example = pick_next-runs (λ k. table) 60 1 (omega arith) (omega arith) (λ n. refl)

table-ParentsLive : ParentsLive table
table-ParentsLive zero p j at_i used par = let e = eq_of_some at_i in ground arith
table-ParentsLive (suc zero) p j at_i used par =
    let e : child ≡ p = eq_of_some at_i in
    let first : 0 ≡ j = eq_of_some (ap (λ (r : Process). r.parent) e ∙ par) in
    subst (λ (k : ℕ). LiveAt table k) first (leader, refl, refl)
table-ParentsLive (suc (suc i)) p j at_i used par = cc

leader_lives : LiveAt (stop_and_tell (modify table 1 dispatch) 1 sigtstp) 0
unfolding stop_and_tell proc_stop_self tell_parent wakeup_locked wake_on dispatch signal_send_locked
    send_refused send_effects continue_process send_ignored default_ignore default_stop send_wake
    proc_wake_locked
leader_lives = (leader, refl, refl)

Reach-ParentsLive_example :
    ParentsLive (do_exit (stop_and_tell (modify table 1 dispatch) 1 sigtstp) 0 0)
unfolding dispatch
Reach-ParentsLive_example =
    Reach-ParentsLive {a = table}
      (next {b = stop_and_tell (modify table 1 dispatch) 1 sigtstp}
        (next {b = modify table 1 dispatch} (next {b = table} here (runs 1 (child, refl, refl)))
          (stops 1 sigtstp (dispatch child, refl, refl)))
        (exits 0 0 leader_lives))
      table-ParentsLive

proc_wait-WaitSound_example :
    WaitSound table 0
      (negsuc 0)
      2
      true
      false
      false
      (proc_wait table 0 (negsuc 0) 2 true false false).0
      (proc_wait table 0 (negsuc 0) 2 true false false).1
    × ((p : Process) → (is_candidate 0 (negsuc 0) 2 p ≡ true) ↔ Asked 0 (negsuc 0) 2 p)
proc_wait-WaitSound_example = proc_wait-WaitSound table 0 (negsuc 0) 2 true false false

only_child :
    (i : ℕ) (r : Process) → get_elem? table i ≡ some r → r.pid ≡ 3 → r.parent ≡ some 0 → i ≡ 1
only_child zero r at_i number par = let e = eq_of_some at_i in ground arith
only_child (suc zero) r at_i number par = refl
only_child (suc (suc i)) r at_i number par = cc

proc_wait-do_exit_example :
    (proc_wait (do_exit table 1 256) 0 (pos 3) 2 false false true).0 ≡ reaps 1 3 256
proc_wait-do_exit_example =
    proc_wait-do_exit table 1 0 256 2 2 child false false true refl refl (omega arith) refl
      only_child

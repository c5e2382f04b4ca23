-- ===== src/Tests/Groups.antt =====
-- Process groups and `kill` on a table of two processes.
use c_loyha.Base.{
  ℕ, zero, suc, ◌≡◌, refl, true, false, none, some, List, [], ◌∷◌, get_elem?, sym, eq_of_some,
  arith,
}
use c_loyha.Base.{◌⊎◌, inl, inr, ◌↔◌, ◌==◌, if◌then◌else◌}
use c_loyha.Signal.{signal_send_locked}
use c_loyha.Abi.{fail, esrch, pos, sigint}
use c_loyha.Proc.{nowhere, Process, running, ready}
use c_loyha.Signal.Calls.{no_action}
use c_loyha.Signal.Group.{group, kill_audience, sys_setpgid}
use c_loyha.Signal.Group.Sessions.{Live, OneSession}
use c_loyha.Signal.Group.Setpgid.{sys_setpgid-OneSession}
use c_loyha.Signal.Group.Kill.{Reached, kill_audience_lem}

abbrev pub leader : Process
leader = record {
  pid = 2;
  state = running;
  is_user = true;
  is_idle = false;
  parent = none;
  killed = false;
  pgid = 2;
  sid = 2;
  sig_pending = 0;
  sig_blocked = 0;
  sig_actions = λ s. no_action;
  stop_sig = 0;
  stop_reported = false;
  alarm_tick = 0;
  exit_status = 0;
  wait_channel = nowhere;
  wake_tick = 0;
  cpu_ticks = 0;
  quantum_left = 5;
}

abbrev pub child : Process
child = record leader { pid = 3; state = ready; parent = some 0 }

abbrev pub table : List Process
table = leader ∷ child ∷ []

pub which :
    (i : ℕ) (p : Process) → Live table i p → ((i ≡ 0) × (p ≡ leader)) ⊎ ((i ≡ 1) × (p ≡ child))
which zero p live = inl (refl, sym (eq_of_some live.0))
which (suc zero) p live = inr (refl, sym (eq_of_some live.0))
which (suc (suc i)) p live = cc

one_session : (i : ℕ) (p : Process) → Live table i p → p.sid ≡ 2
one_session i p live = elim (which i p live) [ inl (a, e) ↦ rw e refl | inr (a, e) ↦ rw e refl ]

table-OneSession : OneSession table
table-OneSession = record {
  unique = λ i j p q live_p live_q e.
      let at_i = which i p live_p in let at_j = which j q live_q in ground arith;
  groups = λ i j p q live_p live_q e. rw (one_session i p live_p, one_session j q live_q) refl;
  leaders = λ i j p q live_p live_q e. rw (one_session i p live_p, one_session j q live_q) refl;
}

sys_setpgid-OneSession_example : OneSession (sys_setpgid table 0 leader (pos 3) (pos 0)).1
sys_setpgid-OneSession_example =
    sys_setpgid-OneSession table 0 leader (pos 3) (pos 0) table-OneSession

kill_audience_lem_example :
    ((i : ℕ) (p : Process)
      → get_elem? table i ≡ some p
      → (Reached table 0 (group 2) i p
          → get_elem? (kill_audience table 0 (group 2) sigint).1 i
            ≡ some (if sigint == 0 then p else signal_send_locked p sigint))
        × (¬ Reached table 0 (group 2) i p
            → get_elem? (kill_audience table 0 (group 2) sigint).1 i ≡ some p))
    × (((kill_audience table 0 (group 2) sigint).0 ≡ fail esrch)
        ↔ ((i : ℕ) (p : Process) → get_elem? table i ≡ some p → ¬ Reached table 0 (group 2) i p))
kill_audience_lem_example = kill_audience_lem table 0 (group 2) sigint

-- ===== src/Signal/Group/Setpgid.antt =====
-- `sys_setpgid` and `sys_setsid` on process groups and sessions.
use c_loyha.Base.{ℕ, ◌%◌, ◌^◌, ◌≡◌, inl, inr, arith}
use c_loyha.Base.{true, false, not, ◌&&◌, ◌||◌, ◌==◌, if◌then◌else◌, Bool-cases, Option-cases}
use c_loyha.Base.{Option, none, some, List, get_elem?, subst}
use c_loyha.Abi.{ℤ, pos, negsuc}
use c_loyha.Proc.{Process, is_alive}
use c_loyha.Signal.Group.{group_in_session, group_taken, setpgid_checked, setpgid_slot, slot_of}
use c_loyha.Signal.Group.{is_slot, sys_setpgid, sys_setsid}
use c_loyha.Signal.Group.Sessions.{
  Live, OneSession, set-OneSession, setpgid-Regrouped, setsid-Regrouped,
}

setpgid_checked-OneSession :
    (procs : List Process) (cur : ℕ) (me : Process) (k : ℕ) (p : Process) (pgid : ℕ)
    → OneSession procs
    → get_elem? procs k ≡ some p
    → OneSession (setpgid_checked procs cur me k p pgid).1
unfolding setpgid_checked
setpgid_checked-OneSession procs cur me k p pgid inv at_k =
    elim (Bool-cases (not (is_alive p.state) || not (k == cur) && not (is_slot p.parent cur))) [
      | inl gone ↦ rw gone inv
      | inr here ↦ elim (Bool-cases (not (p.sid == me.sid) || p.sid == p.pid)) [
        | inl foreign ↦ rw (here, foreign) inv
        | inr ours ↦ elim (Bool-cases (target == p.pid)) [
          | inl own ↦
              rw (here, ours, own)
                (set-OneSession procs k p (record p { pgid = target }) (at_k, alive here) inv
                  (setpgid-Regrouped procs k p target inv (at_k, alive here) (inl (ground arith))))
          | inr other ↦ elim (Bool-cases (group_in_session procs target me.sid)) [
            | inl found ↦
                rw (here, ours, other, found)
                  (set-OneSession procs k p (record p { pgid = target }) (at_k, alive here) inv
                    (setpgid-Regrouped procs k p target inv (at_k, alive here)
                      (inr (
                        subst (λ (sid : ℕ). group_in_session procs target sid ≡ true)
                          (same_sid ours) found))))
            | inr missing ↦ rw (here, ours, other, missing) inv
          ]
        ]
      ]
    ]
  where
    target : ℕ
    target = if pgid == 0 then p.pid else pgid % 2 ^ 32

    alive :
        (not (is_alive p.state) || not (k == cur) && not (is_slot p.parent cur)) ≡ false
        → is_alive p.state ≡ true
    alive h = ground arith

    same_sid : (not (p.sid == me.sid) || p.sid == p.pid) ≡ false → me.sid ≡ p.sid
    same_sid h = ground arith

setpgid_slot-OneSession :
    (procs : List Process) (cur : ℕ) (me : Process) (slot : Option ℕ) (pgid : ℕ)
    → OneSession procs
    → OneSession (setpgid_slot procs cur me slot pgid).1
unfolding setpgid_slot
setpgid_slot-OneSession procs cur me none pgid inv = inv
setpgid_slot-OneSession procs cur me (some k) pgid inv = elim (Option-cases (get_elem? procs k)) [
  | inl empty ↦ rw (empty, setpgid_slot) inv
  | inr (p, at_k) ↦
      rw (at_k, setpgid_slot) (setpgid_checked-OneSession procs cur me k p pgid inv at_k)
]

-- `setpgid`, with whatever arguments, keeps every process group within one session.
pub sys_setpgid-OneSession :
    (procs : List Process) (cur : ℕ) (me : Process) (pid pgid : ℤ)
    → OneSession procs
    → OneSession (sys_setpgid procs cur me pid pgid).1
unfolding sys_setpgid
sys_setpgid-OneSession procs cur me pid (negsuc n) inv = inv
sys_setpgid-OneSession procs cur me pid (pos pgid) inv =
    setpgid_slot-OneSession procs cur me (slot_of procs cur pid) pgid inv

-- `setsid` keeps every process group within one session.
pub sys_setsid-OneSession :
    (procs : List Process) (cur : ℕ) (me : Process)
    → OneSession procs
    → Live procs cur me
    → OneSession (sys_setsid procs cur me).1
unfolding sys_setsid
sys_setsid-OneSession procs cur me inv live = elim (Bool-cases (group_taken procs me.pid)) [
  | inl taken ↦ rw taken inv
  | inr free ↦ rw free (
      set-OneSession procs cur me (record me { sid = me.pid; pgid = me.pid }) live inv
        (setsid-Regrouped procs cur me inv live free))
]

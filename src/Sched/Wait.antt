-- ===== src/Sched/Wait.antt =====
-- `proc_wait`. A sleep is an outcome: who is woken up scans the table again.
use c_loyha.Base.{ℕ, ◌*◌, ◌^◌, ◌≡◌, ◌≢◌, ◌⊎◌, inl, inr, refl, arith, Bool}
use c_loyha.Base.{true, false, not, ◌&&◌, if◌then◌else◌}
use c_loyha.Base.{some, List, get_elem?, bit_or}
use c_loyha.Base.{◌↔◌}
use c_loyha.Abi.{Errno, echild, eintr, ℤ}
use c_loyha.Proc.{Process, is_stopped, dead}
use c_loyha.Sched.{modify, is_zombie}
use c_loyha.Sched.Scan.{
  is_candidate, Scan, zombie_at, stopped_at, at_end, wait_scan, Asked, is_candidate-Asked,
  ScanSound, scan_sound,
}

-- A pid with a status, -ECHILD or -EINTR, 0, or a sleep on the caller's own slot.
pub data Waited : Type 0 where
  reaps : ℕ → ℕ → ℕ → Waited
  reports : ℕ → ℕ → Waited
  wait_fails : Errno → Waited
  no_news : Waited
  wait_sleeps : Waited

-- What follows the scan.
unfoldable pub wait_result : List Process → Bool → Bool → Scan → Waited × List Process
wait_result procs nohang signalled (zombie_at i p) =
    (reaps i p.pid p.exit_status, modify procs i (λ q. record q { state = dead }))
wait_result procs nohang signalled (stopped_at i p) = (
  reports p.pid (bit_or (p.stop_sig * 2 ^ 8) 0x7F),
  modify procs i (λ q. record q { stop_reported = true }),
)
wait_result procs nohang signalled (at_end have_child) = (
  if not have_child
      then wait_fails echild
      else if nohang
      then no_news
      else if signalled
      then wait_fails eintr
      else wait_sleeps,
  procs,
)

unfoldable pub proc_wait : List Process → ℕ → ℤ → ℕ → Bool → Bool → Bool → Waited × List Process
proc_wait procs cur pid pgid untraced nohang signalled =
    wait_result procs nohang signalled (wait_scan cur pid pgid untraced 0 false procs)

-- No child that the call is about is a zombie, or stopped and to be reported.
abbrev pub NoNews : List Process → ℕ → ℤ → ℕ → Bool → Type 0
NoNews procs cur pid pgid untraced =
    (i : ℕ) (p : Process)
    → get_elem? procs i ≡ some p
    → is_candidate cur pid pgid p ≡ true
    → (is_zombie p.state ≡ false)
      × ((is_stopped p.state && untraced && not p.stop_reported) ≡ false)

-- What each result of `proc_wait` says of the table, and what becomes of the table.
abbrev pub WaitSound :
    List Process → ℕ → ℤ → ℕ → Bool → Bool → Bool → Waited → List Process → Type 0
WaitSound procs cur pid pgid untraced nohang signalled (reaps i n status) procs' =
    (p : Process) × (get_elem? procs i ≡ some p)
    × (is_candidate cur pid pgid p ≡ true)
    × (is_zombie p.state ≡ true)
    × (n ≡ p.pid)
    × (status ≡ p.exit_status)
    × (procs' ≡ modify procs i (λ q. record q { state = dead }))
WaitSound procs cur pid pgid untraced nohang signalled (reports n status) procs' =
    (i : ℕ) × (p : Process) × (get_elem? procs i ≡ some p)
    × (is_candidate cur pid pgid p ≡ true)
    × (is_stopped p.state ≡ true)
    × (untraced ≡ true)
    × (p.stop_reported ≡ false)
    × (n ≡ p.pid)
    × (status ≡ bit_or (p.stop_sig * 256) 127)
    × (procs' ≡ modify procs i (λ q. record q { stop_reported = true }))
WaitSound procs cur pid pgid untraced nohang signalled (wait_fails e) procs' =
    (procs' ≡ procs)
    × (((e ≡ echild)
          × ((i : ℕ) (p : Process)
              → get_elem? procs i ≡ some p
              → is_candidate cur pid pgid p ≡ false))
        ⊎ ((e ≡ eintr) × (signalled ≡ true) × NoNews procs cur pid pgid untraced))
WaitSound procs cur pid pgid untraced nohang signalled no_news procs' =
    (procs' ≡ procs) × (nohang ≡ true) × NoNews procs cur pid pgid untraced
WaitSound procs cur pid pgid untraced nohang signalled wait_sleeps procs' =
    (procs' ≡ procs)
    × (nohang ≡ false)
    × (signalled ≡ false)
    × ((i : ℕ) × (p : Process) × (get_elem? procs i ≡ some p)
        × (is_candidate cur pid pgid p ≡ true))
    × NoNews procs cur pid pgid untraced

not_true : (b c : Bool) → (b ≡ true → c ≡ true) → c ≡ false → b ≡ false
not_true true c h e = cc (h refl)
not_true false c h e = refl

wait_result-WaitSound :
    (procs : List Process) (cur : ℕ) (pid : ℤ) (pgid : ℕ) (untraced nohang signalled : Bool)
    (s : Scan)
    → ScanSound cur pid pgid untraced 0 false procs s
    → WaitSound procs cur pid pgid untraced nohang signalled
        (wait_result procs nohang signalled s).0
        (wait_result procs nohang signalled s).1
unfolding wait_result
wait_result-WaitSound procs cur pid pgid untraced nohang signalled (zombie_at i p) sound =
    let e : i ≡ sound.0 = omega (arith, sound.1) in
    (p, rw e sound.2, sound.3, sound.4, refl, refl, refl)
wait_result-WaitSound procs cur pid pgid untraced nohang signalled (stopped_at i p) sound =
    let e : i ≡ sound.0 = omega (arith, sound.1) in
    (i, p, rw e sound.2, sound.3, sound.4, sound.5, sound.6, refl, refl, refl)
wait_result-WaitSound procs cur pid pgid untraced nohang signalled (at_end false) sound = (
  refl,
  inl (
    refl,
    λ i p e. not_true (is_candidate cur pid pgid p) false (λ ours. (sound.0 i p e ours).2) refl,
  ),
)
wait_result-WaitSound procs cur pid pgid untraced true signalled (at_end true) sound =
    (refl, refl, λ i p e ours. let (a, b, c) = sound.0 i p e ours in (a, b))
wait_result-WaitSound procs cur pid pgid untraced false true (at_end true) sound =
    (refl, inr (refl, refl, λ i p e ours. let (a, b, c) = sound.0 i p e ours in (a, b)))
wait_result-WaitSound procs cur pid pgid untraced false false (at_end true) sound = (
  refl,
  refl,
  refl,
  elim (sound.2 refl) [ inl e ↦ absurd (false_ne_true e) | inr child ↦ child ],
  λ i p e ours. let (a, b, c) = sound.0 i p e ours in (a, b),
)
  where
    false_ne_true : false ≢ true
    false_ne_true e = cc

-- `wait`: a pid and status that it returns are those of a zombie child that it was asked about, with
-- its exit status, whose slot is then dead; or, with WUNTRACED only, those of a stopped child not yet
-- reported, with its stop signal above 0x7F, which is then reported. It is ECHILD only without a child
-- that it was asked about. It sleeps only with such a child, no signal waiting and without WNOHANG; and it sleeps, is
-- EINTR or returns 0 only when none of them is a zombie, or stopped and to be reported. The children
-- that it is asked about are those of the slot `cur` with the number, or in the group, that `pid` says.
pub proc_wait-WaitSound :
    (procs : List Process) (cur : ℕ) (pid : ℤ) (pgid : ℕ) (untraced nohang signalled : Bool)
    → WaitSound procs cur pid pgid untraced nohang signalled
        (proc_wait procs cur pid pgid untraced nohang signalled).0
        (proc_wait procs cur pid pgid untraced nohang signalled).1
      × ((p : Process) → (is_candidate cur pid pgid p ≡ true) ↔ Asked cur pid pgid p)
unfolding proc_wait
proc_wait-WaitSound procs cur pid pgid untraced nohang signalled = (
  wait_result-WaitSound procs cur pid pgid untraced nohang signalled
      (wait_scan cur pid pgid untraced 0 false procs)
      (scan_sound cur pid pgid untraced 0 false procs),
  is_candidate-Asked cur pid pgid,
)

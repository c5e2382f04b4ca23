-- ===== src/Sched/ExitWait.antt =====
-- Exit and wait together: how the status of a child comes to its parent.
use c_loyha.Base.{
  ℕ, zero, suc, ◌+◌, ◌≡◌, ◌≢◌, ◌⊎◌, inl, inr, refl, sym, ◌∙◌, ap, arith, subst, Bool, true, false,
}
use c_loyha.Base.{
  not, ◌&&◌, ◌==◌, if◌then◌else◌, Bool-cases, Option-cases, Option, none, some, List, [],
}
use c_loyha.Base.{◌∷◌, get_elem?, map, eq_of_some}
use c_loyha.Abi.{pos, sigchld}
use c_loyha.Proc.{
  Process, ProcState, is_alive, is_unused, zombie, ready, Channel, slot_channel, is_blocked,
}
use c_loyha.Proc.{is_stopped}
use c_loyha.Signal.{signal_send_locked, send_effects, send_wake, continue_process, bit}
use c_loyha.Signal.Group.{is_slot}
use c_loyha.Sched.{wake_on, wakeup_locked, orphan, become_zombie, tell_parent, parent_of, do_exit}
use c_loyha.Sched.Family.{get_elem?-map, map_inverse, modify_self, modify_other, modify_inverse}
use c_loyha.Sched.Wait.{
  proc_wait, proc_wait-WaitSound, WaitSound, Waited, reaps, reports, wait_fails,
}
use c_loyha.Sched.Wait.{no_news, wait_sleeps}
use c_loyha.Sched.Scan.{is_candidate, wait_matches}

-- What a step on another process leaves of a process: its number and its parent.
abbrev Same : Process → Process → Type 0
Same p q = (q.pid ≡ p.pid) × (q.parent ≡ p.parent)

effects-Same : (sig : ℕ) (p : Process) → Same p (send_effects p sig)
unfolding send_effects continue_process
effects-Same sig p = ground arith

wake-Same : (sig : ℕ) (p : Process) → Same p (send_wake p sig)
unfolding send_wake c_loyha.Proc.proc_wake_locked
wake-Same sig p = ground arith

send-Same : (sig : ℕ) (p : Process) → Same p (signal_send_locked p sig)
unfolding signal_send_locked
send-Same sig p =
    let q = send_effects p sig in
    ground (
      arith,
      effects-Same sig p,
      wake-Same sig (record q { sig_pending = c_loyha.Base.bit_or q.sig_pending (bit sig) }),
    )

wake_on-Same : (channel : Channel) (p : Process) → Same p (wake_on channel p)
unfolding wake_on
wake_on-Same channel p = ground arith

-- Behind `tell_parent` every slot has the process it had, by number and parent.
tell_parent_inverse :
    (procs : List Process) (j i : ℕ) (q : Process)
    → get_elem? (tell_parent procs (some j)) i ≡ some q
    → (p : Process) × (get_elem? procs i ≡ some p) × Same p q
unfolding tell_parent wakeup_locked
tell_parent_inverse procs j i q e =
    elim (modify_inverse (map (wake_on (slot_channel j)) procs) j i
      (λ p. signal_send_locked p sigchld) q e) [
        | inl (same, p, at_p, is_f) ↦
            let (r, at_r, is_g) = map_inverse (wake_on (slot_channel j)) procs i p at_p in
            let sent = send-Same sigchld p in
            let woken = wake_on-Same (slot_channel j) r in
            (
              r,
              at_r,
              (
                ap (λ (x : Process). x.pid) is_f
                    ∙ sent.0
                    ∙ ap (λ (x : Process). x.pid) is_g
                    ∙ woken.0,
                ap (λ (x : Process). x.parent) is_f
                    ∙ sent.1
                    ∙ ap (λ (x : Process). x.parent) is_g
                    ∙ woken.1,
              ),
            )
        | inr (ne, at_q) ↦
            let (r, at_r, is_g) = map_inverse (wake_on (slot_channel j)) procs i q at_q in
            let woken = wake_on-Same (slot_channel j) r in
            (
              r,
              at_r,
              (
                ap (λ (x : Process). x.pid) is_g ∙ woken.0,
                ap (λ (x : Process). x.parent) is_g ∙ woken.1,
              ),
            )
      ]

abbrev zombie_of : ℕ → Process → Process
zombie_of status p = record p { exit_status = status; state = zombie }

wake_on-zombie_of :
    (channel : Channel) (status : ℕ) (p : Process)
    → wake_on channel (zombie_of status p) ≡ zombie_of status p
unfolding wake_on
wake_on-zombie_of channel status p = refl

orphan_other : (c j : ℕ) (p : Process) → p.parent ≡ some j → c ≢ j → orphan c p ≡ p
unfolding orphan
orphan_other c j p par ne =
    let away : is_slot (some j) c ≡ false = ground arith in
    let away' : is_slot p.parent c ≡ false = ap (λ (x : Option ℕ). is_slot x c) par ∙ away in
    elim (Bool-cases (is_unused p.state)) [
      | inl free ↦ rw free refl
      | inr used ↦ rw (used, away') refl
    ]

orphan_back :
    (c j : ℕ) (p : Process)
    → (orphan c p).parent ≡ some j
    → (p.parent ≡ some j) × ((orphan c p).pid ≡ p.pid)
unfolding orphan
orphan_back c j p par = ground arith

module _ (procs : List Process) (c j status : ℕ) (p : Process) (at_c : get_elem? procs c ≡ some p)
    (child : p.parent ≡ some j) (ne : c ≢ j) where
  at_zombie : get_elem? (become_zombie procs c status) c ≡ some (zombie_of status p)
  unfolding become_zombie
  at_zombie =
      modify_self (map (orphan c) procs) c (zombie_of status)
        (get_elem?-map (orphan c) procs c at_c)
      ∙ ap (λ (x : Process). some (zombie_of status x)) (orphan_other c j p child ne)

  exit_tells : do_exit procs c status ≡ tell_parent (become_zombie procs c status) (some j)
  unfolding do_exit parent_of
  exit_tells = ap (tell_parent (become_zombie procs c status)) (rw (at_zombie, parent_of) child)

  pub at_exit : get_elem? (do_exit procs c status) c ≡ some (zombie_of status p)
  unfolding tell_parent wakeup_locked
  at_exit = rw exit_tells (
      modify_other (map (wake_on (slot_channel j)) (become_zombie procs c status)) j c
        (λ x. signal_send_locked x sigchld) (λ e. ne (sym e))
      ∙ get_elem?-map (wake_on (slot_channel j)) (become_zombie procs c status) c at_zombie
      ∙ ap some (wake_on-zombie_of (slot_channel j) status p))

  -- After the exit, a child of the parent was one before, under the same number.
  pub exit_children :
      (i : ℕ) (q : Process)
      → get_elem? (do_exit procs c status) i ≡ some q
      → q.parent ≡ some j
      → (r : Process) × (get_elem? procs i ≡ some r) × (r.pid ≡ q.pid) × (r.parent ≡ some j)
  unfolding become_zombie
  exit_children i q at_q par =
      let (s, at_s, same) =
        tell_parent_inverse (become_zombie procs c status) j i q (rw exit_tells at at_q) in
      let s_par : s.parent ≡ some j = sym same.1 ∙ par in
      let (t, at_t, t_pid, t_par) =
        elim (modify_inverse (map (orphan c) procs) c i (zombie_of status) s at_s)
          as (λ _.
            (t : Process) × (get_elem? (map (orphan c) procs) i ≡ some t)
            × (t.pid ≡ s.pid)
            × (t.parent ≡ some j)) [
              | inl (here, t, at_t, is_f) ↦ (
                t,
                at_t,
                sym (ap (λ (x : Process). x.pid) is_f),
                sym (ap (λ (x : Process). x.parent) is_f) ∙ s_par,
              )
              | inr (away, at_t) ↦ (s, at_t, refl, s_par)
            ] in
      let (r, at_r, is_g) = map_inverse (orphan c) procs i t at_t in
      let back = orphan_back c j r (sym (ap (λ (x : Process). x.parent) is_g) ∙ t_par) in
      (r, at_r, sym back.1 ∙ sym (ap (λ (x : Process). x.pid) is_g) ∙ t_pid ∙ sym same.0, back.0)

true_ne_false : true ≢ false
true_ne_false e = cc

false_ne_true : false ≢ true
false_ne_true e = cc

candidate_facts :
    (j n pgid : ℕ) (q : Process)
    → is_candidate j (pos (suc n)) pgid q ≡ true
    → (q.parent ≡ some j) × (q.pid ≡ suc n)
unfolding wait_matches
candidate_facts j n pgid q ours = (slot_is q.parent (ground arith), ground arith)
  where
    slot_is : (parent : Option ℕ) → is_slot parent j ≡ true → parent ≡ some j
    slot_is none e = cc
    slot_is (some k) e = let same : k ≡ j = ground arith in ap some same

zombie_candidate :
    (j n pgid status : ℕ) (p : Process)
    → p.parent ≡ some j
    → p.pid ≡ suc n
    → is_candidate j (pos (suc n)) pgid (zombie_of status p) ≡ true
unfolding wait_matches
zombie_candidate j n pgid status p par number =
    let here : is_slot (some j) j ≡ true = ground arith in
    let here' : is_slot p.parent j ≡ true = ap (λ (x : Option ℕ). is_slot x j) par ∙ here in
    ground arith

-- A child that exits is reaped: when it is the only child of its parent with its number, the next
-- `wait` of the parent for that number returns it with the status of the exit, with whatever flags
-- and signals.
pub proc_wait-do_exit :
    (procs : List Process) (c j status n pgid : ℕ) (p : Process) (untraced nohang signalled : Bool)
    → get_elem? procs c ≡ some p
    → p.parent ≡ some j
    → c ≢ j
    → p.pid ≡ suc n
    → ((i : ℕ) (r : Process)
        → get_elem? procs i ≡ some r
        → r.pid ≡ suc n
        → r.parent ≡ some j
        → i ≡ c)
    → (proc_wait (do_exit procs c status) j (pos (suc n)) pgid untraced nohang signalled).0
      ≡ reaps c (suc n) status
proc_wait-do_exit procs c j status n pgid p untraced nohang signalled at_c child ne number only =
    result (proc_wait after j (pos (suc n)) pgid untraced nohang signalled).0
      (proc_wait after j (pos (suc n)) pgid untraced nohang signalled).1
      (proc_wait-WaitSound after j (pos (suc n)) pgid untraced nohang signalled).0
  where
    after : List Process
    after = do_exit procs c status

    gone : get_elem? after c ≡ some (zombie_of status p)
    gone = at_exit procs c j status p at_c child ne

    ours : is_candidate j (pos (suc n)) pgid (zombie_of status p) ≡ true
    ours = zombie_candidate j n pgid status p child number

    it_is :
        (i : ℕ) (q : Process)
        → get_elem? after i ≡ some q
        → is_candidate j (pos (suc n)) pgid q ≡ true
        → (i ≡ c) × (q ≡ zombie_of status p)
    it_is i q at_q theirs =
        let (par, q_number) = candidate_facts j n pgid q theirs in
        let (r, at_r, r_number, r_par) =
          exit_children procs c j status p at_c child ne i q at_q par in
        let same : i ≡ c = only i r at_r (r_number ∙ q_number) r_par in
        (same, eq_of_some (sym at_q ∙ ap (get_elem? after) same ∙ gone))

    result :
        (w : Waited) (procs' : List Process)
        → WaitSound after j (pos (suc n)) pgid untraced nohang signalled w procs'
        → w ≡ reaps c (suc n) status
    result (reaps i m s) procs' (q, at_q, theirs, dead_q, m_is, s_is, table) =
        let (same, is_p) = it_is i q at_q theirs in
        let number_q : m ≡ suc n = m_is ∙ ap (λ (x : Process). x.pid) is_p ∙ number in
        let status_q : s ≡ status = s_is ∙ ap (λ (x : Process). x.exit_status) is_p in
        rw (same, number_q, status_q) refl
    result (reports m s) procs' (i, q, at_q, theirs, halted, asked, fresh, m_is, word, table) =
        let (same, is_p) = it_is i q at_q theirs in
        absurd (true_ne_false (sym halted ∙ ap (λ (x : Process). is_stopped x.state) is_p))
    result (wait_fails e) procs' (table, why) = elim why [
      | inl (no_child, none_ours) ↦
          absurd (true_ne_false (sym ours ∙ none_ours c (zombie_of status p) gone))
      | inr sound ↦ absurd (false_ne_true (sym (sound.2 c (zombie_of status p) gone ours).0))
    ]
    result no_news procs' sound =
        absurd (false_ne_true (sym (sound.2 c (zombie_of status p) gone ours).0))
    result wait_sleeps procs' sound =
        absurd (false_ne_true (sym (sound.4 c (zombie_of status p) gone ours).0))

-- ===== src/Sched/Family.antt =====
-- The parents of processes: exit, wait and creation never leave a pointer to a process that is gone.
use c_loyha.Base.{
  ℕ, zero, suc, ◌≡◌, ◌≢◌, ◌⊎◌, inl, inr, refl, sym, ◌∙◌, ap, arith, subst, true, false,
}
use c_loyha.Base.{Option, none, some, List, []}
use c_loyha.Base.{◌∷◌, get_elem?, map, eq_of_some}
use c_loyha.Abi.{sigchld, sigalrm}
use c_loyha.Proc.{
  Process, is_alive, is_unused, unused, zombie, ready, running, Channel, slot_channel,
}
use c_loyha.Proc.{proc_wake_locked, ProcState, embryo, blocked, dead, stopped, is_stopped}
use c_loyha.Proc.{is_blocked}
use c_loyha.Base.{bit_or}
use c_loyha.Signal.{bit}
use c_loyha.Signal.{signal_send_locked, send_effects, continue_process, send_wake}
use c_loyha.Signal.Group.{is_slot, check_alarm}
use c_loyha.Sched.{
  modify, wake_on, wakeup_locked, orphan, become_zombie, tell_parent, parent_of, do_exit,
}
use c_loyha.Sched.{tick_process}
use native.Mathlib.Decide.{ℕ_discrete}

pub get_elem?-map :
    (f : Process → Process) (procs : List Process) (i : ℕ) {p : Process}
    → get_elem? procs i ≡ some p
    → get_elem? (map f procs) i ≡ some (f p)
get_elem?-map f [] i e = cc
get_elem?-map f (x ∷ xs) zero e = ap (λ (q : Process). some (f q)) (eq_of_some e)
get_elem?-map f (x ∷ xs) (suc i) e = get_elem?-map f xs i e

pub map_inverse :
    (f : Process → Process) (procs : List Process) (i : ℕ) (q : Process)
    → get_elem? (map f procs) i ≡ some q
    → (p : Process) × (get_elem? procs i ≡ some p) × (q ≡ f p)
map_inverse f [] i q e = cc
map_inverse f (x ∷ xs) zero q e = (x, refl, sym (eq_of_some e))
map_inverse f (x ∷ xs) (suc i) q e = map_inverse f xs i q e

pub modify_self :
    (procs : List Process) (i : ℕ) (f : Process → Process) {p : Process}
    → get_elem? procs i ≡ some p
    → get_elem? (modify procs i f) i ≡ some (f p)
modify_self [] i f e = cc
modify_self (x ∷ xs) zero f e = ap (λ (q : Process). some (f q)) (eq_of_some e)
modify_self (x ∷ xs) (suc i) f e = modify_self xs i f e

pub modify_other :
    (procs : List Process) (i j : ℕ) (f : Process → Process)
    → i ≢ j
    → get_elem? (modify procs i f) j ≡ get_elem? procs j
modify_other [] i j f ne = refl
modify_other (x ∷ xs) zero zero f ne = absurd (ne refl)
modify_other (x ∷ xs) zero (suc j) f ne = refl
modify_other (x ∷ xs) (suc i) zero f ne = refl
modify_other (x ∷ xs) (suc i) (suc j) f ne = modify_other xs i j f (λ e. ne (ap suc e))

pub modify_inverse :
    (procs : List Process) (i j : ℕ) (f : Process → Process) (q : Process)
    → get_elem? (modify procs i f) j ≡ some q
    → ((i ≡ j) × (p : Process) × (get_elem? procs j ≡ some p) × (q ≡ f p))
      ⊎ ((i ≢ j) × (get_elem? procs j ≡ some q))
modify_inverse [] i j f q e = cc
modify_inverse (x ∷ xs) zero zero f q e = inl (refl, x, refl, sym (eq_of_some e))
modify_inverse (x ∷ xs) zero (suc j) f q e = inr (omega arith, e)
modify_inverse (x ∷ xs) (suc i) zero f q e = inr (omega arith, e)
modify_inverse (x ∷ xs) (suc i) (suc j) f q e = elim (modify_inverse xs i j f q e) [
  | inl (same, p, at_j, is_f) ↦ inl (ap suc same, p, at_j, is_f)
  | inr (ne, at_j) ↦ inr (omega (arith, ne), at_j)
]

-- Slot `i` holds a live process.
abbrev pub LiveAt : List Process → ℕ → Type 0
LiveAt procs i = (p : Process) × (get_elem? procs i ≡ some p) × (is_alive p.state ≡ true)

-- The parent of every process in use is a live process.
abbrev pub ParentsLive : List Process → Type 0
ParentsLive procs =
    (i : ℕ) (p : Process) (j : ℕ)
    → get_elem? procs i ≡ some p
    → is_unused p.state ≡ false
    → p.parent ≡ some j
    → LiveAt procs j

-- A change of one process that the family does not notice.
abbrev pub SameFamily : Process → Process → Type 0
SameFamily p q =
    (q.parent ≡ p.parent)
    × (is_alive q.state ≡ is_alive p.state)
    × (is_unused q.state ≡ is_unused p.state)

abbrev pub KeepsFamily : (Process → Process) → Type 0
KeepsFamily f = (p : Process) → SameFamily p (f p)

pub map-ParentsLive :
    (f : Process → Process) (procs : List Process)
    → KeepsFamily f
    → ParentsLive procs
    → ParentsLive (map f procs)
map-ParentsLive f procs keeps inv i q j at_i used par =
    let (p, at_p, is_f) = map_inverse f procs i q at_i in
    let e = ap (λ (r : Process). is_unused r.state) is_f in
    let e' = ap (λ (r : Process). r.parent) is_f in
    let (r, at_r, alive) =
      inv i p j at_p (sym (keeps p).2 ∙ sym e ∙ used) (sym (keeps p).0 ∙ sym e' ∙ par) in
    (f r, get_elem?-map f procs j at_r, (keeps r).1 ∙ alive)

LiveAt-modify :
    (f : Process → Process) (procs : List Process) (k j : ℕ)
    → ((p : Process)
        → get_elem? procs k ≡ some p
        → is_alive p.state ≡ true
        → is_alive (f p).state ≡ true)
    → LiveAt procs j
    → LiveAt (modify procs k f) j
LiveAt-modify f procs k j keeps (r, at_r, alive) = elim (ℕ_discrete k j) [
  | yes e ↦
      let at_k : get_elem? procs k ≡ some r = rw e at_r in
      (f r, rw e (modify_self procs j f at_r), keeps r at_k alive)
  | no ne ↦ (r, modify_other procs k j f ne ∙ at_r, alive)
]

pub modify-ParentsLive :
    (f : Process → Process) (procs : List Process) (k : ℕ)
    → ((p : Process) → get_elem? procs k ≡ some p → SameFamily p (f p))
    → ParentsLive procs
    → ParentsLive (modify procs k f)
modify-ParentsLive f procs k keeps inv i q j at_i used par =
    LiveAt-modify f procs k j (λ p at_k alive. (keeps p at_k).1 ∙ alive)
      (elim (modify_inverse procs k i f q at_i) [
        | inl (same, p, at_p, is_f) ↦
            let e = ap (λ (r : Process). is_unused r.state) is_f in
            let e' = ap (λ (r : Process). r.parent) is_f in
            let kept = keeps p (rw same at_p) in
            inv i p j at_p (sym kept.2 ∙ sym e ∙ used) (sym kept.0 ∙ sym e' ∙ par)
        | inr (ne, at_p) ↦ inv i q j at_p used par
      ])

stopped_family : (s : ProcState) → is_stopped s ≡ true → (is_alive s ≡ true) × (is_unused s ≡ false)
stopped_family stopped e = (refl, refl)
stopped_family unused e = cc
stopped_family embryo e = cc
stopped_family ready e = cc
stopped_family running e = cc
stopped_family blocked e = cc
stopped_family zombie e = cc
stopped_family dead e = cc

blocked_family : (s : ProcState) → is_blocked s ≡ true → (is_alive s ≡ true) × (is_unused s ≡ false)
blocked_family blocked e = (refl, refl)
blocked_family unused e = cc
blocked_family embryo e = cc
blocked_family ready e = cc
blocked_family running e = cc
blocked_family stopped e = cc
blocked_family zombie e = cc
blocked_family dead e = cc

continue-KeepsFamily : KeepsFamily continue_process
unfolding continue_process
continue-KeepsFamily p = ground (arith, stopped_family p.state)

effects-KeepsFamily : (sig : ℕ) → KeepsFamily (λ p. send_effects p sig)
unfolding send_effects
effects-KeepsFamily sig p =
    ground (arith, continue-KeepsFamily p, continue-KeepsFamily (record p { killed = true }))

wake-KeepsFamily : (sig : ℕ) → KeepsFamily (λ p. send_wake p sig)
unfolding send_wake proc_wake_locked
wake-KeepsFamily sig p = ground (arith, stopped_family p.state, blocked_family p.state)

pub signal_send-KeepsFamily : (sig : ℕ) → KeepsFamily (λ p. signal_send_locked p sig)
unfolding signal_send_locked
signal_send-KeepsFamily sig p =
    let q = send_effects p sig in
    ground (
      arith,
      effects-KeepsFamily sig p,
      wake-KeepsFamily sig (record q { sig_pending = bit_or q.sig_pending (bit sig) }),
    )

pub wake_on-KeepsFamily : (channel : Channel) → KeepsFamily (wake_on channel)
unfolding wake_on
wake_on-KeepsFamily channel p = ground (arith, blocked_family p.state)

pub tick_process-KeepsFamily : (now : ℕ) → KeepsFamily (tick_process now)
unfolding tick_process check_alarm
tick_process-KeepsFamily now p = ground (
  arith,
  blocked_family p.state,
  signal_send-KeepsFamily sigalrm (record p { alarm_tick = 0 }),
  signal_send-KeepsFamily sigalrm (record p { state = ready; alarm_tick = 0 }),
)

orphan_parent :
    (cur j : ℕ) (parent : Option ℕ) → parent ≡ some j → is_slot parent cur ≡ false → cur ≢ j
orphan_parent cur j none e not_slot = cc
orphan_parent cur j (some k) e not_slot = let same = eq_of_some e in ground arith

orphan_cases :
    (cur j : ℕ) (p : Process)
    → is_unused (orphan cur p).state ≡ false
    → (orphan cur p).parent ≡ some j
    → (p.parent ≡ some j) × (cur ≢ j) × (is_unused p.state ≡ false)
unfolding orphan
orphan_cases cur j p used par = ground (arith, orphan_parent cur j p.parent)

orphan-alive : (cur : ℕ) (p : Process) → is_alive (orphan cur p).state ≡ is_alive p.state
unfolding orphan
orphan-alive cur p = ground arith

pub alive-used : (s : ProcState) → is_alive s ≡ true → is_unused s ≡ false
alive-used unused e = cc
alive-used embryo e = refl
alive-used ready e = refl
alive-used running e = refl
alive-used blocked e = refl
alive-used stopped e = refl
alive-used zombie e = refl
alive-used dead e = refl

-- Behind `orphan`, a process in use has a parent that is live and is not `cur`.
orphaned :
    (procs : List Process) (cur i j : ℕ) (q : Process)
    → ParentsLive procs
    → get_elem? (map (orphan cur) procs) i ≡ some q
    → is_unused q.state ≡ false
    → q.parent ≡ some j
    → LiveAt procs j × (cur ≢ j)
orphaned procs cur i j q inv at_i used par =
    let (p, at_p, is_f) = map_inverse (orphan cur) procs i q at_i in
    let e = ap (λ (r : Process). is_unused r.state) is_f in
    let e' = ap (λ (r : Process). r.parent) is_f in
    let (par', ne, used') = orphan_cases cur j p (sym e ∙ used) (sym e' ∙ par) in
    (inv i p j at_p used' par', ne)

-- The table after a process is a zombie: nobody is its child any more.
become_zombie-ParentsLive :
    (procs : List Process) (cur status : ℕ)
    → ParentsLive procs
    → LiveAt procs cur
    → ParentsLive (become_zombie procs cur status)
unfolding become_zombie
become_zombie-ParentsLive procs cur status inv (me, at_me, me_alive) i q j at_i used par =
    let fin = λ (me : Process). record me { exit_status = status; state = zombie } in
    let (live, ne) =
      elim (modify_inverse (map (orphan cur) procs) cur i fin q at_i)
        as (λ _. LiveAt procs j × (cur ≢ j)) [
          | inl (same, p, at_p, is_f) ↦
              let at_cur = get_elem?-map (orphan cur) procs cur at_me in
              let is_me : p ≡ orphan cur me = eq_of_some (
                sym at_p
                ∙ subst (λ (k : ℕ). get_elem? (map (orphan cur) procs) k ≡ some (orphan cur me))
                    same at_cur) in
              orphaned procs cur i j p inv at_p
                (ap (λ (r : Process). is_unused r.state) is_me
                  ∙ alive-used (orphan cur me).state (orphan-alive cur me ∙ me_alive))
                (sym (ap (λ (r : Process). r.parent) is_f) ∙ par)
          | inr (away, at_p) ↦ orphaned procs cur i j q inv at_p used par
        ] in
    let (r, at_r, alive) = live in
    (
      orphan cur r,
      modify_other (map (orphan cur) procs) cur j fin ne ∙ get_elem?-map (orphan cur) procs j at_r,
      orphan-alive cur r ∙ alive,
    )

pub tell_parent-ParentsLive :
    (procs : List Process) (parent : Option ℕ)
    → ParentsLive procs
    → ParentsLive (tell_parent procs parent)
unfolding tell_parent wakeup_locked
tell_parent-ParentsLive procs none inv = inv
tell_parent-ParentsLive procs (some j) inv =
    modify-ParentsLive (λ p. signal_send_locked p sigchld) (map (wake_on (slot_channel j)) procs) j
      (λ p at_j. signal_send-KeepsFamily sigchld p)
      (map-ParentsLive (wake_on (slot_channel j)) procs (wake_on-KeepsFamily (slot_channel j)) inv)

pub do_exit-ParentsLive :
    (procs : List Process) (cur status : ℕ)
    → ParentsLive procs
    → LiveAt procs cur
    → ParentsLive (do_exit procs cur status)
unfolding do_exit
do_exit-ParentsLive procs cur status inv live =
    tell_parent-ParentsLive (become_zombie procs cur status)
      (parent_of (become_zombie procs cur status) cur)
      (become_zombie-ParentsLive procs cur status inv live)

-- Taking a slot that no live process holds, for a process that is gone or whose parent is live.
pub replace-ParentsLive :
    (procs : List Process) (i : ℕ) (f : Process → Process)
    → ParentsLive procs
    → ((p : Process) → get_elem? procs i ≡ some p → is_alive p.state ≡ false)
    → ((p : Process) (j : ℕ)
        → get_elem? procs i ≡ some p
        → is_unused (f p).state ≡ false
        → (f p).parent ≡ some j
        → LiveAt procs j)
    → ParentsLive (modify procs i f)
replace-ParentsLive procs i f inv gone parents k q j at_k used par =
    LiveAt-modify f procs i j (λ p at_p alive. absurd (true_ne_false (sym alive ∙ gone p at_p)))
      (elim (modify_inverse procs i k f q at_k) [
        | inl (same, p, at_p, is_f) ↦
            let at_i : get_elem? procs i ≡ some p = rw same at_p in
            parents p j at_i (sym (ap (λ (r : Process). is_unused r.state) is_f) ∙ used)
              (sym (ap (λ (r : Process). r.parent) is_f) ∙ par)
        | inr (ne, at_q) ↦ inv k q j at_q used par
      ])
  where
    true_ne_false : true ≢ false
    true_ne_false e = cc

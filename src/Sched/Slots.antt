-- ===== src/Sched/Slots.antt =====
-- What the steps on one slot of the table leave of the family: states, new processes, stops, freeing.
use c_loyha.Base.{
  ℕ, suc, ◌+◌, ◌≡◌, ◌≢◌, inl, inr, refl, sym, ◌∙◌, ap, arith, subst, Bool, true, false,
}
use c_loyha.Base.{if◌then◌else◌, Bool-cases, Option-cases, Option, none, some, List, []}
use c_loyha.Base.{◌∷◌, get_elem?, eq_of_some}
use c_loyha.Proc.{
  Process, ProcState, is_alive, is_unused, unused, embryo, ready, running, blocked, zombie,
}
use c_loyha.Proc.{dead, stopped, Sigaction}
use c_loyha.Sched.{modify, proc_alloc, new_process, find_unused, proc_free}
use c_loyha.Sched.{is_zombie}
use c_loyha.Sched.Family.{LiveAt, ParentsLive, SameFamily, modify-ParentsLive}
use c_loyha.Sched.Family.{replace-ParentsLive}
use c_loyha.Sched.Family.{alive-used}
use c_loyha.Sched.{tell_parent}
use c_loyha.Sched.Family.{tell_parent-ParentsLive, modify_inverse, modify_other}
use c_loyha.Signal.Frame.{proc_stop_self}

-- Slot `i` holds a process in state `s`.
abbrev pub InState : List Process → ℕ → ProcState → Type 0
InState procs i s = (p : Process) × (get_elem? procs i ≡ some p) × (p.state ≡ s)

-- `proc_stop_self` on the table; a process that is killed does not stop.
unfoldable pub stop_and_tell : List Process → ℕ → ℕ → List Process
stop_and_tell procs cur sig =
    let halted = modify procs cur (λ p. proc_stop_self p sig) in
    elim (get_elem? procs cur) [
      | none ↦ procs
      | some me ↦ if me.killed then procs else tell_parent halted me.parent
    ]

-- Moving one process from a live state to another.
pub set_state-ParentsLive :
    (procs : List Process) (i : ℕ) (s : ProcState) (f : Process → Process)
    → InState procs i s
    → (is_alive s ≡ true)
    → ((p : Process) → ((f p).parent ≡ p.parent) × (is_alive (f p).state ≡ true))
    → ParentsLive procs
    → ParentsLive (modify procs i f)
set_state-ParentsLive procs i s f (p, at_p, in_state) live keeps inv =
    modify-ParentsLive f procs i (λ q at_q. same q (eq_of_some (sym at_p ∙ at_q))) inv
  where
    same : (q : Process) → p ≡ q → SameFamily q (f q)
    same q e =
        let q_state : q.state ≡ s = sym (ap (λ (r : Process). r.state) e) ∙ in_state in
        let q_live : is_alive q.state ≡ true = rw q_state live in
        (
          (keeps q).0,
          (keeps q).1 ∙ sym q_live,
          alive-used (f q).state (keeps q).1 ∙ sym (alive-used q.state q_live),
        )

find_unused_sound :
    (procs : List Process) (k i : ℕ)
    → find_unused k procs ≡ some i
    → (j : ℕ) × (i ≡ k + j)
      × (p : Process) × (get_elem? procs j ≡ some p)
      × (is_unused p.state ≡ true)
unfolding find_unused
find_unused_sound [] k i e = cc
find_unused_sound (p ∷ ps) k i e = elim (Bool-cases (is_unused p.state)) [
  | inl free ↦
      let same : k ≡ i = eq_of_some (rw free at e) in (0, omega (arith, same), p, refl, free)
  | inr used ↦
      let (j, at_i, q, at_q, free) = find_unused_sound ps (k + 1) i (rw used at e) in
      (suc j, omega (arith, at_i), q, at_q, free)
]

new_process_lem :
    (procs : List Process) (cur : Option ℕ) (pid : ℕ) (no_action : Sigaction)
    → ((new_process procs cur pid no_action).parent ≡ cur)
      × ((new_process procs cur pid no_action).state ≡ embryo)
unfolding new_process
new_process_lem procs none pid no_action = (refl, refl)
new_process_lem procs (some j) pid no_action = ground arith

unused-dead : (s : ProcState) → is_unused s ≡ true → is_alive s ≡ false
unused-dead unused e = refl
unused-dead embryo e = cc
unused-dead ready e = cc
unused-dead running e = cc
unused-dead blocked e = cc
unused-dead stopped e = cc
unused-dead zombie e = cc
unused-dead dead e = cc

pub zombie_family :
    (s : ProcState) → is_zombie s ≡ true → (is_alive s ≡ false) × (is_unused s ≡ false)
zombie_family zombie e = (refl, refl)
zombie_family unused e = cc
zombie_family embryo e = cc
zombie_family ready e = cc
zombie_family running e = cc
zombie_family blocked e = cc
zombie_family stopped e = cc
zombie_family dead e = cc

pub proc_alloc-ParentsLive :
    (procs : List Process) (cur : Option ℕ) (next_pid : ℕ) (no_action : Sigaction)
    (has_stack : Bool)
    → ((j : ℕ) → cur ≡ some j → LiveAt procs j)
    → ParentsLive procs
    → ParentsLive (proc_alloc procs cur next_pid no_action has_stack).1
unfolding proc_alloc
proc_alloc-ParentsLive procs cur next_pid no_action has_stack live inv =
    elim (Option-cases (find_unused 0 procs)) [
      | inl full ↦ rw (full, proc_alloc) inv
      | inr (i, found) ↦ rw (found, proc_alloc) (place i found has_stack)
    ]
  where
    free :
        (i : ℕ)
        → find_unused 0 procs ≡ some i
        → (p : Process) → get_elem? procs i ≡ some p
        → is_alive p.state ≡ false
    free i found p at_p =
        let (j, at_i, q, at_q, unused_q) = find_unused_sound procs 0 i found in
        let e : i ≡ j = omega (arith, at_i) in
        let same : q ≡ p =
          eq_of_some (sym at_q ∙ subst (λ (k : ℕ). get_elem? procs k ≡ some p) e at_p) in
        unused-dead p.state (sym (ap (λ (r : Process). is_unused r.state) same) ∙ unused_q)

    new : Process
    new = new_process procs cur next_pid no_action

    place :
        (i : ℕ)
        → find_unused 0 procs ≡ some i
        → (b : Bool)
        → (let r : Option ℕ × List Process =
              if b
              then (some i, modify procs i (λ old. new))
              else (none, modify procs i (λ old. record new { state = unused })) in
            ParentsLive r.1)
    place i found true =
        replace-ParentsLive procs i (λ old. new) inv (free i found)
          (λ p j at_p used par. live j (sym (new_process_lem procs cur next_pid no_action).0 ∙ par))
    place i found false =
        replace-ParentsLive procs i (λ old. record new { state = unused }) inv (free i found)
          (λ p j at_p used par. cc)

pub stop_and_tell-ParentsLive :
    (procs : List Process) (cur sig : ℕ)
    → InState procs cur running
    → ParentsLive procs
    → ParentsLive (stop_and_tell procs cur sig)
unfolding stop_and_tell proc_stop_self
stop_and_tell-ParentsLive procs cur sig (me, at_me, on) inv =
    rw (at_me, stop_and_tell) (after me.killed)
  where
    halted : ParentsLive (modify procs cur (λ p. proc_stop_self p sig))
    halted =
        set_state-ParentsLive procs cur running (λ p. proc_stop_self p sig) (me, at_me, on) refl
          (λ p. (refl, refl)) inv

    after :
        (b : Bool)
        → ParentsLive (
            if b
            then procs
            else tell_parent (modify procs cur (λ p. proc_stop_self p sig)) me.parent)
    after true = inv
    after false =
        tell_parent-ParentsLive (modify procs cur (λ p. proc_stop_self p sig)) me.parent halted

-- Freeing the slot of a process that has no children.
pub free_childless-ParentsLive :
    (procs : List Process) (i : ℕ)
    → ((k : ℕ) (p : Process)
        → get_elem? procs k ≡ some p
        → is_unused p.state ≡ false
        → p.parent ≢ some i)
    → ParentsLive procs
    → ParentsLive (proc_free procs i)
unfolding proc_free
free_childless-ParentsLive procs i childless inv k q j at_k used par =
    elim (modify_inverse procs i k (λ p. record p { state = unused }) q at_k) [
      | inl (same, p, at_p, is_f) ↦
          let off : is_unused q.state ≡ true = ap (λ (r : Process). is_unused r.state) is_f in
          absurd cc
      | inr (away, at_q) ↦
          let (r, at_r, alive) = inv k q j at_q used par in
          let ne : i ≢ j = λ e. childless k q at_q used (par ∙ sym (ap some e)) in
          (r, modify_other procs i j (λ p. record p { state = unused }) ne ∙ at_r, alive)
    ]

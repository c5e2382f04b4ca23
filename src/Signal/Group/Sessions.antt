-- ===== src/Signal/Group/Sessions.antt =====
-- Process groups and sessions of a table of processes, when one process of it changes.
use c_loyha.Base.{ℕ, zero, suc, ◌<◌, ◌≡◌, ◌≢◌, ◌⊎◌, inl, inr, refl, sym, ◌∙◌, ap, arith}
use c_loyha.Base.{true, false, ◌&&◌, ◌==◌, Bool-cases}
use c_loyha.Base.{some, List, [], ◌∷◌, get_elem?, set, length, get_elem?-set_ne, subst}
use c_loyha.Base.{get_elem?-set_self, eq_of_some}
use c_loyha.Proc.{Process, is_alive}
use c_loyha.Signal.Group.{group_in_session, group_taken}
use native.Mathlib.Decide.{ℕ_discrete}

-- Slot `i` holds the live process `p`.
abbrev pub Live : List Process → ℕ → Process → Type 0
Live procs i p = (get_elem? procs i ≡ some p) × (is_alive p.state ≡ true)

-- Live processes have different numbers; those of one group are of one session, and the group that
-- bears a process's number is of that process's session.
pub record OneSession (procs : List Process) : Type 0 where
  pub unique : (i j : ℕ) (p q : Process) → Live procs i p → Live procs j q → p.pid ≡ q.pid → i ≡ j
  pub groups :
      (i j : ℕ) (p q : Process) → Live procs i p → Live procs j q → p.pgid ≡ q.pgid → p.sid ≡ q.sid
  pub leaders :
      (i j : ℕ) (p q : Process) → Live procs i p → Live procs j q → p.pgid ≡ q.pid → p.sid ≡ q.sid

get_elem?-lt : {A : Type 0} (xs : List A) (i : ℕ) {a : A} → get_elem? xs i ≡ some a → i < length xs
get_elem?-lt [] i h = cc
get_elem?-lt (x ∷ xs) zero h = omega arith
get_elem?-lt (x ∷ xs) (suc i) h = omega (arith, get_elem?-lt xs i h)

-- After a write to slot `k`, a live slot is the one written, or it was live before.
Live-set :
    (procs : List Process) (k : ℕ) (p p' : Process) (i : ℕ) (q : Process)
    → Live procs k p
    → Live (set procs k p') i q
    → ((i ≡ k) × (q ≡ p')) ⊎ ((i ≢ k) × Live procs i q)
Live-set procs k p p' i q old live = elim (ℕ_discrete i k) [
  | yes e ↦ inl (e, written (subst (λ (j : ℕ). get_elem? (set procs k p') j ≡ some q) e live.0))
  | no ne ↦ inr (ne, (sym (get_elem?-set_ne procs p' (λ e. ne (sym e))) ∙ live.0, live.1))
]
  where
    written : get_elem? (set procs k p') k ≡ some q → q ≡ p'
    written h = eq_of_some (sym h ∙ get_elem?-set_self procs k p' (get_elem?-lt procs k old.0))

group_in_session_sound :
    (procs : List Process) (target sid : ℕ)
    → group_in_session procs target sid ≡ true
    → (i : ℕ) × (r : Process) × Live procs i r × (r.pgid ≡ target) × (r.sid ≡ sid)
unfolding group_in_session
group_in_session_sound [] target sid h = cc
group_in_session_sound (q ∷ qs) target sid h =
    elim (Bool-cases (is_alive q.state && q.pgid == target && q.sid == sid)) [
      | inl here ↦ (0, q, (refl, ground arith), ground arith, ground arith)
      | inr not_here ↦
          let (i, r, live, a, b) = group_in_session_sound qs target sid (ground arith) in
          (suc i, r, live, a, b)
    ]

group_taken_head :
    (r : Process) (rs : List Process) (q : Process) (pgid : ℕ)
    → group_taken (r ∷ rs) pgid ≡ false
    → Live (r ∷ rs) 0 q
    → q.pgid ≡ pgid
    → ⊥
unfolding group_taken
group_taken_head r rs q pgid h live e =
    let same : r ≡ q = eq_of_some live.0 in
    let alive : is_alive r.state ≡ true = ap (λ (p : Process). is_alive p.state) same ∙ live.1 in
    let pg : r.pgid ≡ pgid = ap (λ (p : Process). p.pgid) same ∙ e in ground arith

group_taken_complete :
    (procs : List Process) (pgid i : ℕ) (q : Process)
    → group_taken procs pgid ≡ false
    → Live procs i q
    → q.pgid ≢ pgid
unfolding group_taken
group_taken_complete [] pgid i q h live = λ e. cc
group_taken_complete (r ∷ rs) pgid zero q h live = λ e. group_taken_head r rs q pgid h live e
group_taken_complete (r ∷ rs) pgid (suc i) q h live =
    group_taken_complete rs pgid i q (ground arith) live

-- What `p'`, written over the live process `p` of slot `k`, must keep.
pub record Regrouped (procs : List Process) (k : ℕ) (p p' : Process) : Type 0 where
  pub same_pid : p'.pid ≡ p.pid
  pub joins : (j : ℕ) (q : Process) → j ≢ k → Live procs j q → p'.pgid ≡ q.pgid → p'.sid ≡ q.sid
  pub led : (j : ℕ) (q : Process) → j ≢ k → Live procs j q → p'.pgid ≡ q.pid → p'.sid ≡ q.sid
  pub leads : (j : ℕ) (q : Process) → j ≢ k → Live procs j q → q.pgid ≡ p'.pid → q.sid ≡ p'.sid

module _ (procs : List Process) (k : ℕ) (p p' : Process) (old : Live procs k p)
    (inv : OneSession procs) (new : Regrouped procs k p p') where
  set_unique :
      (i j : ℕ) (q r : Process)
      → Live (set procs k p') i q
      → Live (set procs k p') j r
      → q.pid ≡ r.pid
      → i ≡ j
  set_unique i j q r a b e = elim (Live-set procs k p p' i q old a) [
    | inl (ik, qp) ↦ elim (Live-set procs k p p' j r old b) [
      | inl (jk, rp) ↦ omega arith
      | inr (jk, live) ↦ absurd (jk (sym (inv.unique k j p r old live (pid_p qp ∙ e))))
    ]
    | inr (ik, live) ↦ elim (Live-set procs k p p' j r old b) [
      | inl (jk, rp) ↦ absurd (ik (inv.unique i k q p live old (e ∙ sym (pid_p rp))))
      | inr (jk, live') ↦ inv.unique i j q r live live' e
    ]
  ]
    where
      pid_p : {x : Process} → x ≡ p' → p.pid ≡ x.pid
      pid_p e = sym new.same_pid ∙ ap (λ (x : Process). x.pid) (sym e)

  set-groups :
      (i j : ℕ) (q r : Process)
      → Live (set procs k p') i q
      → Live (set procs k p') j r
      → q.pgid ≡ r.pgid
      → q.sid ≡ r.sid
  set-groups i j q r a b e = elim (Live-set procs k p p' i q old a) [
    | inl (ik, qp) ↦ elim (Live-set procs k p p' j r old b) [
      | inl (jk, rp) ↦ ap (λ (x : Process). x.sid) (qp ∙ sym rp)
      | inr (jk, live) ↦ ground (arith, qp, new.joins j r jk live)
    ]
    | inr (ik, live) ↦ elim (Live-set procs k p p' j r old b) [
      | inl (jk, rp) ↦ ground (arith, rp, new.joins i q ik live)
      | inr (jk, live') ↦ inv.groups i j q r live live' e
    ]
  ]

  set-leaders :
      (i j : ℕ) (q r : Process)
      → Live (set procs k p') i q
      → Live (set procs k p') j r
      → q.pgid ≡ r.pid
      → q.sid ≡ r.sid
  set-leaders i j q r a b e = elim (Live-set procs k p p' i q old a) [
    | inl (ik, qp) ↦ elim (Live-set procs k p p' j r old b) [
      | inl (jk, rp) ↦ ap (λ (x : Process). x.sid) (qp ∙ sym rp)
      | inr (jk, live) ↦ ground (arith, qp, new.led j r jk live)
    ]
    | inr (ik, live) ↦ elim (Live-set procs k p p' j r old b) [
      | inl (jk, rp) ↦ ground (arith, rp, new.leads i q ik live)
      | inr (jk, live') ↦ inv.leaders i j q r live live' e
    ]
  ]

  pub set-OneSession : OneSession (set procs k p')
  set-OneSession = record { unique = set_unique; groups = set-groups; leaders = set-leaders }

-- A process may take its own number or join a group of its session.
pub setpgid-Regrouped :
    (procs : List Process) (k : ℕ) (p : Process) (target : ℕ)
    → OneSession procs
    → Live procs k p
    → (target ≡ p.pid) ⊎ (group_in_session procs target p.sid ≡ true)
    → Regrouped procs k p (record p { pgid = target })
setpgid-Regrouped procs k p target inv live (inl own) = record {
  same_pid = refl;
  joins = λ j q ne other e. sym (inv.leaders j k q p other live (sym e ∙ own));
  led = λ j q ne other e. absurd (ne (inv.unique j k q p other live (sym e ∙ own)));
  leads = λ j q ne other e. inv.leaders j k q p other live e;
}
setpgid-Regrouped procs k p target inv live (inr found) =
    let (i, r, there, in_group, in_session) = group_in_session_sound procs target p.sid found in
    record {
      same_pid = refl;
      joins = λ j q ne other e. sym in_session ∙ inv.groups i j r q there other (in_group ∙ e);
      led = λ j q ne other e. sym in_session ∙ inv.leaders i j r q there other (in_group ∙ e);
      leads = λ j q ne other e. inv.leaders j k q p other live e;
    }

pub setsid-Regrouped :
    (procs : List Process) (cur : ℕ) (me : Process)
    → OneSession procs
    → Live procs cur me
    → group_taken procs me.pid ≡ false
    → Regrouped procs cur me (record me { sid = me.pid; pgid = me.pid })
setsid-Regrouped procs cur me inv live free = record {
  same_pid = refl;
  joins = λ j q ne other e. absurd (group_taken_complete procs me.pid j q free other (sym e));
  led = λ j q ne other e. absurd (ne (inv.unique j cur q me other live (sym e)));
  leads = λ j q ne other e. absurd (group_taken_complete procs me.pid j q free other e);
}

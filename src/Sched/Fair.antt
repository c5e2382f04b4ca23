-- ===== src/Sched/Fair.antt =====
-- `pick_next`: which process runs next, and how long a ready one waits.
use c_loyha.Base.{
  ℕ, zero, suc, ◌+◌, ◌-◌, ◌%◌, ◌≤◌, ◌<◌, ◌≡◌, ◌≢◌, ◌⊎◌, inl, inr, refl, ◌∙◌, ap, arith,
}
use c_loyha.Base.{true, false, ◌==◌, Bool-cases, Option-cases, none, some, List, eq_of_some}
use c_loyha.Proc.{Process}
use c_loyha.Sched.{max_procs, ready_at, pick_from, pick_next}

-- How many slots the search passes before it comes to slot `j`.
abbrev pub distance : ℕ → ℕ → ℕ
distance rr_next j = (j + max_procs - rr_next) % max_procs

-- The search stops at a ready slot, at the first one on its way.
pick_from-first :
    (procs : List Process) (rr n left i : ℕ)
    → rr < max_procs
    → n + left ≡ max_procs
    → pick_from procs rr n left ≡ some i
    → (i < max_procs)
      × (ready_at procs i ≡ true)
      × (n ≤ distance rr i)
      × ((j : ℕ)
          → j < max_procs
          → ready_at procs j ≡ true
          → n ≤ distance rr j
          → distance rr i ≤ distance rr j)
unfolding pick_from
pick_from-first procs rr n zero i lt all e = cc
pick_from-first procs rr n (suc left) i lt all e =
    elim (Bool-cases (ready_at procs ((rr + n) % max_procs))) [
      | inl here ↦
          let same : (rr + n) % max_procs ≡ i = eq_of_some (rw here at e) in
          (
            omega (arith, same),
            rw same at here,
            omega (arith, same),
            λ j below ready_j ge. omega (arith, same),
          )
      | inr away ↦
          let later = pick_from-first procs rr (n + 1) left i lt (omega arith) (rw away at e) in
          (
            later.0,
            later.1,
            omega (arith, later.2),
            λ j below ready_j ge. later.3 j below ready_j (further j below ready_j ge away),
          )
    ]
  where
    further :
        (j : ℕ)
        → j < max_procs
        → ready_at procs j ≡ true
        → n ≤ distance rr j
        → ready_at procs ((rr + n) % max_procs) ≡ false
        → n + 1 ≤ distance rr j
    further j below ready_j ge away = elim (Bool-cases (n == distance rr j)) [
      | inl e ↦
          let same : n ≡ distance rr j = ground arith in
          let at_j : (rr + n) % max_procs ≡ j = omega (arith, same) in
          let not_ready = rw at_j at away in cc
      | inr ne ↦ ground arith
    ]

pick_from-none :
    (procs : List Process) (rr n left : ℕ)
    → rr < max_procs
    → n + left ≡ max_procs
    → pick_from procs rr n left ≡ none
    → (j : ℕ) → j < max_procs
    → n ≤ distance rr j
    → ready_at procs j ≡ false
unfolding pick_from
pick_from-none procs rr n zero lt all e j below ge = absurd (omega arith)
pick_from-none procs rr n (suc left) lt all e j below ge =
    elim (Bool-cases (ready_at procs ((rr + n) % max_procs))) [
      | inl here ↦ let found = rw here at e in cc
      | inr away ↦ elim (Bool-cases (n == distance rr j)) [
        | inl same ↦
            let same' : n ≡ distance rr j = ground arith in
            let at_j : (rr + n) % max_procs ≡ j = omega (arith, same') in rw at_j at away
        | inr ne ↦
            pick_from-none procs rr (n + 1) left lt (omega arith) (rw away at e) j below
              (ground arith)
      ]
    ]

-- A slot that runs next: it is ready, and a ready slot that is passed over has come nearer.
abbrev pub Picked : List Process → ℕ → ℕ → Type 0
Picked procs rr_next j =
    (i : ℕ) × ((pick_next procs rr_next).0 ≡ some i)
    × (ready_at procs i ≡ true)
    × ((i ≡ j) ⊎ (distance (pick_next procs rr_next).1 j < distance rr_next j))

pub pick_next_fair :
    (procs : List Process) (rr_next j : ℕ)
    → rr_next < max_procs
    → j < max_procs
    → ready_at procs j ≡ true
    → Picked procs rr_next j × ((pick_next procs rr_next).1 < max_procs)
unfolding pick_next
pick_next_fair procs rr_next j lt below ready_j =
    elim (Option-cases (pick_from procs rr_next 0 max_procs)) [
      | inl nobody ↦
          let not_ready =
            pick_from-none procs rr_next 0 max_procs lt refl nobody j below (omega arith) in
          cc
      | inr (i, found) ↦
          let first = pick_from-first procs rr_next 0 max_procs i lt refl found in
          rw (found, pick_next)
            (
              (i, refl, first.1, nearer i first.0 (first.3 j below ready_j (omega arith))),
              omega arith,
            )
    ]
  where
    nearer :
        (i : ℕ)
        → i < max_procs
        → distance rr_next i ≤ distance rr_next j
        → (i ≡ j) ⊎ (distance ((i + 1) % max_procs) j < distance rr_next j)
    nearer i lt_i le = elim (Bool-cases (i == j)) [
      | inl same ↦ inl (ground arith)
      | inr ne ↦ let ne' : i ≢ j = ground arith in inr (omega (arith, ne'))
    ]

-- `rr_next` after some picks, when the table is `tables n` at pick `n`.
unfoldable pub rr_after : (ℕ → List Process) → ℕ → ℕ → ℕ
rr_after tables rr_next zero = rr_next
rr_after tables rr_next (suc n) = (pick_next (tables n) (rr_after tables rr_next n)).1

runs_within :
    (tables : ℕ → List Process) (rr_next j : ℕ)
    → j < max_procs
    → ((n : ℕ) → ready_at (tables n) j ≡ true)
    → (d m : ℕ) → distance (rr_after tables rr_next m) j < d
    → rr_after tables rr_next m < max_procs
    → (n : ℕ) × (n < m + d) × ((pick_next (tables n) (rr_after tables rr_next n)).0 ≡ some j)
unfolding rr_after
runs_within tables rr_next j below stays zero m near lt = absurd (omega arith)
runs_within tables rr_next j below stays (suc d) m near lt =
    let fair = pick_next_fair (tables m) (rr_after tables rr_next m) j lt below (stays m) in
    elim fair.0.3 [
      | inl same ↦ (m, omega arith, fair.0.1 ∙ ap some same)
      | inr nearer ↦
          let (n, bound, picked) =
            runs_within tables rr_next j below stays d (suc m) (omega (arith, nearer)) fair.1 in
          (n, omega (arith, bound), picked)
    ]

-- The scheduler is fair: whatever happens to the table between the picks, a process that stays ready
-- is one of the next `max_procs` that are picked.
pub pick_next-runs :
    (tables : ℕ → List Process) (rr_next j : ℕ)
    → rr_next < max_procs
    → j < max_procs
    → ((n : ℕ) → ready_at (tables n) j ≡ true)
    → (n : ℕ) × (n < max_procs) × ((pick_next (tables n) (rr_after tables rr_next n)).0 ≡ some j)
unfolding rr_after
pick_next-runs tables rr_next j lt below stays =
    let (n, bound, picked) =
      runs_within tables rr_next j below stays max_procs 0 (omega arith) lt in
    (n, omega (arith, bound), picked)

-- The processor stays idle only when no process is ready.
pub pick_next-none :
    (procs : List Process) (rr_next : ℕ)
    → rr_next < max_procs
    → (pick_next procs rr_next).0 ≡ none
    → (j : ℕ) → j < max_procs
    → ready_at procs j ≡ false
unfolding pick_next
pick_next-none procs rr_next lt e j below =
    elim (Option-cases (pick_from procs rr_next 0 max_procs)) [
      | inl nobody ↦ pick_from-none procs rr_next 0 max_procs lt refl nobody j below (omega arith)
      | inr (i, found) ↦ let e' = rw (pick_next, found) at e in cc
    ]

-- ===== src/Sched/Scan.antt =====
-- The loop of `proc_wait` over the table: which children it is about, and where it ends.
use c_loyha.Base.{ℕ, zero, suc, ◌+◌, ◌≡◌, ◌⊎◌, inl, inr, refl, sym, ◌∙◌, ap, arith, Bool}
use c_loyha.Base.{true, false, not, ◌&&◌, ◌==◌, if◌then◌else◌, Bool-cases}
use c_loyha.Base.{some, List, [], ◌∷◌, get_elem?, eq_of_some}
use c_loyha.Base.{◌↔◌, Option, none}
use c_loyha.Abi.{ℤ, pos, negsuc}
use c_loyha.Proc.{Process, is_unused, is_stopped}
use c_loyha.Signal.Group.{is_slot}
use c_loyha.Sched.{is_zombie}

unfoldable pub wait_matches : Process → ℤ → ℕ → Bool
wait_matches p (pos zero) pgid = p.pgid == pgid
wait_matches p (pos (suc n)) pgid = p.pid == suc n
wait_matches p (negsuc zero) pgid = true
wait_matches p (negsuc (suc n)) pgid = p.pgid == n + 2

-- A child of `cur` that the call is about.
abbrev pub is_candidate : ℕ → ℤ → ℕ → Process → Bool
is_candidate cur pid pgid p =
    not (is_unused p.state) && is_slot p.parent cur && wait_matches p pid pgid

-- Where the loop over the table ends: at a zombie, at a stopped child to report, or at its end, with
-- whether there is a child.
pub data Scan : Type 0 where
  zombie_at : ℕ → Process → Scan
  stopped_at : ℕ → Process → Scan
  at_end : Bool → Scan

unfoldable pub wait_scan : ℕ → ℤ → ℕ → Bool → ℕ → Bool → List Process → Scan
wait_scan cur pid pgid untraced i have_child [] = at_end have_child
wait_scan cur pid pgid untraced i have_child (p ∷ ps) =
    if not (is_candidate cur pid pgid p)
    then wait_scan cur pid pgid untraced (i + 1) have_child ps
    else if is_zombie p.state
    then zombie_at i p
    else if is_stopped p.state && untraced && not p.stop_reported
    then stopped_at i p
    else wait_scan cur pid pgid untraced (i + 1) true ps

-- The process numbers that `wait` with `pid` is about: that process, any (-1), or those of the
-- caller's group (0) or of a group.
abbrev pub Numbered : ℤ → ℕ → Process → Type 0
Numbered (pos zero) pgid p = p.pgid ≡ pgid
Numbered (pos (suc n)) pgid p = p.pid ≡ suc n
Numbered (negsuc zero) pgid p = Unit
Numbered (negsuc (suc n)) pgid p = p.pgid ≡ n + 2

-- A child of the slot `cur`, of those numbers.
abbrev pub Asked : ℕ → ℤ → ℕ → Process → Type 0
Asked cur pid pgid p = (is_unused p.state ≡ false) × (p.parent ≡ some cur) × Numbered pid pgid p

wait_matches-Numbered :
    (p : Process) (pid : ℤ) (pgid : ℕ) → (wait_matches p pid pgid ≡ true) ↔ Numbered pid pgid p
unfolding wait_matches
wait_matches-Numbered p (pos zero) pgid = ((λ h. ground arith), λ h. ground arith)
wait_matches-Numbered p (pos (suc n)) pgid = ((λ h. ground arith), λ h. ground arith)
wait_matches-Numbered p (negsuc zero) pgid = ((λ h. tt), λ h. refl)
wait_matches-Numbered p (negsuc (suc n)) pgid = ((λ h. ground arith), λ h. ground arith)

is_slot-some : (o : Option ℕ) (i : ℕ) → (is_slot o i ≡ true) ↔ (o ≡ some i)
is_slot-some none i = ((λ h. cc), λ h. cc)
is_slot-some (some j) i = (
  λ h. let same : j ≡ i = ground arith in ap some same,
  λ h. let same : j ≡ i = eq_of_some h in ground arith,
)

pub is_candidate-Asked :
    (cur : ℕ) (pid : ℤ) (pgid : ℕ) (p : Process)
    → (is_candidate cur pid pgid p ≡ true) ↔ Asked cur pid pgid p
is_candidate-Asked cur pid pgid p = (
  λ h. (
    ground arith,
    (is_slot-some p.parent cur).0 (ground arith),
    (wait_matches-Numbered p pid pgid).0 (ground arith),
  ),
  λ (used, par, number).
      let parent = (is_slot-some p.parent cur).1 par in
      let matches = (wait_matches-Numbered p pid pgid).1 number in ground arith,
)

-- What the scan of a part of the table finds, from slot `k` on.
abbrev pub ScanSound : ℕ → ℤ → ℕ → Bool → ℕ → Bool → List Process → Scan → Type 0
ScanSound cur pid pgid untraced k have ps (zombie_at j p) =
    (i : ℕ) × (j ≡ k + i)
    × (get_elem? ps i ≡ some p)
    × (is_candidate cur pid pgid p ≡ true)
    × (is_zombie p.state ≡ true)
ScanSound cur pid pgid untraced k have ps (stopped_at j p) =
    (i : ℕ) × (j ≡ k + i)
    × (get_elem? ps i ≡ some p)
    × (is_candidate cur pid pgid p ≡ true)
    × (is_stopped p.state ≡ true)
    × (untraced ≡ true)
    × (p.stop_reported ≡ false)
ScanSound cur pid pgid untraced k have ps (at_end b) =
    ((i : ℕ) (p : Process)
      → get_elem? ps i ≡ some p
      → is_candidate cur pid pgid p ≡ true
      → (is_zombie p.state ≡ false)
        × ((is_stopped p.state && untraced && not p.stop_reported) ≡ false)
        × (b ≡ true))
    × (have ≡ true → b ≡ true)
    × (b ≡ true
        → (have ≡ true)
          ⊎ ((i : ℕ) × (p : Process) × (get_elem? ps i ≡ some p)
              × (is_candidate cur pid pgid p ≡ true)))

scan_step :
    (cur : ℕ) (pid : ℤ) (pgid : ℕ) (untraced : Bool) (k : ℕ) (have have' : Bool) (p : Process)
    (ps : List Process) (s : Scan)
    → (is_candidate cur pid pgid p ≡ true
        → (is_zombie p.state ≡ false)
          × ((is_stopped p.state && untraced && not p.stop_reported) ≡ false)
          × (have' ≡ true))
    → (have ≡ true → have' ≡ true)
    → (have' ≡ true → (have ≡ true) ⊎ (is_candidate cur pid pgid p ≡ true))
    → ScanSound cur pid pgid untraced (k + 1) have' ps s
    → ScanSound cur pid pgid untraced k have (p ∷ ps) s
scan_step cur pid pgid untraced k have have' p ps (zombie_at j q) head more less sound =
    (suc sound.0, omega (arith, sound.1), sound.2, sound.3, sound.4)
scan_step cur pid pgid untraced k have have' p ps (stopped_at j q) head more less sound =
    (suc sound.0, omega (arith, sound.1), sound.2, sound.3, sound.4, sound.5, sound.6)
scan_step cur pid pgid untraced k have have' p ps (at_end b) head more less sound =
    (all, (λ h. sound.1 (more h)), some_child)
  where
    all :
        (i : ℕ) (q : Process)
        → get_elem? (p ∷ ps) i ≡ some q
        → is_candidate cur pid pgid q ≡ true
        → (is_zombie q.state ≡ false)
          × ((is_stopped q.state && untraced && not q.stop_reported) ≡ false)
          × (b ≡ true)
    all zero q e ours =
        let same = eq_of_some e in
        let (a, b, c) = head (ap (λ (r : Process). is_candidate cur pid pgid r) same ∙ ours) in
        (
          sym (ap (λ (r : Process). is_zombie r.state) same) ∙ a,
          sym (ap (λ (r : Process). is_stopped r.state && untraced && not r.stop_reported) same)
              ∙ b,
          sound.1 c,
        )
    all (suc i) q e ours = sound.0 i q e ours

    some_child :
        b ≡ true
        → (have ≡ true)
          ⊎ ((i : ℕ) × (q : Process) × (get_elem? (p ∷ ps) i ≡ some q)
              × (is_candidate cur pid pgid q ≡ true))
    some_child h = elim (sound.2 h) [
      | inl earlier ↦ elim (less earlier) [ inl old ↦ inl old | inr ours ↦ inr (0, p, refl, ours) ]
      | inr (i, q, e, ours) ↦ inr (suc i, q, e, ours)
    ]

pub scan_sound :
    (cur : ℕ) (pid : ℤ) (pgid : ℕ) (untraced : Bool) (k : ℕ) (have : Bool) (ps : List Process)
    → ScanSound cur pid pgid untraced k have ps (wait_scan cur pid pgid untraced k have ps)
unfolding wait_scan
scan_sound cur pid pgid untraced k have [] = ((λ i p e. cc), (λ h. h), λ h. inl h)
scan_sound cur pid pgid untraced k have (p ∷ ps) = elim (Bool-cases (is_candidate cur pid pgid p)) [
  | inr other ↦ rw other (
      scan_step cur pid pgid untraced k have have p ps
        (wait_scan cur pid pgid untraced (k + 1) have ps) (λ ours. cc) (λ h. h) (λ h. inl h)
        (scan_sound cur pid pgid untraced (k + 1) have ps))
  | inl ours ↦ elim (Bool-cases (is_zombie p.state)) [
    | inl gone ↦ rw (ours, gone) (0, omega arith, refl, ours, gone)
    | inr here ↦ elim (Bool-cases (is_stopped p.state && untraced && not p.stop_reported)) [
      | inl news ↦
          rw (ours, here, news)
            (0, omega arith, refl, ours, ground arith, ground arith, ground arith)
      | inr quiet ↦
          rw (ours, here, quiet)
            (scan_step cur pid pgid untraced k have true p ps
              (wait_scan cur pid pgid untraced (k + 1) true ps) (λ h. (here, quiet, refl))
              (λ h. refl) (λ h. inr ours) (scan_sound cur pid pgid untraced (k + 1) true ps))
    ]
  ]
]

-- ===== src/Signal/Group/Kill.antt =====
-- `signal_kill` on a group or on everybody: whom it reaches, and what it returns.
use c_loyha.Base.{ℕ, zero, suc, ◌+◌, ◌≡◌, ◌↔◌, refl, sym, ap, ◌∙◌, arith, Bool, true, false}
use c_loyha.Base.{if◌then◌else◌, Bool-cases, inl, inr, some, List, []}
use c_loyha.Base.{◌∷◌, get_elem?, subst, eq_of_some, Option-cases, ◌≢◌, ◌==◌}
use c_loyha.Proc.{is_alive}
use c_loyha.Signal.{signal_send_locked}
use c_loyha.Signal.Group.{everybody, group, has_user_parent}
use c_loyha.Abi.{done, fail, esrch}
use c_loyha.Proc.{Process}
use c_loyha.Signal.Group.{Audience, is_addressed, send_if, kill_from, kill_audience}

module _ (procs : List Process) (cur : ℕ) (who : Audience) (sig : ℕ) where
  -- What becomes of the process of slot `i`.
  abbrev pub signalled : ℕ → Process → Process
  signalled i p = if is_addressed procs cur who i p then send_if p sig else p

  kill_from_slot :
      (xs : List Process) (k i : ℕ) (p : Process)
      → get_elem? xs i ≡ some p
      → get_elem? (kill_from procs cur who sig k xs).1 i ≡ some (signalled (k + i) p)
  unfolding kill_from
  kill_from_slot [] k i p h = cc
  kill_from_slot (x ∷ xs) k zero p h =
      let here : k + 0 ≡ k = omega arith in rw (here, sym (eq_of_some h)) (ground arith)
  kill_from_slot (x ∷ xs) k (suc i) p h =
      let next : k + suc i ≡ k + 1 + i = omega arith in
      rw next (ground (arith, kill_from_slot xs (k + 1) i p h))

  kill_from_nobody :
      (xs : List Process) (k : ℕ)
      → (kill_from procs cur who sig k xs).0 ≡ false
      → (i : ℕ) (p : Process) → get_elem? xs i ≡ some p
      → is_addressed procs cur who (k + i) p ≡ false
  unfolding kill_from
  kill_from_nobody [] k h i p at_i = cc
  kill_from_nobody (x ∷ xs) k h zero p at_i =
      let here : k + 0 ≡ k = omega arith in rw (here, sym (eq_of_some at_i)) (ground arith)
  kill_from_nobody (x ∷ xs) k h (suc i) p at_i =
      let next : k + suc i ≡ k + 1 + i = omega arith in
      rw next (kill_from_nobody xs (k + 1) (ground arith) i p at_i)

  kill_from_somebody :
      (xs : List Process) (k : ℕ)
      → (kill_from procs cur who sig k xs).0 ≡ true
      → (i : ℕ) × (p : Process) × (get_elem? xs i ≡ some p)
        × (is_addressed procs cur who (k + i) p ≡ true)
  unfolding kill_from
  kill_from_somebody [] k h = cc
  kill_from_somebody (x ∷ xs) k h = elim (Bool-cases (is_addressed procs cur who k x)) [
    | inl reached ↦ let here : k + 0 ≡ k = omega arith in (0, x, refl, rw here reached)
    | inr missed ↦
        let (i, p, at_i, reached) = kill_from_somebody xs (k + 1) (ground arith) in
        let next : k + suc i ≡ k + 1 + i = omega arith in (suc i, p, at_i, rw next reached)
  ]

esrch_of_false : (b : Bool) → (if b then done 0 else fail esrch) ≡ fail esrch → b ≡ false
esrch_of_false true h = cc
esrch_of_false false h = refl

-- Whom `kill` means: a live user process that is in the group; or, for everybody, that is not the
-- caller and has a user process as its parent, which the first program has not.
abbrev pub Reached : List Process → ℕ → Audience → ℕ → Process → Type 0
Reached procs cur everybody i p =
    (is_alive p.state ≡ true)
    × (p.is_user ≡ true)
    × (i ≢ cur)
    × ((j : ℕ) × (q : Process) × (p.parent ≡ some j)
        × (get_elem? procs j ≡ some q)
        × (q.is_user ≡ true))
Reached procs cur (group pgid) i p =
    (is_alive p.state ≡ true) × (p.is_user ≡ true) × (p.pgid ≡ pgid)

has_user_parent_sound :
    (procs : List Process) (p : Process)
    → has_user_parent procs p ≡ true
    → (j : ℕ) × (q : Process) × (p.parent ≡ some j)
      × (get_elem? procs j ≡ some q)
      × (q.is_user ≡ true)
unfolding has_user_parent
has_user_parent_sound procs p h = elim (Option-cases p.parent) [
  | inl orphan ↦ let clash : false ≡ true = rw (has_user_parent, orphan) at h in absurd cc
  | inr (j, par) ↦ elim (Option-cases (get_elem? procs j)) [
    | inl off ↦ let clash : false ≡ true = rw (has_user_parent, par, off) at h in absurd cc
    | inr (q, at_q) ↦ (j, q, par, at_q, rw (has_user_parent, par, at_q) at h)
  ]
]

is_addressed-Reached :
    (procs : List Process) (cur : ℕ) (who : Audience) (i : ℕ) (p : Process)
    → (is_addressed procs cur who i p ≡ true) ↔ Reached procs cur who i p
unfolding is_addressed has_user_parent
is_addressed-Reached procs cur everybody i p = (
  λ h. (ground arith, ground arith, ground arith, has_user_parent_sound procs p (ground arith)),
  λ h.
      let (alive, user, other, (j, q, par, at_q, user_parent)) = h in
      let parent : has_user_parent procs p ≡ true = rw (has_user_parent, par, at_q) user_parent in
      ground arith,
)
is_addressed-Reached procs cur (group pgid) i p = (
  (λ h. (ground arith, ground arith, ground arith)),
  λ h. let (alive, user, same) = h in ground arith,
)

-- The same with the tests of the code.
kill_audience_tests :
    (procs : List Process) (cur : ℕ) (who : Audience) (sig : ℕ)
    → ((i : ℕ) (p : Process)
        → get_elem? procs i ≡ some p
        → get_elem? (kill_audience procs cur who sig).1 i ≡ some (signalled procs cur who sig i p))
      × (((kill_audience procs cur who sig).0 ≡ fail esrch) ↔ (
          (i : ℕ) (p : Process)
          → get_elem? procs i ≡ some p
          → is_addressed procs cur who i p ≡ false))
unfolding kill_audience
kill_audience_tests procs cur who sig = (
  λ i p at_i. kill_from_slot procs cur who sig procs 0 i p at_i ∙ first i p,
  (
    λ nobody i p at_i.
        subst (λ (j : ℕ). is_addressed procs cur who j p ≡ false) (omega arith)
          (kill_from_nobody procs cur who sig procs 0
            (esrch_of_false (kill_from procs cur who sig 0 procs).0 nobody) i p at_i),
    λ none_addressed. elim (Bool-cases (kill_from procs cur who sig 0 procs).0) [
      | inl somebody ↦
          let (i, p, at_i, reached) = kill_from_somebody procs cur who sig procs 0 somebody in
          let quiet = none_addressed (0 + i) p (rw (zero_first i) at_i) in cc
      | inr nobody ↦ rw nobody refl
    ],
  ),
)
  where
    zero_first : (i : ℕ) → 0 + i ≡ i
    zero_first i = omega arith

    first :
        (i : ℕ) (p : Process)
        → some (signalled procs cur who sig (0 + i) p) ≡ some (signalled procs cur who sig i p)
    first i p = ap (λ (j : ℕ). some (signalled procs cur who sig j p)) (zero_first i)

-- What `kill` does to a table, for a signal to a group or to everybody: each live user process of the
-- group, or each that is not the caller and has a user process as its parent, is sent the signal (or
-- left alone, for signal 0); every other is left alone; and the result is ESRCH exactly when nobody is
-- meant.
pub kill_audience_lem :
    (procs : List Process) (cur : ℕ) (who : Audience) (sig : ℕ)
    → ((i : ℕ) (p : Process)
        → get_elem? procs i ≡ some p
        → (Reached procs cur who i p
            → get_elem? (kill_audience procs cur who sig).1 i
              ≡ some (if sig == 0 then p else signal_send_locked p sig))
          × (¬ Reached procs cur who i p
              → get_elem? (kill_audience procs cur who sig).1 i ≡ some p))
      × (((kill_audience procs cur who sig).0 ≡ fail esrch)
          ↔ ((i : ℕ) (p : Process) → get_elem? procs i ≡ some p → ¬ Reached procs cur who i p))
unfolding send_if
kill_audience_lem procs cur who sig =
    let (slots, answer) = kill_audience_tests procs cur who sig in
    (
      λ i p at_i. (
        λ reached.
            let yes_p = (is_addressed-Reached procs cur who i p).1 reached in
            slots i p at_i ∙ rw yes_p refl,
        λ missed. elim (Bool-cases (is_addressed procs cur who i p)) [
          | inl yes_p ↦ absurd (missed ((is_addressed-Reached procs cur who i p).0 yes_p))
          | inr no_p ↦ slots i p at_i ∙ rw no_p refl
        ],
      ),
      (
        λ nobody i p at_i reached.
            let yes_p = (is_addressed-Reached procs cur who i p).1 reached in
            let no_p = answer.0 nobody i p at_i in absurd cc,
        λ none_reached. answer.1 (λ i p at_i. elim (Bool-cases (is_addressed procs cur who i p)) [
          | inl yes_p ↦
              absurd (none_reached i p at_i ((is_addressed-Reached procs cur who i p).0 yes_p))
          | inr no_p ↦ no_p
        ]),
      ),
    )

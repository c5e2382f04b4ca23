-- ===== src/Signal/Next.antt =====
-- `signal_interrupted` and `next_signal`: which signal a process receives next.
use c_loyha.Base.{ℕ, ◌<◌, ◌^◌, ◌≡◌, ◌≢◌, ◌↔◌, ◌⊎◌, inl, inr, refl, true, false}
use c_loyha.Base.{◌==◌, arith, Bool-cases}
use c_loyha.Base.Bits.{bit_at, bit_at-le_one, ctz, ctz_lowest}
use c_loyha.Abi.{sigkill}
use c_loyha.Proc.{Process}
use c_loyha.Signal.{has, deliverable, signal_interrupted, next_signal}
use c_loyha.Signal.Masks.{bit_at-clear, clear-lt, has-bit_at}
use c_loyha.Signal.Sending.{IsMasked}

-- A signal that waits and is not blocked.
abbrev pub IsDeliverable : Process → ℕ → Type 0
IsDeliverable p s = (bit_at p.sig_pending s ≡ 1) × (bit_at p.sig_blocked s ≡ 0)

deliverable-IsDeliverable :
    {p : Process} (s : ℕ) → IsMasked p → s < 32 → bit_at (deliverable p) s ≡ 1 → IsDeliverable p s
deliverable-IsDeliverable {p} s m small e = omega (
  arith,
  bit_at-clear s p.sig_pending p.sig_blocked small m.blocked_fits,
  bit_at-le_one s p.sig_pending,
  bit_at-le_one s p.sig_blocked,
)

not-deliverable :
    {p : Process} (s : ℕ) → IsMasked p → s < 32 → bit_at (deliverable p) s ≡ 0 → ¬ IsDeliverable p s
not-deliverable {p} s m small e =
    λ d. omega (arith, d.0, d.1, bit_at-clear s p.sig_pending p.sig_blocked small m.blocked_fits)

pub deliverable_fits : {p : Process} → IsMasked p → deliverable p < 2 ^ 32
deliverable_fits {p} m = clear-lt p.sig_pending p.sig_blocked m.pending_fits

abbrev pub IsNext : Process → ℕ → Type 0
IsNext p s =
    (s < 32) × IsDeliverable p s × ((s ≡ sigkill) ⊎ ((j : ℕ) → j < s → ¬ IsDeliverable p j))

ctz-IsNext : {p : Process} → IsMasked p → 0 < deliverable p → IsNext p (ctz 32 (deliverable p))
ctz-IsNext {p} m some' =
    let (small, found, below) = ctz_lowest 32 (deliverable p) (deliverable_fits m) some' in
    (
      small,
      deliverable-IsDeliverable (ctz 32 (deliverable p)) m small found,
      inr (λ j lt. not-deliverable j m (omega arith) (below j lt)),
    )

sigkill-IsNext : {p : Process} → IsMasked p → has (deliverable p) sigkill ≡ true → IsNext p sigkill
sigkill-IsNext {p} m h = (
  omega arith,
  deliverable-IsDeliverable sigkill m (omega arith)
      (ground (arith, has-bit_at (deliverable p) sigkill (deliverable_fits m))),
  inl refl,
)

-- A process that has something to receive, and was not killed outright, receives a signal that
-- waits and is not blocked: SIGKILL, or else the one with the lowest number.
pub next_signal_lowest :
    {p : Process}
    → IsMasked p
    → p.killed ≡ false
    → signal_interrupted p ≡ true
    → IsNext p (next_signal p)
unfolding next_signal signal_interrupted
next_signal_lowest {p} m alive interrupted = elim (Bool-cases (has (deliverable p) sigkill)) [
  | inl kill ↦ rw (alive, nonzero, kill) (sigkill-IsNext m kill)
  | inr other ↦ rw (alive, nonzero, other) (ctz-IsNext m (ground arith))
]
  where
    nonzero : (deliverable p == 0) ≡ false
    nonzero = ground arith

pub some_next : (p : Process) → next_signal p ≢ 0 → signal_interrupted p ≡ true
unfolding next_signal signal_interrupted
some_next p = ground arith

pub killed_next : (p : Process) → p.killed ≡ true → next_signal p ≡ sigkill
unfolding next_signal
killed_next p h = rw h

interrupted_next :
    {p : Process}
    → IsMasked p
    → bit_at p.sig_pending 0 ≡ 0
    → signal_interrupted p ≡ true
    → next_signal p ≢ 0
interrupted_next {p} m no_zero h z = elim (Bool-cases p.killed) [
  | inl dead ↦ omega (arith, killed_next p dead)
  | inr alive ↦
      let lowest : IsNext p 0 = rw z at (next_signal_lowest m alive h) in
      omega (arith, no_zero, lowest.1.0)
]

-- `signal_interrupted` says that a system call must stop exactly when `next_signal` has a signal to
-- deliver (no signal has the number 0).
pub next_signal-ne_iff_interrupted :
    {p : Process}
    → IsMasked p
    → bit_at p.sig_pending 0 ≡ 0
    → (next_signal p ≢ 0) ↔ (signal_interrupted p ≡ true)
next_signal-ne_iff_interrupted {p} m no_zero = (some_next p, interrupted_next m no_zero)

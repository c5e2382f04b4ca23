-- ===== src/Signal/Sending.antt =====
-- What `signal_send_locked` does to the process, on every branch.
use c_loyha.Base.{ℕ, ◌<◌, ◌^◌, ◌≡◌, inl, inr, refl, true, false}
use c_loyha.Base.{not, ◌&&◌, ◌==◌, if◌then◌else◌, arith, bit_or, Bool-cases}
use c_loyha.Base.Bits.{bit_at, bit_at-le_one, bit_at-two-pow}
use c_loyha.Abi.{sigkill, sigcont}
use c_loyha.Proc.{Process, is_stopped, is_blocked}
use c_loyha.Base.{Bool, ◌||◌, ◌≢◌}
use c_loyha.Abi.{sigchld, sigstop, sigtstp, sigttin, sigttou, sigwinch, sig_dfl, sig_ign}
use c_loyha.Proc.{is_alive}
use c_loyha.Signal.{has, unblockable, default_ignore}
use c_loyha.Signal.{bit, clear, stop_signals, default_stop, send_refused}
use c_loyha.Signal.{send_effects, send_ignored, send_wake, signal_send_locked}
use c_loyha.Signal.Masks.{bit_at-clear, bit-lt, has-bit_at, bit_at-insert}

-- Both masks are `uint32_t`.
pub record IsMasked (p : Process) : Type 0 where
  pub pending_fits : p.sig_pending < 2 ^ 32
  pub blocked_fits : p.sig_blocked < 2 ^ 32

-- The effects that come before queueing leave alone what decides whether a signal is ignored.
pub send_effects_blocked :
    (p : Process) (sig : ℕ) → (send_effects p sig).sig_blocked ≡ p.sig_blocked
unfolding send_effects
send_effects_blocked p sig = ground arith

pub send_effects_actions :
    (p : Process) (sig : ℕ) → (send_effects p sig).sig_actions ≡ p.sig_actions
unfolding send_effects
send_effects_actions p sig = ground arith

pub send_ignored-send_effects :
    (p : Process) (sig : ℕ) → send_ignored (send_effects p sig) sig ≡ send_ignored p sig
unfolding send_ignored
send_ignored-send_effects p sig = rw (send_effects_blocked p sig, send_effects_actions p sig)

pub send_wake_pending : (p : Process) (sig : ℕ) → (send_wake p sig).sig_pending ≡ p.sig_pending
unfolding send_wake
send_wake_pending p sig = ground arith

-- The bit of the signal `j` after the effects of `sig`.
abbrev pub bit_after_effects : Process → ℕ → ℕ → ℕ
bit_after_effects p sig j =
    if sig == sigcont && default_stop j
    then 0
    else if default_stop sig && sigcont == j
    then 0
    else bit_at p.sig_pending j

default_stop-bit : (j : ℕ) → default_stop j ≡ (bit_at stop_signals j == 1)
unfolding default_stop
default_stop-bit j = has-bit_at stop_signals j (omega arith)

stop_signals_bit : (j : ℕ) → default_stop j ≡ true → bit_at stop_signals j ≡ 1
stop_signals_bit j h = ground (arith, default_stop-bit j, bit_at-le_one j stop_signals)

other_signals_bit : (j : ℕ) → default_stop j ≡ false → bit_at stop_signals j ≡ 0
other_signals_bit j h = ground (arith, default_stop-bit j, bit_at-le_one j stop_signals)

default_stop-sigcont : default_stop sigcont ≡ false
unfolding default_stop
default_stop-sigcont = refl

clear-stop_signals :
    (a j : ℕ)
    → j < 32
    → bit_at (clear a stop_signals) j ≡ (if default_stop j then 0 else bit_at a j)
clear-stop_signals a j small = elim (Bool-cases (default_stop j)) [
  | inl yes' ↦
      rw (yes', bit_at-clear j a stop_signals small (omega arith))
        (omega (arith, stop_signals_bit j yes'))
  | inr no' ↦
      rw (no', bit_at-clear j a stop_signals small (omega arith))
        (omega (arith, other_signals_bit j no', bit_at-le_one j a))
]

pub clear-bit :
    (a s j : ℕ) → s < 32 → j < 32 → bit_at (clear a (bit s)) j ≡ (if s == j then 0 else bit_at a j)
clear-bit a s j s_small small = ground (
  arith,
  bit_at-clear j a (bit s) small (bit-lt s s_small),
  bit_at-two-pow s j,
  bit_at-le_one j a,
)

pub send_effects_pending :
    (p : Process) (sig j : ℕ)
    → j < 32
    → bit_at (send_effects p sig).sig_pending j ≡ bit_after_effects p sig j
unfolding send_effects
send_effects_pending p sig j small = ground (
  arith,
  default_stop-sigcont,
  clear-stop_signals p.sig_pending j small,
  clear-bit p.sig_pending sigcont j (omega arith) small,
)

-- The process with the signal queued.
abbrev queued : Process → ℕ → Process
queued p sig =
    let q = send_effects p sig in record q { sig_pending = bit_or q.sig_pending (bit sig) }

-- The bits after `signal_send_locked`, with the tests of the code.
pending_bits :
    (p : Process) (sig j : ℕ)
    → send_refused p sig ≡ false
    → j < 32
    → bit_at (signal_send_locked p sig).sig_pending j
      ≡ (if sig == j && not (send_ignored p sig) then 1 else bit_after_effects p sig j)
unfolding signal_send_locked
pending_bits p sig j taken small = ground (
  arith,
  send_ignored-send_effects p sig,
  send_effects_pending p sig j small,
  send_wake_pending (queued p sig) sig,
  bit_at-insert j (send_effects p sig).sig_pending sig,
  bit_at-insert j (send_effects p sig).sig_pending sig,
)

-- The stop signals, and the signals that a process cannot block.
abbrev pub stops : ℕ → Bool
stops sig = sig == sigstop || sig == sigtstp || sig == sigttin || sig == sigttou

abbrev pub certain : ℕ → Bool
certain sig = sig == sigkill || sig == sigstop

-- The process drops the signal: it can be blocked, is not, and has no effect by the handler that is
-- set, SIG_IGN, or SIG_DFL for one that does nothing by default.
abbrev pub drops : Process → ℕ → Bool
drops p sig =
    let h = (p.sig_actions sig).sa_handler in
    not (certain sig)
    && bit_at p.sig_blocked sig == 0
    && (h == sig_ign
        || h == sig_dfl && (sig == sigchld || sig == sigcont || sig == sigwinch || sig == 23))

has-unblockable : (sig : ℕ) → has unblockable sig ≡ certain sig
has-unblockable sig = ground (
  arith,
  has-bit_at unblockable sig (omega arith),
  bit_at-insert sig (bit sigkill) sigstop,
  bit_at-two-pow sigkill sig,
)

default_stop-stops : (sig : ℕ) → default_stop sig ≡ stops sig
default_stop-stops sig = ground (
  arith,
  default_stop-bit sig,
  bit_at-insert sig (bit_or (bit_or (bit sigstop) (bit sigtstp)) (bit sigttin)) sigttou,
  bit_at-insert sig (bit_or (bit sigstop) (bit sigtstp)) sigttin,
  bit_at-insert sig (bit sigstop) sigtstp,
  bit_at-two-pow sigstop sig,
)

send_ignored-drops :
    (p : Process) (sig : ℕ) → p.sig_blocked < 2 ^ 32 → send_ignored p sig ≡ drops p sig
unfolding send_ignored default_ignore
send_ignored-drops p sig fits =
    ground (
      arith,
      has-unblockable sig,
      has-bit_at p.sig_blocked sig fits,
      bit_at-le_one sig p.sig_blocked,
    )

-- Which bits of `sig_pending` are set after `signal_send_locked` of a signal from 1 to 31 to a live
-- process of a user that is no idle process: the signal's own bit is set unless the process drops the
-- signal; SIGCONT takes back the waiting stop signals, a stop signal takes back a waiting SIGCONT, and
-- every other bit is as before.
pub signal_send_pending :
    (p : Process) (sig j : ℕ)
    → sig ≢ 0
    → sig < 32
    → p.is_user ≡ true
    → p.is_idle ≡ false
    → is_alive p.state ≡ true
    → p.sig_blocked < 2 ^ 32
    → j < 32
    → bit_at (signal_send_locked p sig).sig_pending j ≡ (
        if sig == j && not (drops p sig)
        then 1
        else if sig == sigcont && stops j
        then 0
        else if stops sig && j == sigcont
        then 0
        else bit_at p.sig_pending j)
unfolding send_refused
signal_send_pending p sig j some_sig small_sig user busy alive fits small = ground (
  arith,
  pending_bits p sig j (ground arith) small,
  send_ignored-drops p sig fits,
  default_stop-stops j,
  default_stop-stops sig,
)

send_effects-sigkill : (p : Process) → (send_effects p sigkill).killed ≡ true
unfolding send_effects default_stop
send_effects-sigkill p = ground arith

send_ignored-sigkill : (p : Process) → send_ignored p sigkill ≡ false
unfolding send_ignored
send_ignored-sigkill p = refl

send_wake-sigkill :
    (p : Process)
    → ((send_wake p sigkill).killed ≡ p.killed)
      × (is_blocked (send_wake p sigkill).state ≡ false)
      × (is_stopped (send_wake p sigkill).state ≡ false)
unfolding send_wake
send_wake-sigkill p = ground arith

-- SIGKILL reaches every process that may be signalled, whatever it blocks or ignores: it is marked
-- killed, the signal waits, and the process neither sleeps nor stays stopped.
pub signal_send_sigkill :
    (p : Process)
    → send_refused p sigkill ≡ false
    → let q = signal_send_locked p sigkill in
      (q.killed ≡ true)
      × (bit_at q.sig_pending sigkill ≡ 1)
      × (is_blocked q.state ≡ false)
      × (is_stopped q.state ≡ false)
unfolding signal_send_locked
signal_send_sigkill p taken = ground (
  arith,
  send_effects-sigkill p,
  send_ignored-sigkill (send_effects p sigkill),
  send_wake-sigkill (queued p sigkill),
  send_wake_pending (queued p sigkill) sigkill,
  bit_at-insert sigkill (send_effects p sigkill).sig_pending sigkill,
)

-- A waiting SIGCONT and a waiting stop signal exclude one another.
abbrev pub Exclusive : Process → Type 0
Exclusive p =
    (j : ℕ)
    → j < 32
    → stops j ≡ true
    → bit_at p.sig_pending sigcont ≡ 1
    → bit_at p.sig_pending j ≡ 0

-- One `signal_send_locked`, of whichever signal, leaves SIGCONT and a stop signal waiting together only
-- if they waited together before.
pub signal_send-Exclusive :
    (p : Process) (sig : ℕ) → Exclusive p → Exclusive (signal_send_locked p sig)
signal_send-Exclusive p sig before j small halts waits = elim (Bool-cases (send_refused p sig)) [
  | inl refused ↦
      let same : signal_send_locked p sig ≡ p = unfold signal_send_locked in rw refused in
      rw same (before j small halts (rw same at waits))
  | inr taken ↦ ground (
    arith,
    pending_bits p sig j taken small,
    pending_bits p sig sigcont taken (omega arith),
    default_stop-sigcont,
    default_stop-stops j,
    default_stop-stops sig,
    before j small halts,
  )
]

-- ===== src/Signal/Frame/Loop.antt =====
-- The loop of `signal_deliver`: its rounds, and what SIGKILL does.
use c_loyha.Base.{ℕ, zero, suc, ◌+◌, ◌<◌, ◌≡◌, ◌≢◌, refl, Bool, true, false}
use c_loyha.Base.{◌==◌, if◌then◌else◌, arith}
use c_loyha.Base.Bits.{bit_at}
use c_loyha.Base.Popcount.{popcount, popcount-le, popcount_remove}
use c_loyha.Abi.{sigkill, sigstop, sig_dfl}
use c_loyha.Proc.{Process}
use c_loyha.Signal.{bit, clear, has, default_ignore, default_stop, deliverable, next_signal}
use c_loyha.Signal.Frame.{Frame, Delivery, go_on, exit_by, stuck, deliver_one, take_signal}
use c_loyha.Signal.Frame.{deliver_loop, signal_deliver}
use c_loyha.Signal.Masks.{clear-lt, bit_at-clear, has-bit_at, has_nonzero}
use c_loyha.Signal.Sending.{IsMasked, clear-bit}
use c_loyha.Signal.Next.{deliverable_fits, IsNext, next_signal_lowest, some_next}
use c_loyha.Uaccess.{UserMem}

deliver_one-ne-stuck :
    (p : Process) (f : Frame) (m : UserMem) (sig : ℕ) (again : Delivery)
    → again ≢ stuck
    → deliver_one p f m sig again ≢ stuck
unfolding deliver_one
deliver_one-ne-stuck p f m sig again h = ground arith

take_signal-IsMasked : {p : Process} (sig : ℕ) → IsMasked p → IsMasked (take_signal p sig)
unfolding take_signal
take_signal-IsMasked {p} sig m = record {
  pending_fits = clear-lt p.sig_pending (bit sig) m.pending_fits;
  blocked_fits = m.blocked_fits;
}

-- A round leaves one waiting signal fewer.
popcount-take_signal :
    (p : Process) (sig : ℕ)
    → sig < 32
    → bit_at p.sig_pending sig ≡ 1
    → popcount 32 (take_signal p sig).sig_pending + 1 ≡ popcount 32 p.sig_pending
unfolding take_signal
popcount-take_signal p sig small waits =
    popcount_remove 32 p.sig_pending (clear p.sig_pending (bit sig)) sig small waits
      (λ i lt. clear-bit p.sig_pending sig i small lt)

round-ne-stuck :
    (killed nothing : Bool) (done' handled : Delivery)
    → done' ≢ stuck
    → (killed ≡ false → nothing ≡ false → handled ≢ stuck)
    → (if killed then exit_by sigkill else if nothing then done' else handled) ≢ stuck
round-ne-stuck true nothing done' handled d h = λ e. cc
round-ne-stuck false true done' handled d h = d
round-ne-stuck false false done' handled d h = h refl refl

-- The loop ends when it has more rounds than signals wait.
deliver_loop-ne-stuck :
    (fuel : ℕ) (p : Process) (f : Frame) (m : UserMem)
    → IsMasked p
    → popcount 32 p.sig_pending < fuel
    → deliver_loop fuel p f m ≢ stuck
unfolding deliver_loop
deliver_loop-ne-stuck zero p f m masked enough = absurd (omega arith)
deliver_loop-ne-stuck (suc fuel) p f m masked enough =
    round-ne-stuck p.killed (sig == 0) (go_on p f m) (deliver_one p' f m sig again) (λ e. cc)
      λ alive some'. deliver_one-ne-stuck p' f m sig again (
        deliver_loop-ne-stuck fuel p' f m (take_signal-IsMasked sig masked)
          (fewer (next_signal_lowest masked alive (some_next p (ground arith)))))
  where
    sig : ℕ
    sig = next_signal p

    p' : Process
    p' = take_signal p sig

    again : Delivery
    again = deliver_loop fuel p' f m

    fewer : IsNext p sig → popcount 32 p'.sig_pending < fuel
    fewer next = omega (arith, popcount-take_signal p sig next.0 next.1.0)

-- `signal_deliver` ends within 33 rounds of its loop: the program goes on, stops, or is ended.
pub signal_deliver_ends :
    (p : Process) (f : Frame) (m : UserMem) → IsMasked p → signal_deliver p f m ≢ stuck
unfolding signal_deliver
signal_deliver_ends p f m masked =
    ground
      (arith, deliver_loop-ne-stuck 33 p f m masked (omega (arith, popcount-le 32 p.sig_pending)))

-- No program escapes SIGKILL and SIGSTOP: it does not block them, and has no handler for them.
pub record Uncatchable (p : Process) : Type 0 where
  pub kill_open : bit_at p.sig_blocked sigkill ≡ 0
  pub stop_open : bit_at p.sig_blocked sigstop ≡ 0
  pub kill_default : (p.sig_actions sigkill).sa_handler ≡ sig_dfl
  pub stop_default : (p.sig_actions sigstop).sa_handler ≡ sig_dfl

next_signal-sigkill :
    (p : Process)
    → IsMasked p
    → bit_at p.sig_pending sigkill ≡ 1
    → bit_at p.sig_blocked sigkill ≡ 0
    → next_signal p ≡ sigkill
unfolding next_signal
next_signal-sigkill p m waits open' =
    let kept : bit_at (deliverable p) sigkill ≡ 1 =
      omega
        (arith, bit_at-clear sigkill p.sig_pending p.sig_blocked (omega arith) m.blocked_fits) in
    let here : has (deliverable p) sigkill ≡ true =
      ground (arith, has-bit_at (deliverable p) sigkill (deliverable_fits m)) in
    ground (arith, here, has_nonzero (deliverable p) sigkill here)

deliver_one-sigkill :
    (p : Process) (f : Frame) (m : UserMem) (again : Delivery)
    → (p.sig_actions sigkill).sa_handler ≡ sig_dfl
    → deliver_one p f m sigkill again ≡ exit_by sigkill
unfolding deliver_one default_ignore default_stop
deliver_one-sigkill p f m again dfl = ground arith

killed_round :
    (killed : Bool) (s : ℕ) (done' : Delivery) (handle : ℕ → Delivery)
    → s ≡ sigkill
    → handle sigkill ≡ exit_by sigkill
    → (if killed then exit_by sigkill else if s == 0 then done' else handle s) ≡ exit_by sigkill
killed_round true s done' handle e h = refl
killed_round false s done' handle e h = rw e h

deliver_loop-sigkill :
    (fuel : ℕ) (p : Process) (f : Frame) (m : UserMem)
    → next_signal p ≡ sigkill
    → (p.sig_actions sigkill).sa_handler ≡ sig_dfl
    → deliver_loop (suc fuel) p f m ≡ exit_by sigkill
unfolding deliver_loop
deliver_loop-sigkill fuel p f m next dfl =
    killed_round p.killed (next_signal p) (go_on p f m)
      (λ s. deliver_one (take_signal p s) f m s (deliver_loop fuel (take_signal p s) f m)) next
      (deliver_one-sigkill (take_signal p sigkill) f m
        (deliver_loop fuel (take_signal p sigkill) f m) (unfold take_signal in dfl))

-- A user program for which SIGKILL waits is ended by SIGKILL when it leaves the kernel, before any
-- other signal is handled, if it neither blocks nor catches it.
pub signal_deliver-sigkill :
    (p : Process) (f : Frame) (m : UserMem)
    → IsMasked p
    → Uncatchable p
    → p.is_user ≡ true
    → bit_at p.sig_pending sigkill ≡ 1
    → signal_deliver p f m ≡ exit_by sigkill
unfolding signal_deliver
signal_deliver-sigkill p f m masked safe user waits = ground (
  arith,
  user,
  deliver_loop-sigkill 32 p f m (next_signal-sigkill p masked waits safe.kill_open)
      safe.kill_default,
)

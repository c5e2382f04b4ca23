-- ===== src/Pipe/Outcomes.antt =====
-- Writing a pipe: what is added to its bytes; and the outcomes of reads and writes.
use c_loyha.Base.{◌⊎◌, ℕ, zero, suc, ◌+◌, ◌-◌, ◌≤◌, ◌≡◌, ◌≢◌, ◌∙◌, refl, sym, ap, arith, min}
use c_loyha.Base.{Bool, true, false, List, [], ◌∷◌, ◌++◌, length, take, drop}
use c_loyha.Base.{length-take, length-drop}
use c_loyha.Base.Slice.{length-slice}
use c_loyha.Abi.{Ret, done, fail}
use c_loyha.Proc.{Process}
use c_loyha.Pipe.{Pipe, pipe_size, around, read_returns, read_sleeps, take_bytes, pipe_read}
use c_loyha.Pipe.{write_returns, write_sleeps, put, write_from, pipe_write}
use c_loyha.Abi.{eintr, epipe, sigpipe}
use c_loyha.Signal.{signal_send_locked}
use c_loyha.Pipe.Fifo.{contents, contents-put, after_write, amount}
use c_loyha.Pipe.Fifo.{append_assoc, append_nil}

take_none : (n : ℕ) → take {A = ℕ} n [] ≡ []
take_none zero = refl
take_none (suc n) = refl

take-add : (n m : ℕ) (xs : List ℕ) → take (n + m) xs ≡ take n xs ++ take m (drop n xs)
take-add zero m xs = let e : 0 + m ≡ m = omega arith in rw e refl
take-add (suc n) m [] = take_none (suc n + m) ∙ sym (take_none m)
take-add (suc n) m (x ∷ xs) =
    let e : suc n + m ≡ suc (n + m) = omega arith in rw e (ap (λ ys. x ∷ ys) (take-add n m xs))

amount_ge :
    (fuel : ℕ) (p : Pipe) (me : Process) (signalled : Bool) (written : ℕ) (bytes : List ℕ)
    → written ≤ amount (write_from fuel p me signalled written bytes)
unfolding write_from
amount_ge zero p me signalled written bytes = omega arith
amount_ge (suc fuel) p me signalled written bytes = ground (
  arith,
  amount_ge fuel (put p (take (min (length bytes) (pipe_size - p.count)) bytes)) me signalled
      (written + min (length bytes) (pipe_size - p.count))
      (drop (min (length bytes) (pipe_size - p.count)) bytes),
)

nothing_added :
    (p : Pipe) (k : ℕ) (bytes : List ℕ) → k ≡ 0 → contents p ≡ contents p ++ take k bytes
nothing_added p k bytes e = rw e (sym (append_nil (contents p)))

-- One round of the loop that copies, and the rounds after it.
round_added :
    (p q : Pipe) (n written a : ℕ) (bytes : List ℕ)
    → p.count + length (take n bytes) ≤ pipe_size
    → written + n ≤ a
    → contents q ≡ contents (put p (take n bytes)) ++ take (a - (written + n)) (drop n bytes)
    → contents q ≡ contents p ++ take (a - written) bytes
round_added p q n written a bytes le ge h =
    let e : a - written ≡ n + (a - (written + n)) = omega arith in
    h
    ∙ ap (λ xs. xs ++ take (a - (written + n)) (drop n bytes)) (contents-put p (take n bytes) le)
    ∙ append_assoc (contents p) (take n bytes) (take (a - (written + n)) (drop n bytes))
    ∙ ap (λ xs. contents p ++ xs) (sym (take-add n (a - (written + n)) bytes))
    ∙ ap (λ (k : ℕ). contents p ++ take k bytes) (sym e)

fits :
    (p : Pipe) (bytes : List ℕ)
    → p.count ≤ pipe_size
    → p.count + length (take (min (length bytes) (pipe_size - p.count)) bytes) ≤ pipe_size
fits p bytes le = omega (arith, length-take (min (length bytes) (pipe_size - p.count)) bytes)

count-put : (p : Pipe) (bs : List ℕ) → (put p bs).count ≡ p.count + length bs
unfolding put
count-put p bs = refl

contents-write_from :
    (fuel : ℕ) (p : Pipe) (me : Process) (signalled : Bool) (written : ℕ) (bytes : List ℕ)
    → p.count ≤ pipe_size
    → contents (after_write (write_from fuel p me signalled written bytes))
      ≡ contents p ++ take (amount (write_from fuel p me signalled written bytes) - written) bytes
unfolding write_from
contents-write_from zero p me signalled written bytes le =
    nothing_added p (written - written) bytes (omega arith)
contents-write_from (suc fuel) p me signalled written bytes le =
    let n = min (length bytes) (pipe_size - p.count) in
    ground (
      arith,
      nothing_added p (written - written) bytes (omega arith),
      nothing_added p (0 - written) bytes (omega arith),
      round_added p
          (after_write
            (write_from fuel (put p (take n bytes)) me signalled (written + n) (drop n bytes)))
          n written
          (amount
            (write_from fuel (put p (take n bytes)) me signalled (written + n) (drop n bytes)))
          bytes (fits p bytes le)
          (amount_ge fuel (put p (take n bytes)) me signalled (written + n) (drop n bytes))
          (contents-write_from fuel (put p (take n bytes)) me signalled (written + n) (drop n bytes)
            (omega (arith, fits p bytes le, count-put p (take n bytes)))),
    )

-- Writing adds at the end: after it, whatever the outcome, the pipe holds what it held, followed by
-- as many of the bytes as the writer is told (or as a sleeping writer counts).
pub contents-pipe_write :
    (p : Pipe) (me : Process) (signalled : Bool) (written : ℕ) (bytes : List ℕ)
    → p.count ≤ pipe_size
    → contents (after_write (pipe_write p me signalled written bytes))
      ≡ contents p ++ take (amount (pipe_write p me signalled written bytes) - written) bytes
unfolding pipe_write
contents-pipe_write p me signalled written bytes le =
    contents-write_from 2 p me signalled written bytes le

-- A writer sleeps only when the buffer is full, somebody can still read, and no signal waits; the fuel
-- of the loop is never what stops it.
pub pipe_write-sleeps :
    (p : Pipe) (me : Process) (signalled : Bool) (written : ℕ) (bytes : List ℕ) (w : ℕ) (q : Pipe)
    (me' : Process)
    → p.count ≤ pipe_size
    → pipe_write p me signalled written bytes ≡ write_sleeps w q me'
    → (q.count ≡ pipe_size) × (q.readers ≢ 0) × (signalled ≡ false) × (me' ≡ me)
unfolding pipe_write write_from put
pipe_write-sleeps p me signalled written bytes w q me' le e =
    let n = min (length bytes) (pipe_size - p.count) in
    ground (arith, length-take n bytes, length-drop n bytes)

-- What a write returns. Without a reader and with something to write it is EPIPE and SIGPIPE, the pipe
-- as it was; with one and no signal waiting, a write that returns has written everything.
pub pipe_write_outcomes :
    (p : Pipe) (me : Process) (signalled : Bool) (bytes : List ℕ)
    → p.count ≤ pipe_size
    → length bytes ≢ 0
    → (p.readers ≡ 0
        → pipe_write p me signalled 0 bytes
          ≡ write_returns (fail epipe) p (signal_send_locked me sigpipe))
      × (p.readers ≢ 0
          → signalled ≡ false
          → (r : Ret) (q : Pipe) (me' : Process)
          → pipe_write p me signalled 0 bytes ≡ write_returns r q me'
          → (r ≡ done (length bytes)) × (me' ≡ me))
unfolding pipe_write write_from put
pipe_write_outcomes p me signalled bytes le some_bytes =
    let n = min (length bytes) (pipe_size - p.count) in
    (
      λ no_readers. ground arith,
      λ readers quiet r q me' e. ground (arith, length-take n bytes, length-drop n bytes),
    )

-- When the pipe is empty, somebody can still write and something is asked for, a reader sleeps, or gets
-- EINTR where a signal waits; the pipe is as it was. A reader sleeps only then. A read that returns
-- gives as many bytes as are asked for or as there are, none only where none is asked for or nobody can
-- write any more; or it is EINTR, with nothing to read, a writer left and a signal waiting.
pub pipe_read_outcomes :
    (p : Pipe) (signalled : Bool) (len : ℕ)
    → ((q : Pipe)
        → pipe_read p signalled len ≡ read_sleeps q
        → (p.count ≡ 0) × (p.writers ≢ 0) × (signalled ≡ false) × (q ≡ p))
      × ((r : Ret) (bytes : List ℕ) (q : Pipe)
          → pipe_read p signalled len ≡ read_returns r bytes q
          → ((r ≡ done (min len p.count))
              × (length bytes ≡ min len p.count)
              × (p.count ≡ 0 → len ≢ 0 → p.writers ≡ 0))
            ⊎ ((r ≡ fail eintr) × (p.count ≡ 0) × (p.writers ≢ 0) × (signalled ≡ true)))
      × (len ≢ 0
          → p.count ≡ 0
          → p.writers ≢ 0
          → (signalled ≡ false → pipe_read p signalled len ≡ read_sleeps p)
            × (signalled ≡ true → pipe_read p signalled len ≡ read_returns (fail eintr) [] p))
unfolding pipe_read take_bytes
pipe_read_outcomes p signalled len = (
  λ q e. ground arith,
  λ r bytes q e. ground (arith, length-slice (around p.buf) p.head (min len p.count)),
  λ asked empty writers. (λ quiet. ground arith, λ waits. ground arith),
)

-- ===== src/Pipe.antt =====
-- kernel/fs/pipe.c. The buffer is a function of the index; the positions of `head` are below
-- `pipe_size`. Sleeping is an outcome: who is woken up goes on with the pipe that it then finds, a
-- writer with the bytes that it has left.
pub mod Fifo
pub mod Outcomes
pub mod Runs
use c_loyha.Base.{
  ℕ, zero, suc, ◌+◌, ◌-◌, ◌%◌, min, Bool, true, false, ◌==◌, if◌then◌else◌, List, [], ◌∷◌,
}
use c_loyha.Base.{length, drop, take}
use c_loyha.Base.Slice.{slice}
use c_loyha.Abi.{Ret, done, fail, eintr, epipe, sigpipe}
use c_loyha.Proc.{Process}
use c_loyha.Signal.{signal_send_locked}
use c_loyha.Console.{write_byte}

-- `PIPE_SIZE`
abbrev pub pipe_size : ℕ
pipe_size = 16384

pub record Pipe : Type 0 where
  pub buf : ℕ → ℕ
  pub head : ℕ
  pub count : ℕ
  pub readers : ℕ
  pub writers : ℕ

-- `buf[i % PIPE_SIZE]`
abbrev pub around : (ℕ → ℕ) → ℕ → ℕ
around buf i = buf (i % pipe_size)

pub data PipeRead : Type 0 where
  read_returns : Ret → List ℕ → Pipe → PipeRead
  read_sleeps : Pipe → PipeRead

unfoldable pub take_bytes : Pipe → ℕ → PipeRead
take_bytes p n =
    read_returns (done n) (slice (around p.buf) p.head n)
      (record p { head = (p.head + n) % pipe_size; count = p.count - n })

unfoldable pub pipe_read : Pipe → Bool → ℕ → PipeRead
pipe_read p signalled len =
    if len == 0
    then read_returns (done 0) [] p
    else if p.count == 0
    then (if p.writers == 0
        then read_returns (done 0) [] p
        else if signalled
        then read_returns (fail eintr) [] p
        else read_sleeps p)
    else take_bytes p (min len p.count)

-- The writing process comes along, for SIGPIPE. A sleeping writer keeps how much it has written.
pub data PipeWrite : Type 0 where
  write_returns : Ret → Pipe → Process → PipeWrite
  write_sleeps : ℕ → Pipe → Process → PipeWrite

-- The copy loop of `pipe_write`, from position `tail` on.
unfoldable pub put_bytes : (ℕ → ℕ) → ℕ → List ℕ → ℕ → ℕ
put_bytes buf tail [] = buf
put_bytes buf tail (b ∷ bs) = put_bytes (write_byte buf (tail % pipe_size) b) (tail + 1) bs

unfoldable pub put : Pipe → List ℕ → Pipe
put p bytes = record p {
  buf = put_bytes p.buf ((p.head + p.count) % pipe_size) bytes;
  count = p.count + length bytes;
}

-- The loop of `pipe_write` with `written` bytes behind it and `bytes` before it.
unfoldable pub write_from : ℕ → Pipe → Process → Bool → ℕ → List ℕ → PipeWrite
write_from zero p me signalled written bytes = write_sleeps written p me
write_from (suc fuel) p me signalled written bytes =
    let n = min (length bytes) (pipe_size - p.count) in
    let rest = write_from fuel (put p (take n bytes)) me signalled (written + n) (drop n bytes) in
    if length bytes == 0
    then write_returns (done written) p me
    else if p.readers == 0
    then (if written == 0
        then write_returns (fail epipe) p (signal_send_locked me sigpipe)
        else write_returns (done written) p me)
    else if p.count == pipe_size
    then (if signalled
        then write_returns (if written == 0 then fail eintr else done written) p me
        else write_sleeps written p me)
    else rest

-- Until it sleeps or returns, the loop copies once and then finds nothing left or the buffer full.
unfoldable pub pipe_write : Pipe → Process → Bool → ℕ → List ℕ → PipeWrite
pipe_write p me signalled written bytes = write_from 2 p me signalled written bytes

-- The result says whether the pipe is freed.
unfoldable pub pipe_release : Pipe → Bool → Bool × Pipe
pipe_release p writing =
    let q =
      if writing
      then record p { writers = p.writers - 1 }
      else record p { readers = p.readers - 1 } in
    (if q.readers == 0 then q.writers == 0 else false, q)

-- `pipe_create`, once its allocations succeed.
unfoldable pub pipe_create : (ℕ → ℕ) → Pipe
pipe_create buf = record { buf = buf; head = 0; count = 0; readers = 1; writers = 1 }

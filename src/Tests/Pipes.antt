-- ===== src/Tests/Pipes.antt =====
-- A pipe on concrete bytes.
use c_loyha.Base.{
  ℕ, zero, suc, ◌+◌, ◌-◌, ◌≡◌, ◌≢◌, ◌⊎◌, refl, arith, Bool, true, false, min, List, [], ◌∷◌,
}
use c_loyha.Base.{◌++◌, length, take, replicate}
use c_loyha.Abi.{Ret, done, fail, eintr, epipe, sigpipe}
use c_loyha.Proc.{Process}
use c_loyha.Pipe.{
  Pipe, pipe_size, pipe_create, PipeRead, read_returns, read_sleeps, pipe_read, pipe_write,
}
use c_loyha.Pipe.{write_sleeps, write_from, write_returns}
use c_loyha.Signal.{signal_send_locked}
use c_loyha.Pipe.Fifo.{contents, Bounded, after_read, after_write, bytes_of, amount}
use c_loyha.Pipe.Outcomes.{pipe_read_outcomes, pipe_write_outcomes}
use c_loyha.Pipe.Runs.{idle, reads, writes, Run-contents}
use c_loyha.Tests.Groups.{leader}

-- Two places before the end of the buffer.
abbrev empty_pipe : Pipe
empty_pipe = record { buf = λ i. 0; head = 16382; count = 0; readers = 1; writers = 1 }

abbrev full_pipe : Pipe
full_pipe = record empty_pipe { count = 16384 }

abbrev five : List ℕ
five = 1 ∷ 2 ∷ 3 ∷ 4 ∷ 5 ∷ []

abbrev written_pipe : Pipe
written_pipe = after_write (pipe_write empty_pipe leader false 0 five)

wraps_around : bytes_of (pipe_read written_pipe false 4) ≡ 1 ∷ 2 ∷ 3 ∷ 4 ∷ []
unfolding pipe_read pipe_write write_from c_loyha.Pipe.put c_loyha.Pipe.put_bytes
    c_loyha.Pipe.take_bytes c_loyha.Base.Slice.slice
wraps_around = refl

Run-contents_example :
    (contents empty_pipe ++ take (amount (pipe_write empty_pipe leader false 0 five) - 0) five
      ≡ bytes_of (pipe_read written_pipe false 4)
        ++ contents (after_read (pipe_read written_pipe false 4)))
    × Bounded (after_read (pipe_read written_pipe false 4))
Run-contents_example =
    Run-contents (reads (writes idle leader false 0 five) false 4) (omega arith, omega arith)

full_sleeps : pipe_write full_pipe leader false 0 five ≡ write_sleeps 0 full_pipe leader
unfolding pipe_write write_from
full_sleeps = refl

pipe_read_outcomes_example :
    ((q : Pipe)
      → pipe_read full_pipe true 4 ≡ read_sleeps q
      → (full_pipe.count ≡ 0) × (full_pipe.writers ≢ 0) × (true ≡ false) × (q ≡ full_pipe))
    × ((r : Ret) (bytes : List ℕ) (q : Pipe)
        → pipe_read full_pipe true 4 ≡ read_returns r bytes q
        → ((r ≡ done (min 4 full_pipe.count))
            × (length bytes ≡ min 4 full_pipe.count)
            × (full_pipe.count ≡ 0 → ◌≢◌ {A = ℕ} 4 0 → full_pipe.writers ≡ 0))
          ⊎ ((r ≡ fail eintr) × (full_pipe.count ≡ 0) × (full_pipe.writers ≢ 0) × (true ≡ true)))
    × (◌≢◌ {A = ℕ} 4 0
        → full_pipe.count ≡ 0
        → full_pipe.writers ≢ 0
        → (true ≡ false → pipe_read full_pipe true 4 ≡ read_sleeps full_pipe)
          × (true ≡ true → pipe_read full_pipe true 4 ≡ read_returns (fail eintr) [] full_pipe))
pipe_read_outcomes_example = pipe_read_outcomes full_pipe true 4

pipe_write_outcomes_example :
    (empty_pipe.readers ≡ 0
      → pipe_write empty_pipe leader false 0 five
        ≡ write_returns (fail epipe) empty_pipe (signal_send_locked leader sigpipe))
    × (empty_pipe.readers ≢ 0
        → false ≡ false
        → (r : Ret) (q : Pipe) (me' : Process)
        → pipe_write empty_pipe leader false 0 five ≡ write_returns r q me'
        → (r ≡ done (length five)) × (me' ≡ leader))
pipe_write_outcomes_example =
    pipe_write_outcomes empty_pipe leader false five (omega arith) (omega arith)

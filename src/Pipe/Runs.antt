-- ===== src/Pipe/Runs.antt =====
-- A pipe over any sequence of reads, writes and closed ends, in whatever order the processes come.
use c_loyha.Base.{ℕ, zero, suc, ◌+◌, ◌-◌, ◌≡◌, ◌∙◌, refl, sym, ap, arith, min}
use c_loyha.Base.{Bool, true, false, List, [], ◌++◌, length, take, drop}
use c_loyha.Base.{length-take}
use c_loyha.Proc.{Process}
use c_loyha.Pipe.{Pipe, pipe_size, take_bytes, pipe_read}
use c_loyha.Pipe.{put, write_from, pipe_write}
use c_loyha.Pipe.{pipe_release}
use c_loyha.Pipe.Fifo.{contents, Bounded, bytes_of, after_read, after_write, amount}
use c_loyha.Pipe.Fifo.{append_assoc, append_nil, contents-pipe_read}
use c_loyha.Pipe.Outcomes.{contents-pipe_write}

-- From one pipe to another, with the bytes written and the bytes read on the way.
pub data Run : Pipe → Pipe → List ℕ → List ℕ → Type 0 where
  idle : {p : Pipe} → Run p p [] []
  reads :
      {p q : Pipe} {w r : List ℕ}
      → Run p q w r
      → (signalled : Bool) (len : ℕ)
      → Run p (after_read (pipe_read q signalled len)) w (r ++ bytes_of (pipe_read q signalled len))
  writes :
      {p q : Pipe} {w r : List ℕ}
      → Run p q w r
      → (me : Process) (signalled : Bool) (written : ℕ) (bytes : List ℕ)
      → Run p
          (after_write (pipe_write q me signalled written bytes))
          (w ++ take (amount (pipe_write q me signalled written bytes) - written) bytes)
          r
  closes :
      {p q : Pipe} {w r : List ℕ}
      → Run p q w r
      → (writing : Bool) → Run p (pipe_release q writing).1 w r

read-Bounded :
    (p : Pipe) (signalled : Bool) (len : ℕ)
    → Bounded p
    → Bounded (after_read (pipe_read p signalled len))
unfolding pipe_read take_bytes
read-Bounded p signalled len b = ground arith

write_from-Bounded :
    (fuel : ℕ) (p : Pipe) (me : Process) (signalled : Bool) (written : ℕ) (bytes : List ℕ)
    → Bounded p
    → Bounded (after_write (write_from fuel p me signalled written bytes))
unfolding write_from put
write_from-Bounded zero p me signalled written bytes b = b
write_from-Bounded (suc fuel) p me signalled written bytes b =
    let n = min (length bytes) (pipe_size - p.count) in
    ground (
      arith,
      length-take n bytes,
      write_from-Bounded fuel (put p (take n bytes)) me signalled (written + n) (drop n bytes)
          (b.0, omega (arith, length-take n bytes)),
    )

write-Bounded :
    (p : Pipe) (me : Process) (signalled : Bool) (written : ℕ) (bytes : List ℕ)
    → Bounded p
    → Bounded (after_write (pipe_write p me signalled written bytes))
unfolding pipe_write
write-Bounded p me signalled written bytes b = write_from-Bounded 2 p me signalled written bytes b

release_same :
    (p : Pipe) (writing : Bool)
    → Bounded p
    → Bounded (pipe_release p writing).1 × (contents (pipe_release p writing).1 ≡ contents p)
unfolding pipe_release contents
release_same p true b = (b, refl)
release_same p false b = (b, refl)

-- The pipe is a queue: whatever reads, writes and closings happen, the bytes that were read, followed
-- by those still in the pipe, are those that were in it, followed by the bytes written, in the order
-- of writing; and the positions stay within the buffer.
pub Run-contents :
    {p q : Pipe} {w r : List ℕ}
    → Run p q w r
    → Bounded p
    → (contents p ++ w ≡ r ++ contents q) × Bounded q
Run-contents {p = p} idle b = (append_nil (contents p), b)
Run-contents {p = p} (reads {q = q} {w = w} {r = r} run signalled len) b =
    let (e, bq) = Run-contents run b in
    (
      e
          ∙ ap (λ xs. r ++ xs) (sym (contents-pipe_read q signalled len))
          ∙ sym (
              append_assoc r (bytes_of (pipe_read q signalled len))
                (contents (after_read (pipe_read q signalled len)))),
      read-Bounded q signalled len bq,
    )
Run-contents {p = p} (writes {q = q} {w = w} {r = r} run me signalled written bytes) b =
    let (e, bq) = Run-contents run b in
    let added = take (amount (pipe_write q me signalled written bytes) - written) bytes in
    (
      sym (append_assoc (contents p) w added)
          ∙ ap (λ xs. xs ++ added) e
          ∙ append_assoc r (contents q) added
          ∙ ap (λ xs. r ++ xs) (sym (contents-pipe_write q me signalled written bytes bq.1)),
      write-Bounded q me signalled written bytes bq,
    )
Run-contents (closes {q = q} {r = r} run writing) b =
    let (e, bq) = Run-contents run b in
    let (bounded, same) = release_same q writing bq in (e ∙ ap (λ xs. r ++ xs) (sym same), bounded)

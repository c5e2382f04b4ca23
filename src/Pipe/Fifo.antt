-- ===== src/Pipe/Fifo.antt =====
-- The pipe as a queue of bytes.
use c_loyha.Base.{ℕ, suc, ◌+◌, ◌-◌, ◌%◌, ◌<◌, ◌≤◌, ◌≡◌, ◌≢◌, ◌∙◌, refl, sym, ap, ap₂, arith, min}
use c_loyha.Base.{Bool, List, [], ◌∷◌, ◌++◌, length}
use c_loyha.Base.Slice.{slice, slice_same, slice-add}
use c_loyha.Abi.{done, fail}
use c_loyha.Console.{write_byte}
use c_loyha.Pipe.{
  Pipe, pipe_size, around, PipeRead, read_returns, read_sleeps, take_bytes, pipe_read,
}
use c_loyha.Pipe.{PipeWrite, write_returns, write_sleeps, put_bytes, put}

-- The bytes in the pipe, the oldest first.
unfoldable pub contents : Pipe → List ℕ
contents p = slice (around p.buf) p.head p.count

abbrev pub Bounded : Pipe → Type 0
Bounded p = (p.head < pipe_size) × (p.count ≤ pipe_size)

slice-write_byte :
    (buf : ℕ → ℕ) (head n tail b : ℕ)
    → n < pipe_size
    → tail % pipe_size ≡ (head + n) % pipe_size
    → slice (around (write_byte buf (tail % pipe_size) b)) head (n + 1)
      ≡ slice (around buf) head n ++ (b ∷ [])
unfolding slice
slice-write_byte buf head n tail b lt at_tail =
    slice-add (around (write_byte buf (tail % pipe_size) b)) head n 1
    ∙ ap₂ ◌++◌
        (slice_same (around (write_byte buf (tail % pipe_size) b)) (around buf) head head n
          (λ i below. other i below))
        last
  where
    other :
        (i : ℕ)
        → i < n
        → around (write_byte buf (tail % pipe_size) b) (head + i) ≡ around buf (head + i)
    other i below =
        let ne : (head + i) % pipe_size ≢ tail % pipe_size = omega arith in ground (arith, ne)

    last : slice (around (write_byte buf (tail % pipe_size) b)) (head + n) 1 ≡ b ∷ []
    last = ground (arith, at_tail)

pub append_assoc : (xs ys zs : List ℕ) → (xs ++ ys) ++ zs ≡ xs ++ (ys ++ zs)
append_assoc [] ys zs = refl
append_assoc (x ∷ xs) ys zs = ap (λ ws. x ∷ ws) (append_assoc xs ys zs)

pub append_nil : (xs : List ℕ) → xs ++ [] ≡ xs
append_nil [] = refl
append_nil (x ∷ xs) = ap (λ ws. x ∷ ws) (append_nil xs)

slice-put_bytes :
    (bs : List ℕ) (buf : ℕ → ℕ) (head n tail : ℕ)
    → n + length bs ≤ pipe_size
    → tail % pipe_size ≡ (head + n) % pipe_size
    → slice (around (put_bytes buf tail bs)) head (n + length bs) ≡ slice (around buf) head n ++ bs
unfolding put_bytes
slice-put_bytes [] buf head n tail le at_tail =
    let e : n + 0 ≡ n = omega arith in rw e (sym (append_nil (slice (around buf) head n)))
slice-put_bytes (b ∷ bs) buf head n tail le at_tail =
    let e : n + suc (length bs) ≡ n + 1 + length bs = omega arith in
    rw e (
      slice-put_bytes bs (write_byte buf (tail % pipe_size) b) head (n + 1) (tail + 1) (omega arith)
        (omega (arith, at_tail))
      ∙ ap (λ xs. xs ++ bs) (slice-write_byte buf head n tail b (omega arith) at_tail)
      ∙ append_assoc (slice (around buf) head n) (b ∷ []) bs)

pub contents-put :
    (p : Pipe) (bs : List ℕ)
    → p.count + length bs ≤ pipe_size
    → contents (put p bs) ≡ contents p ++ bs
unfolding contents put
contents-put p bs le =
    slice-put_bytes bs p.buf p.head p.count ((p.head + p.count) % pipe_size) le (omega arith)

after_take :
    (p : Pipe) (n : ℕ)
    → n ≤ p.count
    → slice (around p.buf) p.head n ++ slice (around p.buf) ((p.head + n) % pipe_size) (p.count - n)
      ≡ contents p
unfolding contents
after_take p n le =
    let e : p.count ≡ n + (p.count - n) = omega arith in
    ap (λ xs. slice (around p.buf) p.head n ++ xs)
      (slice_same (around p.buf) (around p.buf) ((p.head + n) % pipe_size) (p.head + n)
        (p.count - n) (λ i lt. ap p.buf (omega arith)))
    ∙ sym (slice-add (around p.buf) p.head n (p.count - n))
    ∙ ap (slice (around p.buf) p.head) (sym e)

abbrev pub bytes_of : PipeRead → List ℕ
bytes_of (read_returns r bytes p) = bytes
bytes_of (read_sleeps p) = []

abbrev pub after_read : PipeRead → Pipe
after_read (read_returns r bytes p) = p
after_read (read_sleeps p) = p

abbrev pub after_write : PipeWrite → Pipe
after_write (write_returns r p me) = p
after_write (write_sleeps written p me) = p

-- How much of the bytes the writer is told to have written so far.
abbrev pub amount : PipeWrite → ℕ
amount (write_returns (done n) p me) = n
amount (write_returns (fail e) p me) = 0
amount (write_sleeps written p me) = written

after_take_bytes :
    (p : Pipe) (n : ℕ)
    → n ≤ p.count
    → bytes_of (take_bytes p n) ++ contents (after_read (take_bytes p n)) ≡ contents p
unfolding take_bytes contents
after_take_bytes p n le = after_take p n le

-- Reading takes from the front: the bytes that are read, followed by what is left, are what was in the
-- pipe, on every outcome.
pub contents-pipe_read :
    (p : Pipe) (signalled : Bool) (len : ℕ)
    → bytes_of (pipe_read p signalled len) ++ contents (after_read (pipe_read p signalled len))
      ≡ contents p
unfolding pipe_read
contents-pipe_read p signalled len =
    ground (arith, after_take_bytes p (min len p.count) (omega arith))

-- ===== src/Tty/Read/Delivery.antt =====
-- What a read of the terminal gives the program, and what it leaves.
use c_loyha.Base.{
  ℕ, zero, suc, ◌+◌, ◌-◌, ◌%◌, ◌<◌, ◌≤◌, ◌≡◌, ◌≢◌, refl, sym, ap, arith, Bool, false,
}
use c_loyha.Base.{not, ◌||◌, ◌==◌, min, List, [], ◌∷◌, ◌++◌, length}
use c_loyha.Base.{Bool-cases, inl, inr}
use c_loyha.Base.Slice.{slice, length-slice, slice_same, slice-add}
use c_loyha.Abi.{done, fail, eintr}
use c_loyha.Console.{Console, console_getc, console_input_available}
use c_loyha.Console.{waiting_count, InRing, input_buffer_size}
use c_loyha.Tty.{Tty, echo, canon_input}
use c_loyha.Tty.Line.{WellFormed, canon_input-WellFormed}
use c_loyha.Tty.Read.{
  Collected, collected, cut, asleep, collect, move_down, advance, take_line, raw_more, ReadResult,
  returns, waits,
}
use c_loyha.Tty.Read.{read_raw, read_canonical, tty_read}

abbrev pub tty_of : ReadResult → Tty
tty_of (returns r bytes t k) = t
tty_of (waits t k) = t

abbrev tty_of_collected : Collected → Tty
tty_of_collected (collected t k) = t
tty_of_collected (cut t k) = t
tty_of_collected (asleep t k) = t

collect-WellFormed :
    (fuel : ℕ) (t : Tty) (k : Console) (signalled : Bool)
    → WellFormed t
    → WellFormed (tty_of_collected (collect fuel t k signalled))
unfolding collect console_getc
collect-WellFormed zero t k signalled w = w
collect-WellFormed (suc fuel) t k signalled w = ground (
  arith,
  collect-WellFormed fuel (canon_input t (k.input_buffer k.input_tail))
      (record k { input_tail = (k.input_tail + 1) % input_buffer_size }) signalled
      (canon_input-WellFormed t (k.input_buffer k.input_tail) w).0,
)

take_line-WellFormed : (t : Tty) (len : ℕ) → WellFormed t → WellFormed (take_line t len).1
unfolding take_line advance
take_line-WellFormed t len w = ground arith

echo-WellFormed : (t : Tty) (s : List ℕ) → WellFormed t → WellFormed (echo t s)
unfolding echo
echo-WellFormed t s w = ground arith

read_canonical-WellFormed :
    (t : Tty) (k : Console) (signalled : Bool) (len : ℕ)
    → WellFormed t
    → WellFormed (tty_of (read_canonical t k signalled len))
unfolding read_canonical
read_canonical-WellFormed t k signalled len w =
    from (collect (waiting_count k + 1) t k signalled)
      (collect-WellFormed (waiting_count k + 1) t k signalled w)
  where
    from :
        (c : Collected)
        → WellFormed (tty_of_collected c)
        → WellFormed (
            tty_of (elim c [
              | collected t' k' ↦
                  let (bytes, after) = take_line t' len in
                  returns (done (length bytes)) bytes after k'
              | cut t' k' ↦ returns (fail eintr) [] t' k'
              | asleep t' k' ↦ waits t' k'
            ]))
    from (collected t' k') w = take_line-WellFormed t' len w
    from (cut t' k') w = w
    from (asleep t' k') w = w

read_raw-WellFormed :
    (t : Tty) (k : Console) (signalled : Bool) (len : ℕ)
    → WellFormed t
    → WellFormed (tty_of (read_raw t k signalled len))
unfolding read_raw console_getc
read_raw-WellFormed t k signalled len w = ground (
  arith,
  echo-WellFormed t
      (k.input_buffer k.input_tail
        ∷ (raw_more (len - 1) (record k { input_tail = (k.input_tail + 1) % input_buffer_size })
            signalled).0)
      w,
)

-- Reading the terminal, in either mode and with every outcome, keeps the bounds of the line buffer.
pub tty_read-WellFormed :
    (t : Tty) (k : Console) (signalled : Bool) (len : ℕ)
    → WellFormed t
    → WellFormed (tty_of (tty_read t k signalled len))
unfolding tty_read
tty_read-WellFormed t k signalled len w =
    ground (
      arith,
      read_canonical-WellFormed t k signalled len w,
      read_raw-WellFormed t k signalled len w,
    )

-- Everything in the line buffer that no program has got yet.
abbrev pub unread : Tty → List ℕ
unread t = slice t.line t.rpos (t.len - t.rpos)

moved :
    (t : Tty)
    → slice (move_down t.line t.ready (t.len - t.ready)) 0 (t.len - t.ready - 0)
      ≡ slice t.line t.ready (t.len - t.ready)
moved t =
    let e : t.len - t.ready - 0 ≡ t.len - t.ready = omega arith in
    rw e (
      slice_same (move_down t.line t.ready (t.len - t.ready)) t.line 0 t.ready (t.len - t.ready)
        (λ i lt. ground arith))

unread-advance :
    (t : Tty) (n : ℕ) → unread (advance t n) ≡ slice t.line (t.rpos + n) (t.len - (t.rpos + n))
unfolding advance
unread-advance t n = elim (Bool-cases (t.rpos + n == t.ready)) [
  | inl all ↦ let e : t.rpos + n ≡ t.ready = ground arith in rw (all, e) (moved t)
  | inr some_left ↦ rw some_left refl
]

unread-take :
    (t : Tty) (n : ℕ)
    → t.rpos + n ≤ t.len
    → slice t.line t.rpos n ++ unread (advance t n) ≡ unread t
unread-take t n le =
    let e : t.len - t.rpos ≡ n + (t.len - (t.rpos + n)) = omega arith in
    rw (unread-advance t n, e) (sym (slice-add t.line t.rpos n (t.len - (t.rpos + n))))

ready-advance :
    (t : Tty) (len : ℕ)
    → t.rpos ≤ t.ready
    → (advance t (min len (t.ready - t.rpos))).ready - (advance t (min len (t.ready - t.rpos))).rpos
      ≡ t.ready - t.rpos - len
unfolding advance
ready-advance t len le = ground arith

nothing_waits : (t : Tty) (len : ℕ) → t.rpos ≡ t.ready → 0 ≡ min len (t.ready - t.rpos)
nothing_waits t len e = omega arith

-- What a program gets of a line. Where bytes wait, it gets the next of them, as many as it asks for
-- or as there are; where none wait it gets nothing, and the end of file is used up; and the bytes it
-- gets, followed by those that are left, are those that were there.
pub take_line_lem :
    (t : Tty) (len : ℕ)
    → WellFormed t
    → (length (take_line t len).0 ≡ min len (t.ready - t.rpos))
      × ((take_line t len).0 ++ unread (take_line t len).1 ≡ unread t)
      × ((take_line t len).1.ready - (take_line t len).1.rpos ≡ t.ready - t.rpos - len)
unfolding take_line
take_line_lem t len w = elim (Bool-cases (t.rpos == t.ready)) [
  | inl nothing ↦ rw nothing (nothing_waits t len (ground arith), refl, ground arith)
  | inr waiting ↦
      let n = min len (t.ready - t.rpos) in
      rw waiting (
        length-slice t.line t.rpos n,
        unread-take t n (omega (arith, w.read_bound, w.ready_bound)),
        ready-advance t len w.read_bound,
      )
]

collect_asleep :
    (fuel : ℕ) (t : Tty) (k : Console) (signalled : Bool) (t' : Tty) (k' : Console)
    → InRing k
    → waiting_count k < fuel
    → collect fuel t k signalled ≡ asleep t' k'
    → (k'.input_tail ≡ k'.input_head)
      × (signalled ≡ false)
      × (t'.rpos ≡ t'.ready)
      × (t'.eof ≡ false)
unfolding collect console_getc waiting_count
collect_asleep zero t k signalled t' k' ring lt e = absurd (omega arith)
collect_asleep (suc fuel) t k signalled t' k' ring lt e =
    elim (Bool-cases (not (t.rpos == t.ready) || t.eof)) [
      | inl some_ready ↦ ground arith
      | inr nothing ↦ elim (Bool-cases (k.input_tail == k.input_head)) [
        | inl empty ↦ ground arith
        | inr more ↦
            collect_asleep fuel (canon_input t (k.input_buffer k.input_tail))
              (record k { input_tail = (k.input_tail + 1) % input_buffer_size }) signalled t' k'
              (ground arith) (ground arith) (rw (nothing, more) at e)
      ]
    ]

-- A reader of the canonical mode sleeps only with the queue empty, no signal to deliver, no byte
-- waiting and no end of file pending: the fuel of the loop is never what stops it.
pub read_canonical-waits :
    (t : Tty) (k : Console) (signalled : Bool) (len : ℕ) (t' : Tty) (k' : Console)
    → InRing k
    → read_canonical t k signalled len ≡ waits t' k'
    → (k'.input_tail ≡ k'.input_head)
      × (signalled ≡ false)
      × (t'.rpos ≡ t'.ready)
      × (t'.eof ≡ false)
unfolding read_canonical
read_canonical-waits t k signalled len t' k' ring e =
    ground (arith, collect_asleep (waiting_count k + 1) t k signalled t' k' ring (omega arith))

-- The characters in the queue.
abbrev pub queued : Console → ℕ → List ℕ
queued k zero = []
queued k (suc n) =
    k.input_buffer k.input_tail
    ∷ queued (record k { input_tail = (k.input_tail + 1) % input_buffer_size }) n

next_count :
    (k : Console)
    → InRing k
    → k.input_tail ≢ k.input_head
    → waiting_count k
      ≡ suc (waiting_count (record k { input_tail = (k.input_tail + 1) % input_buffer_size }))
unfolding waiting_count
next_count k ring ne = omega arith

-- After its first character a raw read takes the characters that are queued, up to the room that is
-- left, in order, and leaves the others.
pub raw_more_lem :
    (room : ℕ) (k : Console) (signalled : Bool)
    → InRing k
    → ((raw_more room k signalled).0 ≡ queued k (min room (waiting_count k)))
      × (waiting_count (raw_more room k signalled).1 ≡ waiting_count k - room)
unfolding raw_more console_getc console_input_available waiting_count
raw_more_lem zero k signalled ring = ground arith
raw_more_lem (suc room) k signalled ring = elim (Bool-cases (k.input_tail == k.input_head)) [
  | inl empty ↦
      let none_left : waiting_count k ≡ 0 = ground arith in
      let nothing : min (suc room) (waiting_count k) ≡ 0 = omega (arith, none_left) in
      rw (nothing, empty) (refl, omega (arith, none_left))
  | inr more ↦
      let k' = record k { input_tail = (k.input_tail + 1) % input_buffer_size } in
      let one : waiting_count k ≡ suc (waiting_count k') = next_count k ring (ground arith) in
      let head : min (suc room) (waiting_count k) ≡ suc (min room (waiting_count k')) =
        omega (arith, one) in
      let (a, b) = raw_more_lem room k' signalled (ground arith) in
      rw (head, more) (ap (λ cs. k.input_buffer k.input_tail ∷ cs) a, omega (arith, b, one))
]

-- ===== src/Files/PipeEnds.antt =====
-- The two descriptors of a pipe.
use c_loyha.Base.{ℕ, ◌<◌, ◌≡◌, inl, inr, sym, ap, ◌∙◌, arith, Option-cases}
use c_loyha.Base.{Option, none, some, get_elem?, set, length, length-set, get_elem?-set_self}
use c_loyha.Files.{
  Table, Files, table_of, entry, put_entry, file_close, free_fd, fd_install, pipe_fds,
}
use c_loyha.Files.Counts.{table_of_row, length-get}
use c_loyha.Files.Valid.{Valid, nothing_held, and_entry, Valid-ext, none_counts, and_no_entry}
use c_loyha.Files.Valid.{free_fd_lem, file_close-Valid, put_entry-Valid}

pub plus_none_held : (st : Files) (held : ℕ → ℕ) → Valid st held → Valid st (and_entry held none)
plus_none_held st held valid =
    Valid-ext st held (and_entry held none) (λ g. omega (arith, none_counts g)) valid

pub row-put_entry :
    (st : Files) (cur fd : ℕ) (e : Option ℕ) (t : Table)
    → get_elem? st.tables cur ≡ some t
    → get_elem? (Files.tables (put_entry st cur fd e)) cur ≡ some (set t fd e)
row-put_entry st cur fd e t row =
    get_elem?-set_self st.tables cur (set (table_of st cur) fd e) (length-get st.tables cur t row)
    ∙ ap (λ (u : Table). some (set u fd e)) (table_of_row st cur t row)

entry-set : (t : Table) (fd : ℕ) (e : Option ℕ) → fd < length t → entry (set t fd e) fd ≡ e
entry-set t fd e lt =
    ap (λ (o : Option (Option ℕ)). elim o [ none ↦ none | some x ↦ x ])
      (get_elem?-set_self t fd e lt)

-- Two references that are held are let go.
close_both :
    (st : Files) (r w : ℕ)
    → Valid st (and_entry (and_entry nothing_held (some w)) (some r))
    → Valid (file_close (file_close st r) w) nothing_held
close_both st r w valid =
    file_close-Valid (file_close st r) w nothing_held
      (file_close-Valid st r (and_entry nothing_held (some w)) valid)

pub pipe_fds-Valid :
    (st : Files) (cur r w : ℕ) (t : Table)
    → get_elem? st.tables cur ≡ some t
    → Valid st (and_entry (and_entry nothing_held (some w)) (some r))
    → Valid (pipe_fds st cur r w).1 nothing_held
unfolding pipe_fds fd_install
pipe_fds-Valid st cur r w t row valid = elim (Option-cases (free_fd (table_of st cur))) [
  | inl full ↦ rw (pipe_fds, fd_install, full) (close_both st r w valid)
  | inr (rfd, at) ↦
      let held = and_entry nothing_held (some w) in
      let st' = put_entry st cur rfd (some r) in
      let t' : Table = set t rfd (some r) in
      let (lt, empty) = free_fd_lem t rfd (ap free_fd (sym (table_of_row st cur t row)) ∙ at) in
      let row' = row-put_entry st cur rfd (some r) t row in
      let one_in : Valid st' held =
        Valid-ext st' (and_entry held (entry t rfd)) held
          (λ g. omega (arith, and_no_entry (entry t rfd) g empty))
          (put_entry-Valid st cur rfd (some r) t held row lt valid) in
      elim (Option-cases (free_fd (table_of st' cur))) [
        | inl full ↦
            let room : rfd < length t' = omega (arith, length-set t rfd (some r)) in
            let out =
              put_entry-Valid st' cur rfd none t' held row' room (plus_none_held st' held one_in) in
            rw (pipe_fds, fd_install, at, full)
              (close_both (put_entry st' cur rfd none) r w (
                Valid-ext (put_entry st' cur rfd none) (and_entry held (entry t' rfd))
                  (and_entry held (some r))
                  (λ g. ap (λ (e : Option ℕ). and_entry held e g) (entry-set t rfd (some r) lt))
                  out))
        | inr (wfd, at') ↦
            let (lt', empty') =
              free_fd_lem t' wfd (ap free_fd (sym (table_of_row st' cur t' row')) ∙ at') in
            rw (pipe_fds, fd_install, at, at')
              (Valid-ext (put_entry st' cur wfd (some w)) (and_entry nothing_held (entry t' wfd))
                nothing_held (λ g. and_no_entry (entry t' wfd) g empty')
                (put_entry-Valid st' cur wfd (some w) t' nothing_held row' lt' one_in))
      ]
]

-- ===== src/Files/Opened.antt =====
-- Any sequence of calls on descriptors.
use c_loyha.Base.{◌≢◌, ℕ, ◌<◌, ◌≡◌, inl, inr, refl, sym, ap, ◌∙◌, arith}
use c_loyha.Base.{◌==◌, leb, Bool-cases, Option-cases, eq_of_some}
use c_loyha.Base.{Option, none, some, List, get_elem?, length}
use c_loyha.Abi.{ℤ, pos, negsuc}
use c_loyha.Files.{max_fds, Table, Files, table_of, entry, put_entry, file_alloc, file_dup}
use c_loyha.Files.{fd_get, open_fd, sys_close, sys_dup, sys_dup2}
use c_loyha.Files.{close_old}
use c_loyha.Files.Counts.{is_file, Balanced, FullTables, table_of_row}
use c_loyha.Files.Counts.{refs-file_alloc, get_some, total_positive, entry-length}
use c_loyha.Files.PipeEnds.{pipe_fds-Valid}
use c_loyha.Files.Fork.{fork_files-Valid}
use c_loyha.Files.{fork_files}
use c_loyha.Files.Exit.{proc_close_all_files-Valid}
use c_loyha.Files.{proc_close_all_files}
use c_loyha.Files.{pipe_fds}
use c_loyha.Files.Valid.{Valid, nothing_held, and_entry, tables-file_dup, total_eq, Valid-ext}
use c_loyha.Files.Valid.{file_dup-Valid, file_close-Valid, put_entry-Valid, open_fd-Valid}

plus_none : (st : Files) → Valid st nothing_held → Valid st (and_entry nothing_held none)
unfolding is_file
plus_none st valid = valid

-- A descriptor of the table refers to a file that is open.
fd_get_lem :
    (st : Files) (cur : ℕ) (fd : ℤ) (n f : ℕ) (t : Table)
    → get_elem? st.tables cur ≡ some t
    → fd_get st cur fd ≡ some (n, f)
    → (n < length t) × (entry t n ≡ some f)
unfolding fd_get
fd_get_lem st cur (negsuc m) n f t row found = absurd cc
fd_get_lem st cur (pos m) n f t row found = elim (Bool-cases (leb max_fds m)) [
  | inl large ↦ let nothing : none ≡ some (n, f) = rw (fd_get, large) at found in absurd cc
  | inr small ↦ elim (Option-cases (entry (table_of st cur) m)) [
    | inl empty ↦ let nothing : none ≡ some (n, f) = rw (fd_get, small, empty) at found in absurd cc
    | inr (g, at) ↦
        let pair : some (m, g) ≡ some (n, f) = rw (fd_get, small, at) at found in
        let number : m ≡ n = ap (λ (x : ℕ × ℕ). x.0) (eq_of_some pair) in
        let file : g ≡ f = ap (λ (x : ℕ × ℕ). x.1) (eq_of_some pair) in
        let here : entry t n ≡ some f =
          ap (entry t) (sym number)
          ∙ ap (λ (u : Table). entry u m) (sym (table_of_row st cur t row))
          ∙ at
          ∙ ap some file in
        (entry-length t n f here, here)
  ]
]

pub sys_close-Valid :
    (st : Files) (cur : ℕ) (fd : ℤ) (t : Table)
    → get_elem? st.tables cur ≡ some t
    → Valid st nothing_held
    → Valid (sys_close st cur fd).1 nothing_held
unfolding sys_close
sys_close-Valid st cur fd t row valid = elim (Option-cases (fd_get st cur fd)) [
  | inl bad ↦ rw (sys_close, bad) valid
  | inr ((n, f), at) ↦
      let (lt, here) = fd_get_lem st cur fd n f t row at in
      let taken = put_entry-Valid st cur n none t nothing_held row lt (plus_none st valid) in
      rw (sys_close, at)
        (file_close-Valid (put_entry st cur n none) f nothing_held (
          Valid-ext (put_entry st cur n none) (and_entry nothing_held (entry t n))
            (and_entry nothing_held (some f))
            (λ g. ap (λ (e : Option ℕ). and_entry nothing_held e g) here) taken))
]

dup_live :
    (st : Files) (cur : ℕ) (fd : ℤ) (n f : ℕ) (t : Table)
    → get_elem? st.tables cur ≡ some t
    → Valid st nothing_held
    → fd_get st cur fd ≡ some (n, f)
    → Valid (file_dup st f) (and_entry nothing_held (some f))
      × (get_elem? (Files.tables (file_dup st f)) cur ≡ some t)
unfolding Valid Balanced
dup_live st cur fd n f t row valid at =
    let (_, here) = fd_get_lem st cur fd n f t row at in
    let (balanced, _) = valid in
    (
      file_dup-Valid st f nothing_held
          (omega (arith, balanced f, total_positive st cur n f t row here)) valid,
      ap (λ (ts : List Table). get_elem? ts cur) (tables-file_dup st f) ∙ row,
    )

pub sys_dup-Valid :
    (st : Files) (cur : ℕ) (fd : ℤ) (t : Table)
    → get_elem? st.tables cur ≡ some t
    → Valid st nothing_held
    → Valid (sys_dup st cur fd).1 nothing_held
unfolding sys_dup
sys_dup-Valid st cur fd t row valid = elim (Option-cases (fd_get st cur fd)) [
  | inl bad ↦ rw (sys_dup, bad) valid
  | inr ((n, f), at) ↦
      let (dupped, row') = dup_live st cur fd n f t row valid at in
      rw (sys_dup, at) (open_fd-Valid (file_dup st f) cur f t row' dupped)
]

close_old-Valid :
    (st : Files) (old : Option ℕ)
    → Valid st (and_entry nothing_held old)
    → Valid (close_old st old) nothing_held
unfolding close_old is_file
close_old-Valid st none valid = valid
close_old-Valid st (some f) valid = file_close-Valid st f nothing_held valid

full_length :
    (st : Files) (cur : ℕ) (t : Table)
    → get_elem? st.tables cur ≡ some t
    → Valid st nothing_held
    → length t ≡ max_fds
unfolding Valid FullTables
full_length st cur t row (_, full) = full cur t row

pub sys_dup2-Valid :
    (st : Files) (cur : ℕ) (oldfd newfd : ℤ) (t : Table)
    → get_elem? st.tables cur ≡ some t
    → Valid st nothing_held
    → Valid (sys_dup2 st cur oldfd newfd).1 nothing_held
unfolding sys_dup2
sys_dup2-Valid st cur oldfd (negsuc k) t row valid = valid
sys_dup2-Valid st cur oldfd (pos newfd) t row valid = elim (Option-cases (fd_get st cur oldfd)) [
  | inl bad ↦ rw (sys_dup2, bad) valid
  | inr ((n, f), at) ↦ elim (Bool-cases (leb max_fds newfd)) [
    | inl large ↦ rw (sys_dup2, at, large) valid
    | inr small ↦ elim (Bool-cases (n == newfd)) [
      | inl same ↦ rw (sys_dup2, at, small, same) valid
      | inr other ↦
          let (dupped, row') = dup_live st cur oldfd n f t row valid at in
          let lt : newfd < length t = ground (arith, full_length st cur t row valid) in
          let placed =
            put_entry-Valid (file_dup st f) cur newfd (some f) t nothing_held row' lt dupped in
          rw (sys_dup2, at, small, other, table_of_row st cur t row)
            (close_old-Valid (put_entry (file_dup st f) cur newfd (some f)) (entry t newfd) placed)
    ]
  ]
]

-- A call of a process, with what `vfs_open` and `pipe_create` made: new files with one reference.
pub data Step : Files → Files → Type 0 where
  open_call :
      {st : Files} (cur f inode flags : ℕ)
      → cur < length st.tables
      → st.store f ≡ none
      → Step st (open_fd (file_alloc st f inode flags) cur f).1
  close_call :
      {st : Files} (cur : ℕ) (fd : ℤ) → cur < length st.tables → Step st (sys_close st cur fd).1
  dup_call :
      {st : Files} (cur : ℕ) (fd : ℤ) → cur < length st.tables → Step st (sys_dup st cur fd).1
  dup2_call :
      {st : Files} (cur : ℕ) (oldfd newfd : ℤ)
      → cur < length st.tables
      → Step st (sys_dup2 st cur oldfd newfd).1
  pipe_call :
      {st : Files} (cur r w inode : ℕ)
      → cur < length st.tables
      → st.store w ≡ none
      → Files.store (file_alloc st w inode 1) r ≡ none
      → Step st (pipe_fds (file_alloc (file_alloc st w inode 1) r inode 0) cur r w).1
  exit_call :
      {st : Files} (cur : ℕ) → cur < length st.tables → Step st (proc_close_all_files st cur)
  fork_call :
      {st : Files} (parent child : ℕ)
      → parent < length st.tables
      → child < length st.tables
      → parent ≢ child
      → ((k : ℕ) → entry (table_of st child) k ≡ none)
      → Step st (fork_files st parent child)

pub data Reach : Files → Files → Type 0 where
  start : {st : Files} → Reach st st
  next : {a b c : Files} → Step a b → Reach b c → Reach a c

file_alloc-Valid :
    (st : Files) (f inode flags : ℕ) (held : ℕ → ℕ)
    → st.store f ≡ none
    → Valid st held
    → Valid (file_alloc st f inode flags) (and_entry held (some f))
unfolding Valid Balanced file_alloc FullTables
file_alloc-Valid st f inode flags held fresh (balanced, full) = (
  λ g. omega (
    arith,
    refs-file_alloc st f inode flags g fresh,
    total_eq st (file_alloc st f inode flags) g refl,
    balanced g,
  ),
  full,
)

Step-Valid : {st st' : Files} → Step st st' → Valid st nothing_held → Valid st' nothing_held
unfolding file_alloc
Step-Valid {st = st} (open_call cur f inode flags lt fresh) valid =
    let (t, row) = get_some st.tables cur lt in
    open_fd-Valid (file_alloc st f inode flags) cur f t row
      (file_alloc-Valid st f inode flags nothing_held fresh valid)
Step-Valid {st = st} (close_call cur fd lt) valid =
    let (t, row) = get_some st.tables cur lt in sys_close-Valid st cur fd t row valid
Step-Valid {st = st} (dup_call cur fd lt) valid =
    let (t, row) = get_some st.tables cur lt in sys_dup-Valid st cur fd t row valid
Step-Valid {st = st} (dup2_call cur oldfd newfd lt) valid =
    let (t, row) = get_some st.tables cur lt in sys_dup2-Valid st cur oldfd newfd t row valid
Step-Valid {st = st} (pipe_call cur r w inode lt fresh_w fresh_r) valid =
    let (t, row) = get_some st.tables cur lt in
    let first = file_alloc-Valid st w inode 1 nothing_held fresh_w valid in
    pipe_fds-Valid (file_alloc (file_alloc st w inode 1) r inode 0) cur r w t row (
      file_alloc-Valid (file_alloc st w inode 1) r inode 0 (and_entry nothing_held (some w)) fresh_r
        first)
Step-Valid {st = st} (exit_call cur lt) valid =
    let (t, row) = get_some st.tables cur lt in proc_close_all_files-Valid st cur t row valid
Step-Valid {st = st} (fork_call parent child lt lt' apart empty) valid =
    let (t, row) = get_some st.tables parent lt in
    let (u, child_row) = get_some st.tables child lt' in
    fork_files-Valid st parent child t u apart row child_row
      (λ k. ap (λ (x : Table). entry x k) (sym (table_of_row st child u child_row)) ∙ empty k) valid

-- Calls on descriptors, from a state where each open file has as many references as descriptors of all
-- processes refer to it and every table is whole, reach only such states. A file that is released
-- counts as having no reference.
pub Reach-Valid : {st st' : Files} → Reach st st' → Valid st nothing_held → Valid st' nothing_held
Reach-Valid start valid = valid
Reach-Valid (next step run) valid = Reach-Valid run (Step-Valid step valid)

-- ===== src/Files.antt =====
-- kernel/sys/sys_fs.c and the reference counts of kernel/fs/vfs.c: the tables of descriptors and the
-- open files that they share. A pointer to an open file is its number in the store.
pub mod Counts
pub mod Valid
pub mod PipeEnds
pub mod Exit
pub mod Fork
pub mod Opened
use c_loyha.Base.{ℕ, zero, suc, ◌+◌, ◌-◌, Bool, true, false, not, ◌||◌, ◌==◌, leb, if◌then◌else◌}
use c_loyha.Base.{Option, none, some, List, [], ◌∷◌, ◌++◌, get_elem?, set}
use c_loyha.Abi.{Ret, done, fail, ebadf, emfile, efault, ℤ, pos, negsuc}

-- `MAX_FDS`
abbrev pub max_fds : ℕ
max_fds = 64

-- The fields of `struct file` that the calls here touch.
pub record File : Type 0 where
  pub inode : ℕ
  pub flags : ℕ
  pub refcount : ℕ

-- `files` of a process: `none` is NULL.
abbrev pub Table : Type 0
Table = List (Option ℕ)

-- The tables of all slots, the open files, and the files whose last reference is gone, in order: what
-- `release` and `iput` were called for.
pub record Files : Type 0 where
  pub tables : List Table
  pub store : ℕ → Option File
  pub released : List ℕ

abbrev pub table_of : Files → ℕ → Table
table_of st cur = elim (get_elem? st.tables cur) [ none ↦ [] | some t ↦ t ]

abbrev pub entry : Table → ℕ → Option ℕ
entry t fd = elim (get_elem? t fd) [ none ↦ none | some e ↦ e ]

-- `current->files[fd] = e`
abbrev pub put_entry : Files → ℕ → ℕ → Option ℕ → Files
put_entry st cur fd e = record st { tables = set st.tables cur (set (table_of st cur) fd e) }

abbrev pub put_file : Files → ℕ → Option File → Files
put_file st f o = record st { store = λ g. if g == f then o else st.store g }

-- A new file with one reference. The caller's allocator names a free place.
unfoldable pub file_alloc : Files → ℕ → ℕ → ℕ → Files
file_alloc st f inode flags =
    put_file st f (some (record { inode = inode; flags = flags; refcount = 1 }))

unfoldable pub file_dup : Files → ℕ → Files
file_dup st f = elim (st.store f) [
  | none ↦ st
  | some o ↦ put_file st f (some (record o { refcount = o.refcount + 1 }))
]

unfoldable pub file_close : Files → ℕ → Files
file_close st f = elim (st.store f) [
  | none ↦ st
  | some o ↦
      if leb 2 o.refcount
      then put_file st f (some (record o { refcount = o.refcount - 1 }))
      else record (put_file st f none) { released = st.released ++ (f ∷ []) }
]

-- The first free descriptor, and the table with the file in its place.
unfoldable pub free_fd : Table → Option ℕ
free_fd [] = none
free_fd (none ∷ t) = some 0
free_fd (some e ∷ t) = elim (free_fd t) [ none ↦ none | some fd ↦ some (suc fd) ]

-- `none` is -EMFILE.
unfoldable pub fd_install : Files → ℕ → ℕ → Option (ℕ × Files)
fd_install st cur f = elim (free_fd (table_of st cur)) [
  | none ↦ none
  | some fd ↦ some (fd, put_entry st cur fd (some f))
]

unfoldable pub fd_get : Files → ℕ → ℤ → Option (ℕ × ℕ)
fd_get st cur (negsuc n) = none
fd_get st cur (pos fd) =
    if leb max_fds fd
    then none
    else elim (entry (table_of st cur) fd) [ none ↦ none | some f ↦ some (fd, f) ]

-- The end of `sys_open`, with the file that `vfs_open` returned.
unfoldable pub open_fd : Files → ℕ → ℕ → Ret × Files
open_fd st cur f = elim (fd_install st cur f) [
  | none ↦ (fail emfile, file_close st f)
  | some (fd, st') ↦ (done fd, st')
]

unfoldable pub sys_close : Files → ℕ → ℤ → Ret × Files
sys_close st cur fd = elim (fd_get st cur fd) [
  | none ↦ (fail ebadf, st)
  | some (n, f) ↦ (done 0, file_close (put_entry st cur n none) f)
]

unfoldable pub sys_dup : Files → ℕ → ℤ → Ret × Files
sys_dup st cur oldfd = elim (fd_get st cur oldfd) [
  | none ↦ (fail ebadf, st)
  | some (n, f) ↦ open_fd (file_dup st f) cur f
]

-- `if (old) file_close(old)`
unfoldable pub close_old : Files → Option ℕ → Files
close_old st none = st
close_old st (some old) = file_close st old

unfoldable pub sys_dup2 : Files → ℕ → ℤ → ℤ → Ret × Files
sys_dup2 st cur oldfd (negsuc n) = (fail ebadf, st)
sys_dup2 st cur oldfd (pos newfd) = elim (fd_get st cur oldfd) [
  | none ↦ (fail ebadf, st)
  | some (n, f) ↦
      let old = entry (table_of st cur) newfd in
      let st' = put_entry (file_dup st f) cur newfd (some f) in
      if leb max_fds newfd
      then (fail ebadf, st)
      else if n == newfd
      then (done newfd, st)
      else (done newfd, close_old st' old)
]

-- `sys_pipe` once `pipe_create` has made the two ends.
unfoldable pub pipe_fds : Files → ℕ → ℕ → ℕ → Option (ℕ × ℕ) × Files
pipe_fds st cur r w = elim (fd_install st cur r) [
  | none ↦ (none, file_close (file_close st r) w)
  | some (rfd, st') ↦ elim (fd_install st' cur w) [
    | none ↦ (none, file_close (file_close (put_entry st' cur rfd none) r) w)
    | some (wfd, st'') ↦ (some (rfd, wfd), st'')
  ]
]

-- The loop of `proc_close_all_files`, over the table from a descriptor on.
unfoldable pub close_from : Files → ℕ → ℕ → Table → Files
close_from st cur fd [] = st
close_from st cur fd (none ∷ t) = close_from st cur (fd + 1) t
close_from st cur fd (some f ∷ t) =
    close_from (put_entry (file_close st f) cur fd none) cur (fd + 1) t

unfoldable pub proc_close_all_files : Files → ℕ → Files
proc_close_all_files st cur = close_from st cur 0 (table_of st cur)

-- The loop of `proc_fork` over the descriptors of the parent.
unfoldable pub fork_from : Files → ℕ → ℕ → Table → Files
fork_from st child fd [] = st
fork_from st child fd (none ∷ t) = fork_from (put_entry st child fd none) child (fd + 1) t
fork_from st child fd (some f ∷ t) =
    fork_from (put_entry (file_dup st f) child fd (some f)) child (fd + 1) t

unfoldable pub fork_files : Files → ℕ → ℕ → Files
fork_files st parent child = fork_from st child 0 (table_of st parent)

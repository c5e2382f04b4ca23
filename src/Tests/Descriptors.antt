-- ===== src/Tests/Descriptors.antt =====
-- Two processes without open files; one opens a file, copies its descriptor and closes the first.
use c_loyha.Base.{ℕ, zero, suc, ◌≡◌, refl, sym, ap, arith, none, some, eq_of_some}
use c_loyha.Base.{[], ◌∷◌, length, get_elem?, replicate}
use c_loyha.Base.Lists.{sum_of}
use c_loyha.Abi.{pos}
use c_loyha.Files.{max_fds, Table, Files, open_fd, file_alloc, sys_dup2, sys_close, fd_install}
use c_loyha.Files.{file_dup, fd_get, free_fd, close_old}
use c_loyha.Files.Counts.{Balanced, FullTables, refs, total, is_file}
use c_loyha.Files.Valid.{Valid, nothing_held}
use c_loyha.Files.Opened.{Step, Reach, Reach-Valid}

abbrev no_files : Files
no_files = record {
  tables = replicate max_fds none ∷ replicate max_fds none ∷ [];
  store = λ f. none;
  released = [];
}

no_files-FullTables :
    (c : ℕ) (t : Table) → get_elem? no_files.tables c ≡ some t → length t ≡ max_fds
no_files-FullTables zero t row = ap length (sym (eq_of_some row))
no_files-FullTables (suc zero) t row = ap length (sym (eq_of_some row))
no_files-FullTables (suc (suc c)) t row = absurd cc

no_files-Valid : Valid no_files nothing_held
unfolding Valid Balanced FullTables refs total is_file sum_of
no_files-Valid = (λ g. refl, no_files-FullTables)

abbrev opened : Files
opened = (open_fd (file_alloc no_files 7 1 0) 0 7).1

abbrev copied : Files
copied = (sys_dup2 opened 0 (pos 0) (pos 1)).1

abbrev closed : Files
closed = (sys_close copied 0 (pos 0)).1

calls : Reach no_files closed
unfolding open_fd file_alloc fd_install sys_dup2 file_dup fd_get free_fd close_old
calls = Reach.next {b = opened} (Step.open_call 0 7 1 0 (omega arith) refl) (
    Reach.next {b = copied} (Step.dup2_call 0 (pos 0) (pos 1) (omega arith))
      (Reach.next {b = closed} (Step.close_call 0 (pos 0) (omega arith)) Reach.start))

Reach-Valid_example : Valid closed nothing_held
Reach-Valid_example = Reach-Valid calls no_files-Valid

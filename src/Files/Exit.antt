-- ===== src/Files/Exit.antt =====
-- The descriptors of a process that exits.
use c_loyha.Base.{
  ℕ, zero, suc, ◌+◌, ◌<◌, ◌≡◌, inl, inr, refl, sym, ap, ◌∙◌, subst, arith, Option-cases, Bool-cases,
}
use c_loyha.Base.{Option, none, some, List, [], ◌∷◌, leb, get_elem?, set, drop, length}
use c_loyha.Files.{Table, Files, table_of, entry, put_entry, file_close, close_from}
use c_loyha.Files.{proc_close_all_files}
use c_loyha.Files.Counts.{table_of_row}
use c_loyha.Files.Valid.{Valid, nothing_held, and_entry, Valid-ext, tables-file_close}
use c_loyha.Files.Valid.{file_close-Valid, put_entry-Valid}
use c_loyha.Files.PipeEnds.{row-put_entry, plus_none_held}

-- A table and the counts are written in either order.
close_put_comm :
    (st : Files) (cur fd f : ℕ)
    → put_entry (file_close st f) cur fd none ≡ file_close (put_entry st cur fd none) f
unfolding file_close
close_put_comm st cur fd f = elim (Option-cases (st.store f)) [
  | inl gone ↦ rw (file_close, gone) refl
  | inr (o, at) ↦ elim (Bool-cases (leb 2 o.refcount)) [
    | inl shared ↦ rw (file_close, at, shared) refl
    | inr last ↦ rw (file_close, at, last) refl
  ]
]

head_eq : {x y : Option ℕ} {xs ys : Table} → x ∷ xs ≡ y ∷ ys → x ≡ y
head_eq h = cc

tail_eq : {x y : Option ℕ} {xs ys : Table} → x ∷ xs ≡ y ∷ ys → xs ≡ ys
tail_eq h = cc

pub next_fd : (fd : ℕ) → fd + 1 ≡ suc fd
next_fd fd = omega arith

-- The first of the entries from `fd` on.
pub drop_first :
    (u t : Table) (fd : ℕ) (e : Option ℕ)
    → drop fd u ≡ e ∷ t
    → (entry u fd ≡ e) × (fd < length u) × (drop (suc fd) u ≡ t)
drop_first [] t zero e h = absurd cc
drop_first [] t (suc fd) e h = absurd cc
drop_first (x ∷ u) t zero e h = (head_eq h, omega arith, tail_eq h)
drop_first (x ∷ u) t (suc fd) e h =
    let (here, lt, rest) = drop_first u t fd e h in (here, omega arith, rest)

drop-set_before : (u : Table) (fd : ℕ) (e : Option ℕ) → drop (suc fd) (set u fd e) ≡ drop (suc fd) u
drop-set_before [] fd e = refl
drop-set_before (x ∷ u) zero e = refl
drop-set_before (x ∷ u) (suc fd) e = drop-set_before u fd e

close_from-Valid :
    (st : Files) (cur fd : ℕ) (t u : Table)
    → get_elem? st.tables cur ≡ some u
    → drop fd u ≡ t
    → Valid st nothing_held
    → Valid (close_from st cur fd t) nothing_held
unfolding close_from
close_from-Valid st cur fd [] u row rest valid = valid
close_from-Valid st cur fd (none ∷ t) u row rest valid =
    let (_, _, behind) = drop_first u t fd none rest in
    close_from-Valid st cur (fd + 1) t u row (ap (λ (k : ℕ). drop k u) (next_fd fd) ∙ behind) valid
close_from-Valid st cur fd (some f ∷ t) u row rest valid =
    let (here, lt, behind) = drop_first u t fd (some f) rest in
    let out =
      put_entry-Valid st cur fd none u nothing_held row lt (plus_none_held st nothing_held valid) in
    let closed : Valid (put_entry (file_close st f) cur fd none) nothing_held =
      subst (λ (x : Files). Valid x nothing_held) (sym (close_put_comm st cur fd f))
        (file_close-Valid (put_entry st cur fd none) f nothing_held (
          Valid-ext (put_entry st cur fd none) (and_entry nothing_held (entry u fd))
            (and_entry nothing_held (some f))
            (λ g. ap (λ (e : Option ℕ). and_entry nothing_held e g) here) out)) in
    close_from-Valid (put_entry (file_close st f) cur fd none) cur (fd + 1) t (set u fd none)
      (row-put_entry (file_close st f) cur fd none u
        (ap (λ (ts : List Table). get_elem? ts cur) (tables-file_close st f) ∙ row))
      (ap (λ (k : ℕ). drop k (set u fd none)) (next_fd fd) ∙ drop-set_before u fd none ∙ behind)
      closed

-- `proc_close_all_files` keeps the counts in agreement with the tables.
pub proc_close_all_files-Valid :
    (st : Files) (cur : ℕ) (u : Table)
    → get_elem? st.tables cur ≡ some u
    → Valid st nothing_held
    → Valid (proc_close_all_files st cur) nothing_held
unfolding proc_close_all_files
proc_close_all_files-Valid st cur u row valid =
    close_from-Valid st cur 0 (table_of st cur) u row (sym (table_of_row st cur u row)) valid

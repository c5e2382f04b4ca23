-- ===== src/Files/Fork.antt =====
-- The descriptors of a child process.
use c_loyha.Base.{ℕ, ◌+◌, ◌≤◌, ◌<◌, ◌≡◌, ◌≢◌, refl, sym, ap, ◌∙◌, arith}
use c_loyha.Base.{Option, none, some, List, [], ◌∷◌, get_elem?, set, drop, length}
use c_loyha.Base.{get_elem?-set_ne}
use c_loyha.Files.{
  Table, Files, max_fds, table_of, entry, put_entry, file_dup, fork_from, fork_files,
}
use c_loyha.Files.Counts.{refs, Balanced, FullTables, table_of_row, total_positive}
use c_loyha.Files.Valid.{Valid, nothing_held, and_entry, Valid-ext, tables-file_dup, and_no_entry}
use c_loyha.Files.Valid.{file_dup-Valid, put_entry-Valid}
use c_loyha.Files.PipeEnds.{row-put_entry, plus_none_held}
use c_loyha.Files.Exit.{drop_first, next_fd}

-- The loop has come to `fd`: `t` is what is left of the table of the parent, and the child has no
-- file from there on.
record Forking (st : Files) (parent child fd : ℕ) (t : Table) : Type 0 where
  parents : Table
  childs : Table
  parent_row : get_elem? st.tables parent ≡ some parents
  child_row : get_elem? st.tables child ≡ some childs
  rest : drop fd parents ≡ t
  empty : (k : ℕ) → fd ≤ k → entry childs k ≡ none
  valid : Valid st nothing_held

entry-set_ne : (u : Table) (i k : ℕ) (e : Option ℕ) → i ≢ k → entry (set u i e) k ≡ entry u k
entry-set_ne u i k e ne =
    ap (λ (o : Option (Option ℕ)). elim o [ none ↦ none | some x ↦ x ]) (get_elem?-set_ne u e ne)

full_row :
    (st : Files) (held : ℕ → ℕ) (c : ℕ) (u : Table)
    → Valid st held
    → get_elem? st.tables c ≡ some u
    → length u ≡ max_fds
unfolding Valid FullTables
full_row st held c u (_, full) row = full c u row

-- One round, from a state `mid` with the same tables that holds what the round writes.
next_round :
    (st mid : Files) (parent child fd : ℕ) (e : Option ℕ) (t : Table)
    → parent ≢ child
    → mid.tables ≡ st.tables
    → Valid mid (and_entry nothing_held e)
    → Forking st parent child fd (e ∷ t)
    → Forking (put_entry mid child fd e) parent child (fd + 1) t
next_round st mid parent child fd e t apart same held f =
    let (_, lt, behind) = drop_first f.parents t fd e f.rest in
    let row : get_elem? mid.tables child ≡ some f.childs =
      ap (λ (ts : List Table). get_elem? ts child) same ∙ f.child_row in
    let room : fd < length f.childs = omega (
      arith,
      full_row st nothing_held parent f.parents f.valid f.parent_row,
      full_row st nothing_held child f.childs f.valid f.child_row,
    ) in
    record {
      parents = f.parents;
      childs = set f.childs fd e;
      parent_row =
          get_elem?-set_ne mid.tables (set (table_of mid child) fd e) (λ eq. apart (sym eq))
          ∙ ap (λ (ts : List Table). get_elem? ts parent) same
          ∙ f.parent_row;
      child_row = row-put_entry mid child fd e f.childs row;
      rest = ap (λ (k : ℕ). drop k f.parents) (next_fd fd) ∙ behind;
      empty = λ k le. entry-set_ne f.childs fd k e (omega arith) ∙ f.empty k (omega arith);
      valid =
          Valid-ext (put_entry mid child fd e) (and_entry nothing_held (entry f.childs fd))
            nothing_held (λ g. and_no_entry (entry f.childs fd) g (f.empty fd (omega arith)))
            (put_entry-Valid mid child fd e f.childs nothing_held row room held);
    }

live_entry :
    (st : Files) (cur fd f : ℕ) (t : Table)
    → get_elem? st.tables cur ≡ some t
    → entry t fd ≡ some f
    → Valid st nothing_held
    → 0 < refs f st
unfolding Valid Balanced
live_entry st cur fd f t row here (balanced, _) =
    omega (arith, balanced f, total_positive st cur fd f t row here)

fork_from-Valid :
    (st : Files) (parent child fd : ℕ) (t : Table)
    → parent ≢ child
    → Forking st parent child fd t
    → Valid (fork_from st child fd t) nothing_held
unfolding fork_from
fork_from-Valid st parent child fd [] apart f = f.valid
fork_from-Valid st parent child fd (none ∷ t) apart f =
    fork_from-Valid (put_entry st child fd none) parent child (fd + 1) t apart (
      next_round st st parent child fd none t apart refl (plus_none_held st nothing_held f.valid) f)
fork_from-Valid st parent child fd (some g ∷ t) apart f =
    let (here, _, _) = drop_first f.parents t fd (some g) f.rest in
    let live = live_entry st parent fd g f.parents f.parent_row here f.valid in
    fork_from-Valid (put_entry (file_dup st g) child fd (some g)) parent child (fd + 1) t apart (
      next_round st (file_dup st g) parent child fd (some g) t apart (tables-file_dup st g)
        (file_dup-Valid st g nothing_held live f.valid) f)

-- A child without files gets a reference to each file of its parent.
pub fork_files-Valid :
    (st : Files) (parent child : ℕ) (t u : Table)
    → parent ≢ child
    → get_elem? st.tables parent ≡ some t
    → get_elem? st.tables child ≡ some u
    → ((k : ℕ) → entry u k ≡ none)
    → Valid st nothing_held
    → Valid (fork_files st parent child) nothing_held
unfolding fork_files
fork_files-Valid st parent child t u apart row child_row empty valid =
    fork_from-Valid st parent child 0 (table_of st parent) apart (record {
      parents = t;
      childs = u;
      parent_row = row;
      child_row = child_row;
      rest = sym (table_of_row st parent t row);
      empty = λ k le. empty k;
      valid = valid;
    })

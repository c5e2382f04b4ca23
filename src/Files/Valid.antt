-- ===== src/Files/Valid.antt =====
-- What one change of a table or of a count does to the agreement of the two.
use c_loyha.Base.{ℕ, suc, ◌+◌, ◌<◌, ◌≡◌, inl, inr, refl, sym, ap, ◌∙◌, subst, arith}
use c_loyha.Base.{leb, Bool-cases, Option-cases, eq_of_some}
use c_loyha.Base.{Option, none, some, List, [], ◌∷◌, get_elem?, length, sum_of}
use c_loyha.Files.{Table, Files, table_of, entry, put_entry, file_dup}
use c_loyha.Files.{file_close, free_fd, fd_install, open_fd}
use c_loyha.Files.Counts.{is_file, total, refs, Balanced, FullTables, table_of_row, total-put_entry}
use c_loyha.Files.Counts.{FullTables-put_entry, refs-file_dup, refs-file_close}

-- The counts agree and the tables are whole, with `held` in the hands of a call.
unfoldable pub Valid : Files → (ℕ → ℕ) → Type 0
Valid st held = Balanced st held × FullTables st

abbrev pub nothing_held : ℕ → ℕ
nothing_held g = 0

-- `held` and one more reference.
abbrev pub and_entry : (ℕ → ℕ) → Option ℕ → ℕ → ℕ
and_entry held e g = held g + is_file g e

pub tables-file_dup : (st : Files) (f : ℕ) → Files.tables (file_dup st f) ≡ st.tables
unfolding file_dup
tables-file_dup st f = elim (Option-cases (st.store f)) [
  | inl gone ↦ rw (file_dup, gone) refl
  | inr (o, at) ↦ rw (file_dup, at) refl
]

pub tables-file_close : (st : Files) (f : ℕ) → Files.tables (file_close st f) ≡ st.tables
unfolding file_close
tables-file_close st f = elim (Option-cases (st.store f)) [
  | inl gone ↦ rw (file_close, gone) refl
  | inr (o, at) ↦ elim (Bool-cases (leb 2 o.refcount)) [
    | inl shared ↦ rw (file_close, at, shared) refl
    | inr last ↦ rw (file_close, at, last) refl
  ]
]

pub total_eq : (st st' : Files) (g : ℕ) → st'.tables ≡ st.tables → total g st' ≡ total g st
unfolding total
total_eq st st' g same = ap (λ ts. sum_of (λ t. sum_of (is_file g) t) ts) same

FullTables-eq : (st st' : Files) → st'.tables ≡ st.tables → FullTables st → FullTables st'
unfolding FullTables
FullTables-eq st st' same full c t row =
    full c t (subst (λ (ts : List Table). get_elem? ts c ≡ some t) same row)

is_file_self : (f : ℕ) → is_file f (some f) ≡ 1
unfolding is_file
is_file_self f = ground arith

pub file_dup-Valid :
    (st : Files) (f : ℕ) (held : ℕ → ℕ)
    → 0 < refs f st
    → Valid st held
    → Valid (file_dup st f) (and_entry held (some f))
unfolding Valid Balanced
file_dup-Valid st f held live (balanced, full) = (
  λ g. omega (
    arith,
    refs-file_dup st f g live,
    total_eq st (file_dup st f) g (tables-file_dup st f),
    balanced g,
  ),
  FullTables-eq st (file_dup st f) (tables-file_dup st f) full,
)

pub file_close-Valid :
    (st : Files) (f : ℕ) (held : ℕ → ℕ)
    → Valid st (and_entry held (some f))
    → Valid (file_close st f) held
unfolding Valid Balanced
file_close-Valid st f held (balanced, full) =
    let live : 0 < refs f st = omega (arith, balanced f, is_file_self f) in
    (
      λ g. omega (
        arith,
        refs-file_close st f g live,
        total_eq st (file_close st f) g (tables-file_close st f),
        balanced g,
      ),
      FullTables-eq st (file_close st f) (tables-file_close st f) full,
    )

refs-put_entry :
    (st : Files) (cur fd : ℕ) (e : Option ℕ) (g : ℕ) → refs g (put_entry st cur fd e) ≡ refs g st
unfolding refs
refs-put_entry st cur fd e g = refl

-- A reference in the hands of the call goes into the table, for the one that stood there.
pub put_entry-Valid :
    (st : Files) (cur fd : ℕ) (e : Option ℕ) (t : Table) (held : ℕ → ℕ)
    → get_elem? st.tables cur ≡ some t
    → fd < length t
    → Valid st (and_entry held e)
    → Valid (put_entry st cur fd e) (and_entry held (entry t fd))
unfolding Valid Balanced
put_entry-Valid st cur fd e t held row lt (balanced, full) = (
  λ g.
      omega
        (arith, total-put_entry st cur fd e t g row lt, balanced g, refs-put_entry st cur fd e g),
  FullTables-put_entry st cur fd e full,
)

-- Only what is held counts.
pub Valid-ext : (st : Files) (h k : ℕ → ℕ) → ((g : ℕ) → h g ≡ k g) → Valid st h → Valid st k
unfolding Valid Balanced
Valid-ext st h k same (balanced, full) = (λ g. omega (arith, balanced g, same g), full)

pub none_counts : (g : ℕ) → is_file g none ≡ 0
unfolding is_file
none_counts g = refl

pub and_no_entry : (e : Option ℕ) (g : ℕ) → e ≡ none → and_entry nothing_held e g ≡ 0
unfolding is_file
and_no_entry e g absent = rw absent refl

pub free_fd_lem : (t : Table) (fd : ℕ) → free_fd t ≡ some fd → (fd < length t) × (entry t fd ≡ none)
unfolding free_fd
free_fd_lem [] fd found = absurd cc
free_fd_lem (none ∷ t) fd found =
    subst (λ (k : ℕ). (k < length (none ∷ t)) × (entry (none ∷ t) k ≡ none)) (eq_of_some found)
      (omega arith, refl)
free_fd_lem (some e ∷ t) fd found = elim (Option-cases (free_fd t)) [
  | inl nowhere ↦ let nothing : none ≡ some fd = rw (free_fd, nowhere) at found in absurd cc
  | inr (k, at) ↦
      let next : some (suc k) ≡ some fd = rw (free_fd, at) at found in
      let (lt, empty) = free_fd_lem t k at in
      subst (λ (n : ℕ). (n < length (some e ∷ t)) × (entry (some e ∷ t) n ≡ none)) (eq_of_some next)
        (omega arith, empty)
]

pub open_fd-Valid :
    (st : Files) (cur f : ℕ) (t : Table)
    → get_elem? st.tables cur ≡ some t
    → Valid st (and_entry nothing_held (some f))
    → Valid (open_fd st cur f).1 nothing_held
unfolding open_fd fd_install
open_fd-Valid st cur f t row valid =
    let same = table_of_row st cur t row in
    elim (Option-cases (free_fd (table_of st cur))) [
      | inl full ↦ rw (open_fd, fd_install, full) (file_close-Valid st f nothing_held valid)
      | inr (fd, at) ↦
          let (lt, empty) = free_fd_lem t fd (ap free_fd (sym same) ∙ at) in
          rw (open_fd, fd_install, at)
            (Valid-ext (put_entry st cur fd (some f)) (and_entry nothing_held (entry t fd))
              nothing_held (λ g. and_no_entry (entry t fd) g empty)
              (put_entry-Valid st cur fd (some f) t nothing_held row lt valid))
    ]

-- ===== src/Files/Counts.antt =====
-- The number of descriptors that refer to an open file, against its reference count.
use c_loyha.Base.{ℕ, zero, suc, ◌+◌, ◌-◌, ◌<◌, ◌≡◌, ◌⊎◌, inl, inr, refl, sym, ap, ◌∙◌, arith}
use c_loyha.Base.{◌==◌, leb, if◌then◌else◌, Bool-cases, Option-cases, eq_of_some}
use c_loyha.Base.{
  Option, none, some, List, [], ◌∷◌, ◌++◌, get_elem?, set, length, sum_of, sum_of-set, sum_of-ge,
}
use c_loyha.Base.{length-set}
use c_loyha.Files.{max_fds, File, Table, Files, table_of, entry, put_entry, put_file, file_alloc}
use c_loyha.Files.{file_dup, file_close}

-- 1 when the entry is the file `f`.
unfoldable pub is_file : ℕ → Option ℕ → ℕ
is_file f none = 0
is_file f (some g) = if g == f then 1 else 0

-- The descriptors of all tables that refer to `f`.
unfoldable pub total : ℕ → Files → ℕ
total f st = sum_of (λ t. sum_of (is_file f) t) st.tables

unfoldable pub refs : ℕ → Files → ℕ
refs f st = elim (st.store f) [ none ↦ 0 | some o ↦ o.refcount ]

-- Every reference is a descriptor, but for `held f` that a call holds in its hands.
unfoldable pub Balanced : Files → (ℕ → ℕ) → Type 0
Balanced st held = (f : ℕ) → refs f st ≡ total f st + held f

-- Every table has an entry for each descriptor.
unfoldable pub FullTables : Files → Type 0
FullTables st = (cur : ℕ) (t : Table) → get_elem? st.tables cur ≡ some t → length t ≡ max_fds

pub length-get {ℓ} :
    {A : Type ℓ} (xs : List A) (i : ℕ) (x : A) → get_elem? xs i ≡ some x → i < length xs
length-get [] i x at = absurd cc
length-get (y ∷ xs) zero x at = omega arith
length-get (y ∷ xs) (suc i) x at = omega (arith, length-get xs i x at)

pub get_some {ℓ} :
    {A : Type ℓ} (xs : List A) (i : ℕ) → i < length xs → (x : A) × (get_elem? xs i ≡ some x)
get_some [] i lt = absurd (omega arith)
get_some (y ∷ xs) zero lt = (y, refl)
get_some (y ∷ xs) (suc i) lt = get_some xs i (omega arith)

pub table_of_row :
    (st : Files) (cur : ℕ) (t : Table) → get_elem? st.tables cur ≡ some t → table_of st cur ≡ t
table_of_row st cur t row = ap (λ (o : Option Table). elim o [ none ↦ [] | some u ↦ u ]) row

-- Where an element after a write comes from.
get_set_cases {ℓ} :
    {A : Type ℓ} (xs : List A) (i j : ℕ) (v y : A)
    → get_elem? (set xs i v) j ≡ some y
    → (get_elem? xs j ≡ some y) ⊎ ((x : A) × (v ≡ y) × (get_elem? xs i ≡ some x))
get_set_cases [] i j v y at = absurd cc
get_set_cases (x ∷ xs) zero zero v y at = inr (x, eq_of_some at, refl)
get_set_cases (x ∷ xs) zero (suc j) v y at = inl at
get_set_cases (x ∷ xs) (suc i) zero v y at = inl at
get_set_cases (x ∷ xs) (suc i) (suc j) v y at = get_set_cases xs i j v y at

-- One entry of a table is written.
pub total-put_entry :
    (st : Files) (cur fd : ℕ) (e : Option ℕ) (t : Table) (f : ℕ)
    → get_elem? st.tables cur ≡ some t
    → fd < length t
    → total f (put_entry st cur fd e) + is_file f (entry t fd) ≡ total f st + is_file f e
unfolding total
total-put_entry st cur fd e t f row lt =
    let (old, at) = get_some t fd lt in
    let rows = sum_of-set (λ t. sum_of (is_file f) t) st.tables cur (set t fd e) t row in
    let entries = sum_of-set (is_file f) t fd e old at in
    let place : total f (put_entry st cur fd e)
        ≡ sum_of (λ t. sum_of (is_file f) t) (set st.tables cur (set t fd e)) =
      ap (λ (u : Table). sum_of (λ t. sum_of (is_file f) t) (set st.tables cur (set u fd e)))
        (table_of_row st cur t row) in
    let was : is_file f (entry t fd) ≡ is_file f old =
      ap (λ (o : Option (Option ℕ)). is_file f (elim o [ none ↦ none | some x ↦ x ])) at in
    omega (arith, rows, entries, place, was)

pub FullTables-put_entry :
    (st : Files) (cur fd : ℕ) (e : Option ℕ) → FullTables st → FullTables (put_entry st cur fd e)
unfolding FullTables
FullTables-put_entry st cur fd e full c t row =
    elim (get_set_cases st.tables cur c (set (table_of st cur) fd e) t row) [
      | inl old ↦ full c t old
      | inr (u, new, at) ↦
          ap length (sym new)
          ∙ length-set (table_of st cur) fd e
          ∙ ap length (table_of_row st cur u at)
          ∙ full cur u at
    ]

abbrev count_of : Option File → ℕ
count_of o = elim o [ none ↦ 0 | some x ↦ x.refcount ]

refs-put_file :
    (st : Files) (f g : ℕ) (o : Option File)
    → refs g (put_file st f o) ≡ (if g == f then count_of o else refs g st)
unfolding refs
refs-put_file st f g o = elim (Bool-cases (g == f)) [
  | inl same ↦ rw (refs, same) refl
  | inr other ↦ rw (refs, other) refl
]

refs_eq : (st : Files) (f : ℕ) (o : Option File) → st.store f ≡ o → refs f st ≡ count_of o
unfolding refs
refs_eq st f o at = ap count_of at

refs_released : (st : Files) (g : ℕ) (r : List ℕ) → refs g (record st { released = r }) ≡ refs g st
unfolding refs
refs_released st g r = refl

is_file-some : (f g : ℕ) → is_file g (some f) ≡ (if f == g then 1 else 0)
unfolding is_file
is_file-some f g = refl

pub refs-file_dup :
    (st : Files) (f g : ℕ) → 0 < refs f st → refs g (file_dup st f) ≡ refs g st + is_file g (some f)
unfolding file_dup
refs-file_dup st f g live = elim (Option-cases (st.store f)) [
  | inl gone ↦ absurd (omega (arith, refs_eq st f none gone))
  | inr (o, at) ↦
      let more = record o { refcount = o.refcount + 1 } in
      rw (file_dup, at)
        (elim (Bool-cases (g == f)) [
          | inl same ↦
              let e : g ≡ f = ground arith in
              rw e (
                ground (
                  arith,
                  refs-put_file st f f (some more),
                  refs_eq st f (some o) at,
                  is_file-some f f,
                ))
          | inr other ↦ ground (arith, refs-put_file st f g (some more), is_file-some f g)
        ])
]

pub refs-file_close :
    (st : Files) (f g : ℕ)
    → 0 < refs f st
    → refs g (file_close st f) + is_file g (some f) ≡ refs g st
unfolding file_close refs
refs-file_close st f g live = elim (Option-cases (st.store f)) [
  | inl gone ↦ absurd (omega (arith, refs_eq st f none gone))
  | inr (o, at) ↦
      let less = record o { refcount = o.refcount - 1 } in
      elim (Bool-cases (leb 2 o.refcount)) [
        | inl shared ↦
            rw (file_close, at, shared)
              (elim (Bool-cases (g == f)) [
                | inl same ↦
                    let e : g ≡ f = ground arith in
                    rw e (
                      ground (
                        arith,
                        refs-put_file st f f (some less),
                        refs_eq st f (some o) at,
                        is_file-some f f,
                      ))
                | inr other ↦ ground (arith, refs-put_file st f g (some less), is_file-some f g)
              ])
        | inr last ↦
            rw (file_close, at, last)
              (elim (Bool-cases (g == f)) [
                | inl same ↦
                    let e : g ≡ f = ground arith in
                    rw e (
                      ground (
                        arith,
                        refs_released (put_file st f none) f (st.released ++ (f ∷ [])),
                        refs-put_file st f f none,
                        refs_eq st f (some o) at,
                        is_file-some f f,
                      ))
                | inr other ↦ ground (
                  arith,
                  refs_released (put_file st f none) g (st.released ++ (f ∷ [])),
                  refs-put_file st f g none,
                  is_file-some f g,
                )
              ])
      ]
]

pub refs-file_alloc :
    (st : Files) (f inode flags g : ℕ)
    → st.store f ≡ none
    → refs g (file_alloc st f inode flags) ≡ refs g st + is_file g (some f)
unfolding file_alloc
refs-file_alloc st f inode flags g fresh =
    let one_ref : Option File = some (record { inode = inode; flags = flags; refcount = 1 }) in
    elim (Bool-cases (g == f)) [
      | inl same ↦
          let e : g ≡ f = ground arith in
          rw e (
            ground (arith, refs-put_file st f f one_ref, refs_eq st f none fresh, is_file-some f f))
      | inr other ↦ ground (arith, refs-put_file st f g one_ref, is_file-some f g)
    ]

-- A file in a table is counted.
pub total_positive :
    (st : Files) (cur fd f : ℕ) (t : Table)
    → get_elem? st.tables cur ≡ some t
    → entry t fd ≡ some f
    → 0 < total f st
unfolding total is_file
total_positive st cur fd f t row here = elim (Option-cases (get_elem? t fd)) [
  | inl out ↦ let nothing : none ≡ some f = rw (entry, out) at here in absurd cc
  | inr (e, at) ↦
      let same : e ≡ some f = rw (entry, at) at here in
      let counts : is_file f (some f) ≡ 1 = ground arith in
      omega (
        arith,
        sum_of-ge (λ t. sum_of (is_file f) t) st.tables cur t row,
        sum_of-ge (is_file f) t fd e at,
        ap (is_file f) same,
        counts,
      )
]

pub entry-length : (t : Table) (fd f : ℕ) → entry t fd ≡ some f → fd < length t
entry-length t fd f here = elim (Option-cases (get_elem? t fd)) [
  | inl out ↦ let nothing : none ≡ some f = rw (entry, out) at here in absurd cc
  | inr (e, at) ↦ length-get t fd e at
]

-- ===== src/Path/Room.antt =====
-- `path_normalize` of kernel/fs/vfs.c refuses no path that fits.
use c_loyha.Base.{
  ℕ, zero, suc, ◌+◌, ◌≤◌, ◌<◌, ◌≡◌, ◌⊎◌, inl, inr, refl, sym, ap, ◌∙◌, arith, ◌==◌, length, List,
  [], ◌∷◌, ltb,
}
use c_loyha.Base.{false, Bool-cases, List-cases, some}
use c_loyha.Path.Stacked.{length-up, length-put_all}
use c_loyha.Path.Normal.{shown, components_left, path_normalize-shown, length-drop_slashes}
use c_loyha.Base.{min, length-take}
use c_loyha.Path.Normal.{full_path, whole_path_lem}
use c_loyha.Path.{
  drop_slashes, name_of, after_name, is_dot, is_dot_dot, up_to_slash, drop_last, put_all, put_name,
  normalize_from, whole_path, path_normalize,
}

length-name_of : (s : List ℕ) → length (name_of s) + length (after_name s) ≡ length s
unfolding name_of after_name
length-name_of [] = omega arith
length-name_of (c ∷ s) = elim (Bool-cases (c == 47)) [
  | inl slash ↦ rw slash (omega arith)
  | inr other ↦ rw other (omega (arith, length-name_of s))
]

-- What follows a component is nothing, or begins with a slash.
after_name_cases :
    (s : List ℕ)
    → (drop_slashes (after_name s) ≡ [])
      ⊎ (length (drop_slashes (after_name s)) + 1 ≤ length (after_name s))
unfolding after_name drop_slashes
after_name_cases [] = inl refl
after_name_cases (c ∷ s) = elim (Bool-cases (c == 47)) [
  | inl slash ↦ rw (slash, slash) (inr (omega (arith, length-drop_slashes s)))
  | inr other ↦ rw other (after_name_cases s)
]

put_name_fits :
    (n out : List ℕ) (size : ℕ)
    → length out + 1 + length n + 1 ≤ size
    → (o : List ℕ) × (put_name n out size ≡ some o) × (length o ≤ length out + 1 + length n)
unfolding put_name
put_name_fits n out size room = elim (Bool-cases (is_dot n)) [
  | inl dot ↦ (out, rw (put_name, dot) refl, omega arith)
  | inr no_dot ↦ elim (Bool-cases (is_dot_dot n)) [
    | inl dots ↦ (
      drop_last (up_to_slash out),
      rw (put_name, no_dot, dots) refl,
      omega (arith, length-up out),
    )
    | inr plain ↦
        let short : ltb size (length out + 1 + length n + 1) ≡ false = ground (arith, room) in
        (
          put_all n (47 ∷ out),
          rw (put_name, no_dot, plain, short) refl,
          omega (arith, length-put_all n (47 ∷ out)),
        )
  ]
]

-- There is room for what is left of the path.
abbrev Room : List ℕ → List ℕ → ℕ → Type 0
Room s out size = (drop_slashes s ≡ []) ⊎ (length out + length (drop_slashes s) + 3 ≤ size)

normalize_from_fits :
    (fuel : ℕ) (s out : List ℕ) (size : ℕ)
    → Room s out size
    → (o : List ℕ) × (normalize_from fuel s out size ≡ some o)
unfolding normalize_from
normalize_from_fits zero s out size room = (out, refl)
normalize_from_fits (suc fuel) s out size room = elim (List-cases (drop_slashes s)) [
  | inl empty ↦ (out, rw (normalize_from, empty) refl)
  | inr (c, t, eq) ↦ elim room [
    | inl nothing ↦
        let clash : [] ≡ c ∷ t = sym nothing ∙ eq in absurd (omega (arith, ap length clash))
    | inr enough ↦
        let here : length (drop_slashes s) ≡ length (c ∷ t) = ap length eq in
        let split = length-name_of (c ∷ t) in
        let (o, put, size_o) =
          put_name_fits (name_of (c ∷ t)) out size (omega (arith, enough, here, split)) in
        let next : Room (after_name (c ∷ t)) o size = elim (after_name_cases (c ∷ t)) [
          | inl end ↦ inl end
          | inr more ↦ inr (omega (arith, enough, here, split, size_o, more))
        ] in
        let (last, done) = normalize_from_fits fuel (after_name (c ∷ t)) o size next in
        (last, rw (normalize_from, eq, put) done)
  ]
]

path_normalize_fits :
    (cwd path : List ℕ) (size : ℕ)
    → length (whole_path cwd path) + 3 ≤ size
    → (out : List ℕ) × (path_normalize cwd path size ≡ some out)
unfolding path_normalize
path_normalize_fits cwd path size room =
    let s = whole_path cwd path in
    let (raw, eq) =
      normalize_from_fits (length s + 1) s [] size
        (inr (omega (arith, room, length-drop_slashes s))) in
    elim (List-cases raw) [
      | inl empty ↦ (47 ∷ [], rw (path_normalize, eq, empty) refl)
      | inr (c, o, is) ↦ (put_all (c ∷ o) [], rw (path_normalize, eq, is) refl)
    ]

-- For a buffer of two bytes or more: where `path_normalize` succeeds, it writes the path of the
-- components that are left of the first 2047 bytes of the full path (the path itself where it begins
-- with a slash, else the working directory, a slash and it) when empty and single-dot parts are passed
-- over and a double dot takes back the one before, or the root where none is left, with its final 0
-- within the buffer; and it succeeds where the buffer has three bytes more than those.
pub path_normalize_lem :
    (cwd path : List ℕ) (size : ℕ)
    → 2 ≤ size
    → ((out : List ℕ)
        → path_normalize cwd path size ≡ some out
        → (out ≡ shown (components_left cwd path)) × (length out < size))
      × (min 2047 (length (full_path cwd path)) + 3 ≤ size
          → (out : List ℕ) × (path_normalize cwd path size ≡ some out))
path_normalize_lem cwd path size room = (
  λ out. path_normalize-shown cwd path size out room,
  λ enough. path_normalize_fits cwd path size (
      omega (
        arith,
        enough,
        ap length (whole_path_lem cwd path),
        length-take 2047 (full_path cwd path),
      )),
)

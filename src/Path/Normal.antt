-- ===== src/Path/Normal.antt =====
-- `path_normalize` of kernel/fs/vfs.c makes the path of the components that are left.
use c_loyha.Base.{
  ℕ, zero, suc, ◌+◌, ◌≤◌, ◌<◌, ◌≡◌, inl, inr, refl, sym, ap, ◌∙◌, subst, arith, ◌==◌, length, List,
  [], ◌∷◌, ◌++◌,
}
use c_loyha.Base.{false, Bool-cases, List-cases, Option-cases, Option, none, some, eq_of_some}
use c_loyha.Base.{take, get_elem?, if◌then◌else◌, ◌==◌, Bool-cases}
use c_loyha.Path.{
  drop_slashes, name_of, after_name, put_all, put_name, normalize_from, whole_path, path_normalize,
}
use c_loyha.Path.Names.{parts, resolve, resolve_all, drop_slashes-resolve, name-resolve}
use c_loyha.Path.Stacked.{
  stacked, spelled, NoSlash, AllNoSlash, name_of-NoSlash, put_all-stacked, resolve-AllNoSlash,
  stacked_cons, empty_stack, no_components, length-put_all, no_parts, put_name-resolve,
}

head_eq : {c d : ℕ} {s t : List ℕ} → d ∷ s ≡ c ∷ t → d ≡ c
head_eq {d = d} e = ap (λ (l : List ℕ). elim l [ [] ↦ d | x ∷ _ ↦ x ]) e

first_not_slash : (s : List ℕ) (c : ℕ) (t : List ℕ) → drop_slashes s ≡ c ∷ t → (c == 47) ≡ false
unfolding drop_slashes
first_not_slash [] c t e = absurd cc
first_not_slash (d ∷ s) c t e = elim (Bool-cases (d == 47)) [
  | inl slash ↦ first_not_slash s c t (rw slash at e)
  | inr other ↦
      let same : d ∷ s ≡ c ∷ t = rw other at e in
      let heads : d ≡ c = head_eq same in subst (λ (x : ℕ). (x == 47) ≡ false) heads other
]

pub length-drop_slashes : (s : List ℕ) → length (drop_slashes s) ≤ length s
unfolding drop_slashes
length-drop_slashes [] = omega arith
length-drop_slashes (c ∷ s) = elim (Bool-cases (c == 47)) [
  | inl slash ↦ rw slash (omega (arith, length-drop_slashes s))
  | inr other ↦ rw other (omega arith)
]

length-after_name : (s : List ℕ) → length (after_name s) ≤ length s
unfolding after_name
length-after_name [] = omega arith
length-after_name (c ∷ s) = elim (Bool-cases (c == 47)) [
  | inl slash ↦ rw slash (omega arith)
  | inr other ↦ rw other (omega (arith, length-after_name s))
]

name_of_first : (c : ℕ) (t : List ℕ) → (c == 47) ≡ false → name_of (c ∷ t) ≡ c ∷ name_of t
unfolding name_of
name_of_first c t other = rw other refl

after_first : (c : ℕ) (t : List ℕ) → (c == 47) ≡ false → after_name (c ∷ t) ≡ after_name t
unfolding after_name
after_first c t other = rw other refl

-- The bytes follow the components.
normalize_from-resolve_all :
    (fuel : ℕ) (s : List ℕ) (names : List (List ℕ)) (size : ℕ) (out : List ℕ)
    → length s < fuel
    → AllNoSlash names
    → length (stacked names) < size
    → normalize_from fuel s (stacked names) size ≡ some out
    → (out ≡ stacked (resolve_all names (parts s))) × (length out < size)
unfolding normalize_from
normalize_from-resolve_all zero s names size out enough clean fits done = absurd (omega arith)
normalize_from-resolve_all (suc fuel) s names size out enough clean fits done =
    elim (List-cases (drop_slashes s)) [
      | inl empty ↦
          let same : some (stacked names) ≡ some out = rw (normalize_from, empty) at done in
          (
            sym (eq_of_some same)
                ∙ ap stacked (
                    sym (
                      drop_slashes-resolve s names
                      ∙ ap (λ (t : List ℕ). resolve_all names (parts t)) empty
                      ∙ no_parts names)),
            subst (λ (o : List ℕ). length o < size) (eq_of_some same) fits,
          )
      | inr (c, t, eq) ↦
          let other = first_not_slash s c t eq in
          let named = name_of_first c t other in
          let out_of = put_name (name_of (c ∷ t)) (stacked names) size in
          elim (Option-cases out_of) [
            | inl long ↦
                let nothing : none ≡ some out = rw (normalize_from, eq, long) at done in absurd cc
            | inr (o, put) ↦
                let (is, room) =
                  put_name-resolve names c (name_of t) size o clean fits
                    (ap (λ (n : List ℕ). put_name n (stacked names) size) (sym named) ∙ put) in
                let rest : normalize_from fuel (after_name (c ∷ t)) o size ≡ some out =
                  rw (normalize_from, eq, put) at done in
                let next = resolve names (c ∷ name_of t) in
                let (whole, end) =
                  normalize_from-resolve_all fuel (after_name (c ∷ t)) next size out
                    (omega (
                      arith,
                      enough,
                      length-drop_slashes s,
                      ap length eq,
                      length-after_name t,
                      ap length (after_first c t other),
                    ))
                    (resolve-AllNoSlash names (c ∷ name_of t) clean
                      (subst NoSlash named (name_of-NoSlash (c ∷ t))))
                    (subst (λ (x : List ℕ). length x < size) is room)
                    (subst
                      (λ (x : List ℕ). normalize_from fuel (after_name (c ∷ t)) x size ≡ some out)
                      is rest) in
                (
                  whole
                      ∙ ap stacked (
                          ap
                            (λ (n : List ℕ).
                              resolve_all (resolve names n) (parts (after_name (c ∷ t))))
                            (sym named)
                          ∙ sym (name-resolve (c ∷ t) names)
                          ∙ ap (λ (x : List ℕ). resolve_all names (parts x)) (sym eq)
                          ∙ sym (drop_slashes-resolve s names)),
                  end,
                )
          ]
    ]

append_nil : (a : List ℕ) → a ++ [] ≡ a
append_nil [] = refl
append_nil (x ∷ a) = ap (λ (t : List ℕ). x ∷ t) (append_nil a)

-- The string for the components that are left; none of them is the root.
unfoldable pub shown : List (List ℕ) → List ℕ
shown [] = 47 ∷ []
shown (n ∷ ns) = spelled (n ∷ ns)

-- The string that `path_normalize` makes of its bytes.
abbrev ending : List ℕ → Option (List ℕ)
ending raw = elim raw [ [] ↦ some (47 ∷ []) | c ∷ out ↦ some (put_all (c ∷ out) []) ]

ending-stacked : (names : List (List ℕ)) → ending (stacked names) ≡ some (shown names)
unfolding shown
ending-stacked [] = ap ending empty_stack
ending-stacked (n ∷ ns) = elim (List-cases (stacked (n ∷ ns))) [
  | inl empty ↦ absurd (
      omega
        (arith, ap length empty, ap length (stacked_cons n ns), length-put_all n (47 ∷ stacked ns)))
  | inr (c, o, eq) ↦ rw eq (
      ap some (
        ap (λ (x : List ℕ). put_all x []) (sym eq)
        ∙ put_all-stacked (n ∷ ns) []
        ∙ append_nil (spelled (n ∷ ns))))
]

-- The full path that `path` means in the directory `cwd`: itself where its first byte is a slash, else
-- `cwd`, a slash and it.
abbrev pub full_path : List ℕ → List ℕ → List ℕ
full_path cwd path = elim (get_elem? path 0) [
  | none ↦ cwd ++ (47 ∷ path)
  | some c ↦ if c == 47 then path else cwd ++ (47 ∷ path)
]

-- Its first 2047 bytes, which the code has room for.
pub whole_path_lem : (cwd path : List ℕ) → whole_path cwd path ≡ take 2047 (full_path cwd path)
whole_path_lem cwd [] = refl
whole_path_lem cwd (c ∷ path) = elim (Bool-cases (c == 47)) [
  | inl slash ↦ rw slash refl
  | inr other ↦ rw other refl
]

-- The components that are left of a path.
abbrev pub components_left : List ℕ → List ℕ → List (List ℕ)
components_left cwd path = resolve_all [] (parts (take 2047 (full_path cwd path)))

length-ending :
    (raw out : List ℕ) (size : ℕ)
    → 2 ≤ size
    → length raw < size
    → ending raw ≡ some out
    → length out < size
length-ending [] out size room fits is =
    subst (λ (o : List ℕ). length o < size) (eq_of_some is) (omega arith)
length-ending (c ∷ raw) out size room fits is =
    subst (λ (o : List ℕ). length o < size) (eq_of_some is)
      (omega (arith, fits, length-put_all (c ∷ raw) []))

pub path_normalize-shown :
    (cwd path : List ℕ) (size : ℕ) (out : List ℕ)
    → 2 ≤ size
    → path_normalize cwd path size ≡ some out
    → (out ≡ shown (components_left cwd path)) × (length out < size)
unfolding path_normalize
path_normalize-shown cwd path size out room done =
    let s = whole_path cwd path in
    elim (Option-cases (normalize_from (length s + 1) s [] size)) [
      | inl long ↦ let nothing : none ≡ some out = rw (path_normalize, long) at done in absurd cc
      | inr (raw, eq) ↦
          let is : ending raw ≡ some out = rw (path_normalize, eq) at done in
          let (whole, fits) =
            normalize_from-resolve_all (length s + 1) s [] size raw (omega arith) no_components
              (omega (arith, room, ap length empty_stack))
              (ap (λ (o : List ℕ). normalize_from (length s + 1) s o size) empty_stack ∙ eq) in
          (
            eq_of_some (
                sym is
                ∙ ap ending whole
                ∙ ending-stacked (resolve_all [] (parts s))
                ∙ ap (λ (t : List ℕ). some (shown (resolve_all [] (parts t))))
                    (whole_path_lem cwd path)),
            length-ending raw out size room fits is,
          )
    ]

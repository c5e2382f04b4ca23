-- ===== src/Path/Names.antt =====
-- The components of a path, as a description of what `path_normalize` is to make of it.
use c_loyha.Base.{ℕ, ◌≡◌, inl, inr, refl, sym, ap, ◌∙◌, ◌==◌, List, [], ◌∷◌}
use c_loyha.Base.{Bool, ◌&&◌, arith, true, false, if◌then◌else◌, Bool-cases}
use c_loyha.Path.{drop_slashes, name_of, after_name, is_dot, is_dot_dot}

-- The parts between the slashes: the first one, and the others.
unfoldable pub split : List ℕ → List ℕ × List (List ℕ)
split [] = ([], [])
split (c ∷ s) =
    let rest = split s in if c == 47 then ([], rest.0 ∷ rest.1) else (c ∷ rest.0, rest.1)

abbrev pub parts : List ℕ → List (List ℕ)
parts s = (split s).0 ∷ (split s).1

-- Whether two strings hold the same bytes.
unfoldable pub same_bytes : List ℕ → List ℕ → Bool
same_bytes [] [] = true
same_bytes [] (d ∷ t) = false
same_bytes (c ∷ s) [] = false
same_bytes (c ∷ s) (d ∷ t) = c == d && same_bytes s t

abbrev pub dot : List ℕ
dot = 46 ∷ []

abbrev pub dot_dot : List ℕ
dot_dot = 46 ∷ 46 ∷ []

-- The tests of the code on the length and the bytes of a component.
pub is_dot_lem : (n : List ℕ) → same_bytes n dot ≡ is_dot n
unfolding same_bytes is_dot
is_dot_lem [] = refl
is_dot_lem (c ∷ []) = ground arith
is_dot_lem (c ∷ d ∷ s) = ground arith

pub is_dot_dot_lem : (n : List ℕ) → same_bytes n dot_dot ≡ is_dot_dot n
unfolding same_bytes is_dot_dot
is_dot_dot_lem [] = refl
is_dot_dot_lem (c ∷ []) = ground arith
is_dot_dot_lem (c ∷ d ∷ []) = ground arith
is_dot_dot_lem (c ∷ d ∷ e ∷ s) = ground arith

-- What a part does to the components so far, the last one first.
unfoldable pub resolve : List (List ℕ) → List ℕ → List (List ℕ)
resolve names [] = names
resolve names (c ∷ s) =
    if same_bytes (c ∷ s) dot
    then names
    else if same_bytes (c ∷ s) dot_dot
    then elim names [ [] ↦ [] | _ ∷ up ↦ up ]
    else (c ∷ s) ∷ names

unfoldable pub resolve_all : List (List ℕ) → List (List ℕ) → List (List ℕ)
resolve_all names [] = names
resolve_all names (n ∷ ns) = resolve_all (resolve names n) ns

drop_other : (c : ℕ) (s : List ℕ) → (c == 47) ≡ false → drop_slashes (c ∷ s) ≡ c ∷ s
unfolding drop_slashes
drop_other c s other = rw other refl

drop_slash : (c : ℕ) (s : List ℕ) → (c == 47) ≡ true → drop_slashes (c ∷ s) ≡ drop_slashes s
unfolding drop_slashes
drop_slash c s slash = rw slash refl

parts_slash :
    (c : ℕ) (s : List ℕ) (names : List (List ℕ))
    → (c == 47) ≡ true
    → resolve_all names (parts (c ∷ s)) ≡ resolve_all names (parts s)
unfolding split resolve_all resolve
parts_slash c s names slash = rw slash refl

-- Slashes in front make no component.
pub drop_slashes-resolve :
    (s : List ℕ) (names : List (List ℕ))
    → resolve_all names (parts s) ≡ resolve_all names (parts (drop_slashes s))
unfolding drop_slashes
drop_slashes-resolve [] names = refl
drop_slashes-resolve (c ∷ s) names = elim (Bool-cases (c == 47)) [
  | inl slash ↦
      parts_slash c s names slash
      ∙ drop_slashes-resolve s names
      ∙ ap (λ (t : List ℕ). resolve_all names (parts t)) (sym (drop_slash c s slash))
  | inr other ↦ ap (λ (t : List ℕ). resolve_all names (parts t)) (sym (drop_other c s other))
]

name_of-split : (s : List ℕ) → (split s).0 ≡ name_of s
unfolding split name_of
name_of-split [] = refl
name_of-split (c ∷ s) = elim (Bool-cases (c == 47)) [
  | inl slash ↦ rw slash refl
  | inr other ↦ rw other (ap (λ (t : List ℕ). c ∷ t) (name_of-split s))
]

tail_slash : (c : ℕ) (s : List ℕ) → (c == 47) ≡ true → (split (c ∷ s)).1 ≡ parts s
unfolding split
tail_slash c s slash = rw slash refl

tail_other : (c : ℕ) (s : List ℕ) → (c == 47) ≡ false → (split (c ∷ s)).1 ≡ (split s).1
unfolding split
tail_other c s other = rw other refl

after_slash : (c : ℕ) (s : List ℕ) → (c == 47) ≡ true → after_name (c ∷ s) ≡ c ∷ s
unfolding after_name
after_slash c s slash = rw slash refl

after_other : (c : ℕ) (s : List ℕ) → (c == 47) ≡ false → after_name (c ∷ s) ≡ after_name s
unfolding after_name
after_other c s other = rw other refl

after_name-split :
    (s : List ℕ) (names : List (List ℕ))
    → resolve_all names (split s).1 ≡ resolve_all names (parts (after_name s))
unfolding split after_name resolve_all resolve
after_name-split [] names = refl
after_name-split (c ∷ s) names = elim (Bool-cases (c == 47)) [
  | inl slash ↦
      ap (resolve_all names) (tail_slash c s slash)
      ∙ sym (parts_slash c s names slash)
      ∙ ap (λ (t : List ℕ). resolve_all names (parts t)) (sym (after_slash c s slash))
  | inr other ↦
      ap (resolve_all names) (tail_other c s other)
      ∙ after_name-split s names
      ∙ ap (λ (t : List ℕ). resolve_all names (parts t)) (sym (after_other c s other))
]

-- A component, and then the rest of the path.
pub name-resolve :
    (s : List ℕ) (names : List (List ℕ))
    → resolve_all names (parts s) ≡ resolve_all (resolve names (name_of s)) (parts (after_name s))
unfolding resolve_all
name-resolve s names =
    after_name-split s (resolve names (split s).0)
    ∙ ap (λ (n : List ℕ). resolve_all (resolve names n) (parts (after_name s))) (name_of-split s)

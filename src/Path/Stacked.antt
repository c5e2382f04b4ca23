-- ===== src/Path/Stacked.antt =====
-- The bytes of `path_normalize` of kernel/fs/vfs.c as a stack of components.
use c_loyha.Base.{
  ℕ, ◌+◌, ◌≤◌, ◌<◌, ◌≡◌, inl, inr, refl, sym, ap, ◌∙◌, subst, arith, ◌==◌, length, List, [], ◌∷◌,
  ◌++◌, ltb,
}
use c_loyha.Base.{false, Bool-cases, none, some, eq_of_some}
use c_loyha.Path.{name_of, is_dot, is_dot_dot, up_to_slash, drop_last, put_all, put_name}
use c_loyha.Path.Names.{is_dot_lem, is_dot_dot_lem, parts, split, resolve, resolve_all}

-- The bytes of the components, each behind a slash, the last byte first.
unfoldable pub stacked : List (List ℕ) → List ℕ
stacked [] = []
stacked (n ∷ ns) = put_all n (47 ∷ stacked ns)

-- The same, the first byte first: what a reader of the path sees.
unfoldable pub spelled : List (List ℕ) → List ℕ
spelled [] = []
spelled (n ∷ ns) = spelled ns ++ (47 ∷ n)

-- No byte of a component is a slash.
unfoldable pub NoSlash : List ℕ → Type 0
NoSlash [] = Unit
NoSlash (c ∷ s) = ((c == 47) ≡ false) × NoSlash s

unfoldable pub AllNoSlash : List (List ℕ) → Type 0
AllNoSlash [] = Unit
AllNoSlash (n ∷ ns) = NoSlash n × AllNoSlash ns

pub name_of-NoSlash : (s : List ℕ) → NoSlash (name_of s)
unfolding name_of NoSlash
name_of-NoSlash [] = tt
name_of-NoSlash (c ∷ s) = elim (Bool-cases (c == 47)) [
  | inl slash ↦ rw slash tt
  | inr other ↦ rw other (other, name_of-NoSlash s)
]

-- A component is taken off again.
up-put_all : (n out : List ℕ) → NoSlash n → up_to_slash (put_all n out) ≡ up_to_slash out
unfolding put_all up_to_slash NoSlash
up-put_all [] out clean = refl
up-put_all (c ∷ n) out (other, clean) = up-put_all n (c ∷ out) clean ∙ rw other refl

drop_last-stacked :
    (names : List (List ℕ))
    → AllNoSlash names
    → drop_last (up_to_slash (stacked names)) ≡ stacked (elim names [ [] ↦ [] | _ ∷ up ↦ up ])
unfolding stacked up_to_slash drop_last AllNoSlash
drop_last-stacked [] clean = refl
drop_last-stacked (n ∷ ns) (clean, _) = ap drop_last (up-put_all n (47 ∷ stacked ns) clean)

put_all-append : (a b c : List ℕ) → put_all (put_all a b) c ≡ put_all b (a ++ c)
unfolding put_all
put_all-append [] b c = refl
put_all-append (x ∷ a) b c = put_all-append a (x ∷ b) c

append_assoc : (a b c : List ℕ) → (a ++ b) ++ c ≡ a ++ (b ++ c)
append_assoc [] b c = refl
append_assoc (x ∷ a) b c = ap (λ (t : List ℕ). x ∷ t) (append_assoc a b c)

pub put_all-stacked :
    (names : List (List ℕ)) (c : List ℕ) → put_all (stacked names) c ≡ spelled names ++ c
unfolding stacked spelled put_all
put_all-stacked [] c = refl
put_all-stacked (n ∷ ns) c =
    put_all-append n (47 ∷ stacked ns) c
    ∙ put_all-stacked ns (47 ∷ (n ++ c))
    ∙ sym (append_assoc (spelled ns) (47 ∷ n) c)

-- The components that are left hold no slash.
above-AllNoSlash :
    (names : List (List ℕ)) → AllNoSlash names → AllNoSlash (elim names [ [] ↦ [] | _ ∷ up ↦ up ])
unfolding AllNoSlash
above-AllNoSlash [] clean = tt
above-AllNoSlash (n ∷ ns) (_, clean) = clean

pub resolve-AllNoSlash :
    (names : List (List ℕ)) (n : List ℕ)
    → AllNoSlash names
    → NoSlash n
    → AllNoSlash (resolve names n)
unfolding resolve AllNoSlash
resolve-AllNoSlash names [] clean this = clean
resolve-AllNoSlash names (c ∷ s) clean this = elim (Bool-cases (is_dot (c ∷ s))) [
  | inl one ↦ rw (is_dot_lem (c ∷ s), one) clean
  | inr no_dot ↦ elim (Bool-cases (is_dot_dot (c ∷ s))) [
    | inl dots ↦
        rw (is_dot_lem (c ∷ s), no_dot, is_dot_dot_lem (c ∷ s), dots) (above-AllNoSlash names clean)
    | inr plain ↦ rw (is_dot_lem (c ∷ s), no_dot, is_dot_dot_lem (c ∷ s), plain) (this, clean)
  ]
]

pub stacked_cons :
    (n : List ℕ) (ns : List (List ℕ)) → stacked (n ∷ ns) ≡ put_all n (47 ∷ stacked ns)
unfolding stacked
stacked_cons n ns = refl

pub empty_stack : stacked [] ≡ []
unfolding stacked
empty_stack = refl

pub no_components : AllNoSlash []
unfolding AllNoSlash
no_components = tt

pub length-put_all : (n out : List ℕ) → length (put_all n out) ≡ length n + length out
unfolding put_all
length-put_all [] out = omega arith
length-put_all (c ∷ n) out = omega (arith, length-put_all n (c ∷ out))

pub length-up : (out : List ℕ) → length (drop_last (up_to_slash out)) ≤ length out
unfolding up_to_slash drop_last
length-up [] = omega arith
length-up (c ∷ out) = elim (Bool-cases (c == 47)) [
  | inl slash ↦ rw slash (omega arith)
  | inr other ↦ rw other (omega (arith, length-up out))
]

put_fits :
    (n out : List ℕ) (size : ℕ)
    → ltb size (length out + 1 + length n + 1) ≡ false
    → length (put_all n (47 ∷ out)) < size
put_fits n out size room =
    let long : length out + 1 + length n + 1 ≤ size = ground (arith, room) in
    omega (arith, long, length-put_all n (47 ∷ out))

pub no_parts : (names : List (List ℕ)) → resolve_all names (parts []) ≡ names
unfolding resolve_all resolve split
no_parts names = refl

-- What `put_name` makes of the bytes.
pub put_name-resolve :
    (names : List (List ℕ)) (c : ℕ) (s : List ℕ) (size : ℕ) (out : List ℕ)
    → AllNoSlash names
    → length (stacked names) < size
    → put_name (c ∷ s) (stacked names) size ≡ some out
    → (out ≡ stacked (resolve names (c ∷ s))) × (length out < size)
unfolding put_name resolve
put_name-resolve names c s size out clean fits put = elim (Bool-cases (is_dot (c ∷ s))) [
  | inl one ↦
      let same : some (stacked names) ≡ some out = rw (put_name, one) at put in
      rw (is_dot_lem (c ∷ s), one)
        (sym (eq_of_some same), subst (λ (o : List ℕ). length o < size) (eq_of_some same) fits)
  | inr no_dot ↦ elim (Bool-cases (is_dot_dot (c ∷ s))) [
    | inl dots ↦
        let same : some (drop_last (up_to_slash (stacked names))) ≡ some out =
          rw (put_name, no_dot, dots) at put in
        rw (is_dot_lem (c ∷ s), no_dot, is_dot_dot_lem (c ∷ s), dots)
          (
            sym (eq_of_some same) ∙ drop_last-stacked names clean,
            subst (λ (o : List ℕ). length o < size) (eq_of_some same)
                (omega (arith, fits, length-up (stacked names))),
          )
    | inr plain ↦ elim (Bool-cases (ltb size (length (stacked names) + 1 + length (c ∷ s) + 1))) [
      | inl long ↦
          let nothing : none ≡ some out = rw (put_name, no_dot, plain, long) at put in absurd cc
      | inr room ↦
          let same : some (put_all (c ∷ s) (47 ∷ stacked names)) ≡ some out =
            rw (put_name, no_dot, plain, room) at put in
          rw (is_dot_lem (c ∷ s), no_dot, is_dot_dot_lem (c ∷ s), plain)
            (
              sym (eq_of_some same) ∙ sym (stacked_cons (c ∷ s) names),
              subst (λ (o : List ℕ). length o < size) (eq_of_some same)
                  (put_fits (c ∷ s) (stacked names) size room),
            )
    ]
  ]
]

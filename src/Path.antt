-- ===== src/Path.antt =====
-- `path_normalize` of kernel/fs/vfs.c. A string is the list of its bytes before the final 0; the buffer
-- `out` is the list of its first `len` bytes, the last one first.
pub mod Names
pub mod Stacked
pub mod Normal
pub mod Room
use c_loyha.Base.{ℕ, zero, suc, ◌+◌, ◌==◌, ltb, take, length, List, [], ◌∷◌, ◌++◌}
use c_loyha.Base.{Bool, true, false, ◌&&◌, if◌then◌else◌, Option, none, some}

-- `while (*s == '/') s++`
unfoldable pub drop_slashes : List ℕ → List ℕ
drop_slashes [] = []
drop_slashes (c ∷ s) = if c == 47 then drop_slashes s else c ∷ s

-- The bytes between `s` and `e`, and those from `e` on.
unfoldable pub name_of : List ℕ → List ℕ
name_of [] = []
name_of (c ∷ s) = if c == 47 then [] else c ∷ name_of s

unfoldable pub after_name : List ℕ → List ℕ
after_name [] = []
after_name (c ∷ s) = if c == 47 then c ∷ s else after_name s

unfoldable pub is_dot : List ℕ → Bool
is_dot [] = false
is_dot (c ∷ []) = c == 46
is_dot (c ∷ d ∷ s) = false

unfoldable pub is_dot_dot : List ℕ → Bool
is_dot_dot [] = false
is_dot_dot (c ∷ []) = false
is_dot_dot (c ∷ d ∷ []) = c == 46 && d == 46
is_dot_dot (c ∷ d ∷ e ∷ s) = false

-- `while (len > 0 && out[len - 1] != '/') len--`
unfoldable pub up_to_slash : List ℕ → List ℕ
up_to_slash [] = []
up_to_slash (c ∷ out) = if c == 47 then c ∷ out else up_to_slash out

-- `if (len > 0) len--`
unfoldable pub drop_last : List ℕ → List ℕ
drop_last [] = []
drop_last (c ∷ out) = out

-- Bytes that are written one after the other.
unfoldable pub put_all : List ℕ → List ℕ → List ℕ
put_all [] out = out
put_all (c ∷ s) out = put_all s (c ∷ out)

-- One component; `none` is -ENAMETOOLONG.
unfoldable pub put_name : List ℕ → List ℕ → ℕ → Option (List ℕ)
put_name name out size =
    if is_dot name
    then some out
    else if is_dot_dot name
    then some (drop_last (up_to_slash out))
    else if ltb size (length out + 1 + length name + 1)
    then none
    else some (put_all name (47 ∷ out))

-- The outer loop.
unfoldable pub normalize_from : (fuel : ℕ) → List ℕ → List ℕ → ℕ → Option (List ℕ)
normalize_from zero s out size = some out
normalize_from (suc fuel) s out size = elim (drop_slashes s) [
  | [] ↦ some out
  | c ∷ s' ↦ elim (put_name (name_of (c ∷ s')) out size) [
    | none ↦ none
    | some out' ↦ normalize_from fuel (after_name (c ∷ s')) out' size
  ]
]

-- `strlcpy` and `ksnprintf` into a buffer of twice PATH_MAX bytes.
abbrev pub whole_path : List ℕ → List ℕ → List ℕ
whole_path cwd [] = take 2047 (cwd ++ (47 ∷ []))
whole_path cwd (c ∷ path) =
    if c == 47 then take 2047 (c ∷ path) else take 2047 (cwd ++ (47 ∷ c ∷ path))

-- The string in `out` at the end.
unfoldable pub path_normalize : List ℕ → List ℕ → ℕ → Option (List ℕ)
path_normalize cwd path size =
    let s = whole_path cwd path in
    elim (normalize_from (length s + 1) s [] size) [
      | none ↦ none
      | some [] ↦ some (47 ∷ [])
      | some (c ∷ out) ↦ some (put_all (c ∷ out) [])
    ]

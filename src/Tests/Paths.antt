-- ===== src/Tests/Paths.antt =====
-- The path "/a/../b" and the working directory "/".
use c_loyha.Base.{ℕ, ◌+◌, ◌≤◌, ◌<◌, min, ◌≡◌, refl, arith, length, List, [], ◌∷◌, some}
use c_loyha.Path.{
  path_normalize, normalize_from, drop_slashes, name_of, after_name, put_name, is_dot, is_dot_dot,
  drop_last, up_to_slash, put_all,
}
use c_loyha.Path.Normal.{full_path, shown, components_left}
use c_loyha.Path.Room.{path_normalize_lem}

abbrev up_and_down : List ℕ
up_and_down = 47 ∷ 97 ∷ 47 ∷ 46 ∷ 46 ∷ 47 ∷ 98 ∷ []

root_b : path_normalize (47 ∷ []) up_and_down 16 ≡ some (47 ∷ 98 ∷ [])
unfolding path_normalize normalize_from drop_slashes name_of after_name put_name is_dot is_dot_dot
    drop_last up_to_slash put_all
root_b = refl

path_normalize_lem_example :
    ((out : List ℕ)
      → path_normalize (47 ∷ []) up_and_down 16 ≡ some out
      → (out ≡ shown (components_left (47 ∷ []) up_and_down)) × (length out < 16))
    × (min 2047 (length (full_path (47 ∷ []) up_and_down)) + 3 ≤ 16
        → (out : List ℕ) × (path_normalize (47 ∷ []) up_and_down 16 ≡ some out))
path_normalize_lem_example = path_normalize_lem (47 ∷ []) up_and_down 16 (omega arith)

-- ===== src/Tests/Strings.antt =====
-- A short text in memory and one call of `strtok_r` on it.
use c_loyha.Base.{◌≡◌, refl, arith, some, ◌==◌, if◌then◌else◌, ◌||◌}
use c_loyha.Libc.{Bytes, Cut, strtok_r, memmove}
use c_loyha.Libc.Blocks.{moved, memmove_lem}
use c_loyha.Libc.Ends.{IsString, AreBytes}
use c_loyha.Libc.Split.{NextToken, strtok_r_lem}

-- "/ab/" at 0, and "/" at 5.
abbrev text : Bytes
text a =
    if a == 1 then 97 else if a == 2 then 98 else if (a == 0) || (a == 3) || (a == 5) then 47 else 0

text-AreBytes : AreBytes text
text-AreBytes a = ground arith

text-IsString : IsString text 0 4
text-IsString = (refl, λ i lt. ground arith)

slash-IsString : IsString text 5 1
slash-IsString = (refl, λ i lt. ground arith)

strtok_r_lem_example :
    (c : Cut) × (strtok_r 5 2 text (some 0) 5 0 ≡ some c) × NextToken text 0 4 5 1 c
strtok_r_lem_example =
    strtok_r_lem 5 2 text 0 4 5 1 0 text-AreBytes text-IsString slash-IsString (omega arith)
      (omega arith)

-- Three bytes are moved one place up, over themselves.
memmove_lem_example : memmove text 1 0 3 3 ≡ moved text 1 0 3 3
memmove_lem_example = memmove_lem text 1 0 3 3

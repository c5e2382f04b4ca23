-- ===== src/Libc.antt =====
-- user/libc/string.c: strings and blocks of bytes in memory. A pointer is an address, a byte is a
-- number below 256, and a loop that stops only at the end of a string has a number of rounds as fuel.
pub mod Blocks
pub mod Ends
pub mod Split
use c_loyha.Base.{ℕ, zero, suc, ◌+◌, ◌-◌, ◌%◌, ◌<◌, Bool, true, false, not, ◌&&◌, ◌||◌, ◌==◌}
use c_loyha.Base.{leb, ltb, if◌then◌else◌, Option, none, some, min}
use c_loyha.Abi.{ℤ, pos, negsuc}

abbrev pub Bytes : Type 0
Bytes = ℕ → ℕ

-- `*p = b`
abbrev pub put : Bytes → ℕ → ℕ → Bytes
put mem p b a = if a == p then b else mem a

-- `x - y` of two bytes as an int.
unfoldable pub byte_diff : ℕ → ℕ → ℤ
byte_diff x y = if ltb x y then negsuc (y - x - 1) else pos (x - y)

unfoldable pub memset : Bytes → ℕ → ℕ → ℕ → Bytes
memset mem d c zero = mem
memset mem d c (suc n) = memset (put mem d (c % 256)) (d + 1) c n

unfoldable pub memcpy : Bytes → ℕ → ℕ → ℕ → Bytes
memcpy mem d s zero = mem
memcpy mem d s (suc n) = memcpy (put mem d (mem s)) (d + 1) (s + 1) n

-- `while (n--) d[n] = s[n]`
unfoldable pub copy_back : Bytes → ℕ → ℕ → ℕ → Bytes
copy_back mem d s zero = mem
copy_back mem d s (suc n) = copy_back (put mem (d + n) (mem (s + n))) d s n

unfoldable pub memmove : Bytes → ℕ → ℕ → ℕ → Bytes
memmove mem d s n = if ltb d s || leb (s + n) d then memcpy mem d s n else copy_back mem d s n

unfoldable pub memcmp : Bytes → ℕ → ℕ → ℕ → ℤ
memcmp mem x y zero = pos 0
memcmp mem x y (suc n) =
    if mem x == mem y then memcmp mem (x + 1) (y + 1) n else byte_diff (mem x) (mem y)

unfoldable pub memchr : Bytes → ℕ → ℕ → ℕ → Option ℕ
memchr mem p c zero = none
memchr mem p c (suc n) = if mem p == c % 256 then some p else memchr mem (p + 1) c n

-- `while (s[n]) n++` from an index on, and whether the fuel was enough.
unfoldable pub count_to_end : ℕ → Bytes → ℕ → ℕ → Option ℕ
count_to_end zero mem s n = none
count_to_end (suc fuel) mem s n =
    if mem (s + n) == 0 then some n else count_to_end fuel mem s (n + 1)

unfoldable pub strlen : ℕ → Bytes → ℕ → Option ℕ
strlen fuel mem s = count_to_end fuel mem s 0

-- `left` is `max - n`.
unfoldable pub count_up_to : (left : ℕ) → Bytes → ℕ → ℕ → ℕ
count_up_to zero mem s n = n
count_up_to (suc left) mem s n = if mem (s + n) == 0 then n else count_up_to left mem s (n + 1)

unfoldable pub strnlen : Bytes → ℕ → ℕ → ℕ
strnlen mem s max = count_up_to max mem s 0

unfoldable pub strcmp : ℕ → Bytes → ℕ → ℕ → Option ℤ
strcmp zero mem a b = none
strcmp (suc fuel) mem a b =
    if not (mem a == 0) && (mem a == mem b)
    then strcmp fuel mem (a + 1) (b + 1)
    else some (byte_diff (mem a) (mem b))

unfoldable pub strncmp : Bytes → ℕ → ℕ → ℕ → ℤ
strncmp mem a b zero = pos 0
strncmp mem a b (suc n) =
    if not (mem a == 0) && (mem a == mem b)
    then strncmp mem (a + 1) (b + 1) n
    else byte_diff (mem a) (mem b)

-- The copied byte is tested after it is written.
unfoldable pub strcpy : ℕ → Bytes → ℕ → ℕ → Option Bytes
strcpy zero mem d s = none
strcpy (suc fuel) mem d s =
    if mem s == 0 then some (put mem d (mem s)) else strcpy fuel (put mem d (mem s)) (d + 1) (s + 1)

-- The second loop of `strncpy`; `left` is `n - i`.
unfoldable pub fill_zeros : (left : ℕ) → Bytes → ℕ → ℕ → Bytes
fill_zeros zero mem dst i = mem
fill_zeros (suc left) mem dst i = fill_zeros left (put mem (dst + i) 0) dst (i + 1)

unfoldable pub copy_up_to : (left : ℕ) → Bytes → ℕ → ℕ → ℕ → Bytes
copy_up_to zero mem dst src i = mem
copy_up_to (suc left) mem dst src i =
    if mem (src + i) == 0
    then fill_zeros (suc left) mem dst i
    else copy_up_to left (put mem (dst + i) (mem (src + i))) dst src (i + 1)

unfoldable pub strncpy : Bytes → ℕ → ℕ → ℕ → Bytes
strncpy mem dst src n = copy_up_to n mem dst src 0

-- The copy of `strlcpy` once the length of the source is known.
unfoldable pub copy_cut : Bytes → ℕ → ℕ → ℕ → ℕ → Bytes
copy_cut mem dst src size len =
    if size == 0
    then mem
    else put (memcpy mem dst src (min len (size - 1))) (dst + min len (size - 1)) 0

unfoldable pub strlcpy : ℕ → Bytes → ℕ → ℕ → ℕ → Option (ℕ × Bytes)
strlcpy fuel mem dst src size = elim (strlen fuel mem src) [
  | none ↦ none
  | some len ↦ some (len, copy_cut mem dst src size len)
]

unfoldable pub strcat : ℕ → Bytes → ℕ → ℕ → Option Bytes
strcat fuel mem dst src = elim (strlen fuel mem dst) [
  | none ↦ none
  | some len ↦ strcpy fuel mem (dst + len) src
]

-- The inner `none` is NULL.
unfoldable pub strchr : ℕ → Bytes → ℕ → ℕ → Option (Option ℕ)
strchr zero mem s c = none
strchr (suc fuel) mem s c =
    if mem s == c % 256
    then some (some s)
    else if mem s == 0
    then some none
    else strchr fuel mem (s + 1) c

unfoldable pub last_chr : ℕ → Bytes → ℕ → ℕ → Option ℕ → Option (Option ℕ)
last_chr zero mem s c last = none
last_chr (suc fuel) mem s c last =
    let seen = if mem s == c % 256 then some s else last in
    if mem s == 0 then some seen else last_chr fuel mem (s + 1) c seen

unfoldable pub strrchr : ℕ → Bytes → ℕ → ℕ → Option (Option ℕ)
strrchr fuel mem s c = last_chr fuel mem s c none

unfoldable pub find_str : ℕ → Bytes → ℕ → ℕ → ℕ → Option (Option ℕ)
find_str zero mem s sub n = none
find_str (suc fuel) mem s sub n =
    if mem s == 0 then some (if n == 0 then some s else none) else elim (strncmp mem s sub n) [
      | pos zero ↦ some (some s)
      | _ ↦ find_str fuel mem (s + 1) sub n
    ]

unfoldable pub strstr : ℕ → Bytes → ℕ → ℕ → Option (Option ℕ)
strstr fuel mem s sub = elim (strlen fuel mem sub) [
  | none ↦ none
  | some n ↦ find_str fuel mem s sub n
]

-- `while (s[n] && strchr(set, s[n])) n++` with `wanted`, and with `!strchr` without. `bound` is the
-- fuel of each search in the set.
unfoldable pub span : ℕ → (bound : ℕ) → Bool → Bytes → ℕ → ℕ → ℕ → Option ℕ
span zero bound wanted mem s set n = none
span (suc fuel) bound wanted mem s set n =
    let rest = span fuel bound wanted mem s set (n + 1) in
    if mem (s + n) == 0 then some n else elim (strchr bound mem set (mem (s + n))) [
      | none ↦ none
      | some none ↦ if wanted then some n else rest
      | some (some at) ↦ if wanted then rest else some n
    ]

unfoldable pub strspn : ℕ → ℕ → Bytes → ℕ → ℕ → Option ℕ
strspn fuel bound mem s accept = span fuel bound true mem s accept 0

unfoldable pub strcspn : ℕ → ℕ → Bytes → ℕ → ℕ → Option ℕ
strcspn fuel bound mem s reject = span fuel bound false mem s reject 0

-- What `strtok_r` returns, with `*save` and the memory after it.
pub record Cut : Type 0 where
  pub token : Option ℕ
  pub saved : ℕ
  pub memory : Bytes

-- The end of a token at `s` that stops at `stop`.
unfoldable pub cut_token : Bytes → ℕ → ℕ → Cut
cut_token mem s stop =
    if mem stop == 0
    then record { token = some s; saved = stop; memory = mem }
    else record { token = some s; saved = stop + 1; memory = put mem stop 0 }

unfoldable pub cut_from : ℕ → ℕ → Bytes → ℕ → ℕ → Option Cut
cut_from fuel bound mem s delim = elim (strspn fuel bound mem s delim) [
  | none ↦ none
  | some skipped ↦
      if mem (s + skipped) == 0
      then some (record { token = none; saved = s + skipped; memory = mem })
      else elim (strcspn fuel bound mem (s + skipped) delim) [
        | none ↦ none
        | some kept ↦ some (cut_token mem (s + skipped) (s + skipped + kept))
      ]
]

-- `none` for the string is NULL: the search goes on from `*save`.
unfoldable pub strtok_r : ℕ → ℕ → Bytes → Option ℕ → ℕ → ℕ → Option Cut
strtok_r fuel bound mem (some s) delim save = cut_from fuel bound mem s delim
strtok_r fuel bound mem none delim save = cut_from fuel bound mem save delim

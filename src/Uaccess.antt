-- ===== src/Uaccess.antt =====
-- kernel/sys/uaccess.c: copying between the kernel and the memory of a program. The structures that
-- cross here are made of 64-bit words, so the memory is read and written by words. Whether a range
-- may be touched is what `mm_prefault` answers for it.
use c_loyha.Base.{ℕ, zero, suc, ◌+◌, ◌*◌, ◌<◌, ◌≡◌, refl, ap₂, Bool, true, false, ◌==◌}
use c_loyha.Base.{if◌then◌else◌, Option, none, some, List, [], ◌∷◌, length, arith}

pub record UserMem : Type 0 where
  pub prefault : ℕ → ℕ → Bool → Bool
  pub word : ℕ → ℕ

unfoldable pub user_ok : UserMem → ℕ → ℕ → Bool → Bool
user_ok m addr len write = m.prefault addr len write

abbrev pub write_word : (ℕ → ℕ) → ℕ → ℕ → ℕ → ℕ
write_word mem dst w a = if a == dst then w else mem a

-- `memcpy` of the words to the addresses from `dst` on.
unfoldable pub store : (ℕ → ℕ) → ℕ → List ℕ → ℕ → ℕ
store mem dst [] = mem
store mem dst (w ∷ ws) = store (write_word mem dst w) (dst + 8) ws

unfoldable pub load : (ℕ → ℕ) → ℕ → ℕ → List ℕ
load mem src zero = []
load mem src (suc n) = mem src ∷ load mem (src + 8) n

-- `none` is -EFAULT.
unfoldable pub copy_to_user : UserMem → ℕ → List ℕ → Option UserMem
unfolding user_ok
copy_to_user m dst ws =
    if user_ok m dst (8 * length ws) true
    then some (record m { word = store m.word dst ws })
    else none

unfoldable pub copy_from_user : UserMem → ℕ → ℕ → Option (List ℕ)
unfolding user_ok
copy_from_user m src n = if user_ok m src (8 * n) false then some (load m.word src n) else none

store_below : (mem : ℕ → ℕ) (dst a : ℕ) (ws : List ℕ) → a < dst → store mem dst ws a ≡ mem a
unfolding store
store_below mem dst a [] lt = refl
store_below mem dst a (w ∷ ws) lt =
    ground (arith, store_below (write_word mem dst w) (dst + 8) a ws (omega arith))

-- What was copied to an address is read back from it.
pub load-store :
    (mem : ℕ → ℕ) (dst : ℕ) (ws : List ℕ) → load (store mem dst ws) dst (length ws) ≡ ws
unfolding load store
load-store mem dst [] = refl
load-store mem dst (w ∷ ws) =
    ap₂ ◌∷◌ (ground (arith, store_below (write_word mem dst w) (dst + 8) dst ws (omega arith)))
      (load-store (write_word mem dst w) (dst + 8) ws)

-- Words below the copied ones keep their value.
pub copy_to_user_below :
    (m : UserMem) (dst a : ℕ) (ws : List ℕ) {m' : UserMem}
    → copy_to_user m dst ws ≡ some m'
    → a < dst
    → m'.word a ≡ m.word a
unfolding copy_to_user
copy_to_user_below m dst a ws done' lt = ground (arith, store_below m.word dst a ws lt)

-- What a successful copy leaves in memory, and what a permitted read brings back.
pub word-copy_to_user :
    (m : UserMem) (dst : ℕ) (ws : List ℕ) {m' : UserMem}
    → copy_to_user m dst ws ≡ some m'
    → m'.word ≡ store m.word dst ws
unfolding copy_to_user
word-copy_to_user m dst ws done' = ground arith

pub copy_from_user-load :
    (m : UserMem) (src n : ℕ)
    → user_ok m src (8 * n) false ≡ true
    → copy_from_user m src n ≡ some (load m.word src n)
unfolding copy_from_user
copy_from_user-load m src n permitted = ground arith

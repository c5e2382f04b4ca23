-- ===== src/Libc/Blocks.antt =====
-- What `memcpy` and `memmove` do to each byte of the memory.
use c_loyha.Base.{ℕ, zero, suc, ◌+◌, ◌-◌, ◌≤◌, ◌≡◌, ◌⊎◌, inl, inr, arith}
use c_loyha.Base.{◌&&◌, ◌||◌, leb, ltb, if◌then◌else◌, Bool-cases}
use c_loyha.Libc.{Bytes, put, memcpy, copy_back, memmove}

-- The byte at `a` after `n` bytes from `s` on have taken the places from `d` on.
abbrev pub moved : Bytes → ℕ → ℕ → ℕ → ℕ → ℕ
moved mem d s n a = if leb d a && ltb a (d + n) then mem (s + (a - d)) else mem a

-- Upwards, when no byte is overwritten before it is read.
pub memcpy-moved :
    (mem : Bytes) (d s n a : ℕ) → (d ≤ s) ⊎ (s + n ≤ d) → memcpy mem d s n a ≡ moved mem d s n a
unfolding memcpy
memcpy-moved mem d s zero a apart = ground arith
memcpy-moved mem d s (suc n) a apart =
    ground (arith, memcpy-moved (put mem d (mem s)) (d + 1) (s + 1) n a)

copy_back-moved : (mem : Bytes) (d s n a : ℕ) → s ≤ d → copy_back mem d s n a ≡ moved mem d s n a
unfolding copy_back
copy_back-moved mem d s zero a le = ground arith
copy_back-moved mem d s (suc n) a le =
    ground (arith, copy_back-moved (put mem (d + n) (mem (s + n))) d s n a le)

-- A block is moved whole wherever the two places overlap: each byte of the target gets the byte that
-- stood in the source before the call, and no other byte changes.
pub memmove_lem : (mem : Bytes) (d s n a : ℕ) → memmove mem d s n a ≡ moved mem d s n a
unfolding memmove
memmove_lem mem d s n a = elim (Bool-cases (ltb d s || leb (s + n) d)) [
  | inl up ↦ rw up (memcpy-moved mem d s n a (ground arith))
  | inr down ↦ rw down (copy_back-moved mem d s n a (ground arith))
]

-- ===== src/Strings/Copy.antt =====
-- `memcpy` against a plain copy.
use cheet_os.Base.{
  ℕ, zero, suc, ◌+◌, ◌-◌, ◌*◌, ◌/◌, ◌%◌, ◌≤◌, ◌≡◌, ◌⊎◌, ◌&&◌, ltb, leb, if◌then◌else◌, arith,
}
use cheet_os.Screen.{store}
use cheet_os.Strings.{move_dword, move_dwords, memcpy_bottom, memcpy_aligned, memcpy_top, memcpy}

-- The two ranges share no address.
abbrev pub Apart : (dest src n : ℕ) → Type 0
Apart dest src n = (dest + n ≤ src) ⊎ (src + n ≤ dest)

-- The memory after a copy of `n` bytes.
abbrev copied : (ℕ → ℕ) → (dest src n a : ℕ) → ℕ
copied m dest src n a = if leb dest a && ltb a (dest + n) then m (src + (a - dest)) else m a

memcpy_bottom_lem :
    (m : ℕ → ℕ) (dest src n a : ℕ)
    → Apart dest src n
    → memcpy_bottom m dest src n a ≡ copied m dest src n a
unfolding memcpy_bottom store
memcpy_bottom_lem m dest src zero a h = ground arith
memcpy_bottom_lem m dest src (suc n) a h =
    ground (arith, memcpy_bottom_lem (store m dest (m src)) (dest + 1) (src + 1) n a)

move_dword_lem :
    (m : ℕ → ℕ) (dest src a : ℕ)
    → Apart dest src 4
    → move_dword m dest src a ≡ copied m dest src 4 a
unfolding move_dword store
move_dword_lem m dest src a h = ground arith

move_dwords_lem :
    (m : ℕ → ℕ) (dest src n a : ℕ)
    → Apart dest src (4 * n)
    → move_dwords m dest src n a ≡ copied m dest src (4 * n) a
unfolding move_dwords
move_dwords_lem m dest src zero a h = ground arith
move_dwords_lem m dest src (suc n) a h = ground (
  arith,
  move_dwords_lem (move_dword m dest src) (dest + 4) (src + 4) n a,
  move_dword_lem m dest src a,
  move_dword_lem m dest src (src + 4 + (a - (dest + 4))),
)

memcpy_aligned_lem :
    (m : ℕ → ℕ) (dest src n a : ℕ)
    → Apart dest src n
    → memcpy_aligned m dest src n a ≡ copied m dest src n a
unfolding memcpy_aligned
memcpy_aligned_lem m dest src n a h =
    let k = 4 * (n / 4) in
    ground (
      arith,
      memcpy_bottom_lem (move_dwords m dest src (n / 4)) (dest + k) (src + k) (n % 4) a,
      move_dwords_lem m dest src (n / 4) a,
      move_dwords_lem m dest src (n / 4) (src + k + (a - (dest + k))),
    )

memcpy_top_lem :
    (m : ℕ → ℕ) (dest src n a : ℕ)
    → Apart dest src n
    → memcpy_top m dest src n a ≡ copied m dest src n a
unfolding memcpy_top store
memcpy_top_lem m dest src zero a h = ground arith
memcpy_top_lem m dest src (suc n) a h = ground (
  arith,
  memcpy_aligned_lem m dest src (suc n) a h,
  memcpy_top_lem (store m dest (m src)) (dest + 1) (src + 1) n a,
)

-- Between ranges that share no address, `memcpy`, by bytes up to a multiple of four, by words and by
-- bytes again, copies the `n` bytes from `src` on to `dest`, and changes no other byte.
pub memcpy_lem :
    (m : ℕ → ℕ) (dest src n a : ℕ)
    → Apart dest src n
    → memcpy m dest src n a ≡ (if leb dest a && ltb a (dest + n) then m (src + (a - dest)) else m a)
unfolding memcpy
memcpy_lem m dest src n a h = memcpy_top_lem m dest src n a h

-- ===== src/Strings/Fill.antt =====
-- `memset` against a plain fill.
use cheet_os.Base.{ℕ, zero, suc, ◌+◌, ◌*◌, ◌/◌, ◌%◌, ◌<◌, ◌≡◌, ◌&&◌, ltb, leb, if◌then◌else◌, arith}
use cheet_os.Screen.{store}
use cheet_os.Strings.{
  store_dword, memset_dword, memset_bottom, four, memset_aligned, memset_top, memset,
}

memset_bottom_lem :
    (m : ℕ → ℕ) (s c n a : ℕ)
    → memset_bottom m s c n a ≡ (if leb s a && ltb a (s + n) then c else m a)
unfolding memset_bottom store
memset_bottom_lem m s c zero a = ground arith
memset_bottom_lem m s c (suc n) a = ground (arith, memset_bottom_lem (store m s c) (s + 1) c n a)

store_dword-four :
    (m : ℕ → ℕ) (s c a : ℕ)
    → c < 256
    → store_dword m s (four c) a ≡ (if leb s a && ltb a (s + 4) then c else m a)
unfolding store_dword store
store_dword-four m s c a h = ground arith

memset_dword-four :
    (m : ℕ → ℕ) (s c n a : ℕ)
    → c < 256
    → memset_dword m s (four c) n a ≡ (if leb s a && ltb a (s + 4 * n) then c else m a)
unfolding memset_dword
memset_dword-four m s c zero a h = ground arith
memset_dword-four m s c (suc n) a h = ground (
  arith,
  memset_dword-four (store_dword m s (four c)) (s + 4) c n a h,
  store_dword-four m s c a h,
)

memset_aligned_lem :
    (m : ℕ → ℕ) (s c n a : ℕ)
    → c < 256
    → memset_aligned m s c n a ≡ (if leb s a && ltb a (s + n) then c else m a)
unfolding memset_aligned
memset_aligned_lem m s c n a h = ground (
  arith,
  memset_bottom_lem (memset_dword m s (four c) (n / 4)) (s + 4 * (n / 4)) c (n % 4) a,
  memset_dword-four m s c (n / 4) a h,
)

memset_top_lem :
    (m : ℕ → ℕ) (s c n a : ℕ)
    → c < 256
    → memset_top m s c n a ≡ (if leb s a && ltb a (s + n) then c else m a)
unfolding memset_top store
memset_top_lem m s c zero a h = ground arith
memset_top_lem m s c (suc n) a h =
    ground
      (arith, memset_aligned_lem m s c (suc n) a h, memset_top_lem (store m s c) (s + 1) c n a h)

-- `memset`, by bytes up to a multiple of four, by words and by bytes again, stores the low byte of `c`
-- in each of the `n` bytes from `s` on, and changes no other byte.
pub memset_lem :
    (m : ℕ → ℕ) (s c n a : ℕ)
    → memset m s c n a ≡ (if leb s a && ltb a (s + n) then c % 256 else m a)
unfolding memset
memset_lem m s c n a = memset_top_lem m s (c % 256) n a (omega arith)

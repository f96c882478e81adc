-- ===== src/Programs.antt =====
-- syscalls/ece391*.c: the programs that run on the kernel, over the calls that they make.
pub mod Support
pub mod Kernel
pub mod Cat
pub mod Listing
pub mod Ls
pub mod Shell
pub mod Script
pub mod Session
pub mod Grep
pub mod Syserr
pub mod Emulate
pub mod Counting
pub mod Tests
use cheet_os.Base.{
  ℕ, zero, suc, ◌+◌, ◌-◌, Bool, true, false, not, ◌&&◌, ◌||◌, Option, none, some, List, [], ◌∷◌,
  ◌==◌, ltb, leb, if◌then◌else◌, get_or, bytes, ◌>>=◌, minus_one, sub32,
}
use cheet_os.Screen.{store}
use cheet_os.Strings.{itoa}

-- The calls of ece391syscall.S, on the state of the machine; a buffer is memory from its first byte on.
-- `none` is a call that does not come back.
pub record Calls (σ : Type 0) : Type 0 where
  pub getargs : (buf : ℕ → ℕ) → (nbytes : ℕ) → σ → Option (ℕ × (ℕ → ℕ) × σ)
  pub open_file : (filename : ℕ → ℕ) → σ → Option (ℕ × σ)
  pub read : (fd : ℕ) → (buf : ℕ → ℕ) → (nbytes : ℕ) → σ → Option (ℕ × (ℕ → ℕ) × σ)
  pub write : (fd : ℕ) → (buf : ℕ → ℕ) → (nbytes : ℕ) → σ → Option (ℕ × σ)
  pub close : (fd : ℕ) → σ → Option (ℕ × σ)

-- A pointer into a buffer, and a string literal.
abbrev pub from : (ℕ → ℕ) → ℕ → ℕ → ℕ
from m a i = m (a + i)

abbrev pub literal : List ℕ → ℕ → ℕ
literal text i = get_or text i 0

-- The loops of ece391support.c; those over strings are on fuel.
unfoldable pub ece391_strlen : (fuel : ℕ) → (ℕ → ℕ) → (len : ℕ) → Option ℕ
ece391_strlen zero s len = none
ece391_strlen (suc fuel) s len =
    let rest = ece391_strlen fuel s (len + 1) in if s len == 0 then some len else rest

unfoldable pub ece391_strcpy : (fuel : ℕ) → (ℕ → ℕ) → (dst src : ℕ) → Option (ℕ → ℕ)
ece391_strcpy zero m dst src = none
ece391_strcpy (suc fuel) m dst src =
    let m' = store m dst (m src) in
    let rest = ece391_strcpy fuel m' (dst + 1) (src + 1) in if m src == 0 then some m' else rest

unfoldable pub ece391_strcmp : (fuel : ℕ) → (s1 s2 : ℕ → ℕ) → (i : ℕ) → Option ℕ
ece391_strcmp zero s1 s2 i = none
ece391_strcmp (suc fuel) s1 s2 i =
    let rest = ece391_strcmp fuel s1 s2 (i + 1) in
    if s1 i == s2 i then (if s1 i == 0 then some 0 else rest) else some (sub32 (s1 i) (s2 i))

unfoldable pub ece391_strncmp : (s1 s2 : ℕ → ℕ) → (i n : ℕ) → ℕ
ece391_strncmp s1 s2 i zero = 0
ece391_strncmp s1 s2 i (suc n) =
    let rest = ece391_strncmp s1 s2 (i + 1) n in
    if s1 i == s2 i then (if s1 i == 0 || n == 0 then 0 else rest) else sub32 (s1 i) (s2 i)

-- `ece391_itoa` has the text of the kernel's.
unfoldable pub ece391_itoa : (ℕ → ℕ) → (value buf radix : ℕ) → ℕ → ℕ
ece391_itoa m value buf radix = itoa m value buf radix

-- A program returns a status and the machine; `none` stands for one that has not come to its end with
-- the fuel, which also bounds the strings.
abbrev pub Status : Type 0 → Type 0
Status σ = Option (ℕ × σ)

module _ {σ : Type 0} (sys : Calls σ) where
  unfoldable pub ece391_fdputs : (fuel fd : ℕ) → (ℕ → ℕ) → σ → Option σ
  ece391_fdputs fuel fd s m = do
    len ← ece391_strlen fuel s 0
    done ← sys.write fd s len m
    some done.1

  -- A message on the standard output, and the return that follows it.
  unfoldable pub leave : (message : List ℕ) → (status : ℕ) → σ → Status σ
  leave message status m = do m' ← ece391_fdputs 100 1 (literal message) m; some (status, m')

  unfoldable pub testprint : σ → Status σ
  testprint m = leave (bytes "Hello, if this ran, the program was correct. Yay!\n") 0 m

  unfoldable pub hello : (buf : ℕ → ℕ) → σ → Status σ
  hello buf m = do
    m1 ← ece391_fdputs 100 1 (literal (bytes "Hi, what's your name? ")) m
    answer ← sys.read 0 buf 1023 m1
    let (cnt, buf1, m2) = answer
    (if cnt == minus_one then leave (bytes "Can't read name from keyboard.\n") 3 m2 else do
      m3 ← ece391_fdputs 100 1 (literal (bytes "Hello, ")) m2
      m4 ← ece391_fdputs 1024 1 (store buf1 cnt 0) m3
      some (0, m4))

  -- The loop of cat.
  unfoldable pub cat_from : (fuel fd : ℕ) → (buf : ℕ → ℕ) → σ → Status σ
  cat_from zero fd buf m = none
  cat_from (suc fuel) fd buf m = do
    answer ← sys.read fd buf 1024 m
    let (cnt, buf1, m1) = answer
    (if cnt == 0
        then some (0, m1)
        else if cnt == minus_one
        then leave (bytes "file read failed\n") 3 m1
        else do
          done ← sys.write 1 buf1 cnt m1
          let rest = cat_from fuel fd buf1 done.1
          (if done.0 == minus_one then some (3, done.1) else rest))

  unfoldable pub cat : (fuel : ℕ) → (buf : ℕ → ℕ) → σ → Status σ
  cat fuel buf m = do
    args ← sys.getargs buf 1024 m
    let (failed, buf1, m1) = args
    (if not (failed == 0) then leave (bytes "could not read arguments\n") 3 m1 else do
      file ← sys.open_file buf1 m1
      (if file.0 == minus_one
          then leave (bytes "file not found\n") 2 file.1
          else cat_from fuel file.0 buf1 file.1))

  -- The loop of ls, with its buffer of 33 bytes.
  unfoldable pub ls_from : (fuel fd : ℕ) → (buf : ℕ → ℕ) → σ → Status σ
  ls_from zero fd buf m = none
  ls_from (suc fuel) fd buf m = do
    answer ← sys.read fd buf 32 m
    let (cnt, buf1, m1) = answer
    (if cnt == 0
        then some (0, m1)
        else if cnt == minus_one
        then leave (bytes "directory entry read failed\n") 3 m1
        else do
          let buf2 = store buf1 cnt b'\n'
          done ← sys.write 1 buf2 (cnt + 1) m1
          let rest = ls_from fuel fd buf2 done.1
          (if done.0 == minus_one then some (3, done.1) else rest))

  unfoldable pub ls : (fuel : ℕ) → (buf : ℕ → ℕ) → σ → Status σ
  ls fuel buf m = do
    dir ← sys.open_file (literal (bytes ".")) m
    (if dir.0 == minus_one
        then leave (bytes "directory open failed\n") 2 dir.1
        else ls_from fuel dir.0 buf dir.1)

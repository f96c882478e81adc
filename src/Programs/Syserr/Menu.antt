-- ===== src/Programs/Syserr/Menu.antt =====
-- syserr: the tests of `vidmap` and of unknown calls, and `main`.
use cheet_os.Base.{ℕ, ◌+◌, ◌-◌, ◌^◌, not, Option, ◌==◌, if◌then◌else◌, bytes, ◌>>=◌, minus_one}
use cheet_os.Programs.{Calls, Status, literal, ece391_fdputs, leave}
use cheet_os.Programs.Syserr.{
  checked, verdict, err_neg_fd, err_big_fd, err_open_lots, err_open, err_unopened, err_stdin_out,
}

-- 1073741823 and -1073741823
abbrev pub big_num : ℕ
big_num = 1073741823

abbrev pub neg_num : ℕ
neg_num = 2 ^ 32 - 1073741823

-- `vidmap` and the trap with a number are calls that the record of the other programs does not have.
module _ {σ : Type 0} (sys : Calls σ) (vidmap : (screen_start : ℕ) → σ → Option (ℕ × σ))
    (call_sys : (num : ℕ) → σ → Option (ℕ × σ)) where
  unfoldable pub err_vidmap : σ → Status σ
  err_vidmap m = do
    r1 ← vidmap 0 m
    a1 ← checked sys r1.0 (bytes "Null pointer fail\n") 0 r1.1
    r2 ← vidmap 0x400000 a1.1
    a2 ← checked sys r2.0 (bytes "Kernel pointer fail fail\n") a1.0 r2.1
    verdict sys (bytes "err_vidmap") a2.0 a2.1

  unfoldable pub err_syscall_num : σ → Status σ
  err_syscall_num m = do
    r1 ← call_sys big_num m
    a1 ← checked sys r1.0 (bytes "syscall 0 fail\n") 0 r1.1
    r2 ← call_sys neg_num a1.1
    a2 ← checked sys r2.0 (bytes "big num syscall fail\n") a1.0 r2.1
    r3 ← call_sys 0 a2.1
    a3 ← checked sys r3.0 (bytes "neg num syscall fail\n") a2.0 r3.1
    verdict sys (bytes "err_syscall_num") a3.0 a3.1

  -- The choice 0: every test, and the sum of their results. `stack` is what each test finds where it has
  -- its buffer.
  unfoldable pub run_all : (stack : ℕ → ℕ) → σ → Status σ
  run_all stack m = do
    a ← err_neg_fd sys stack m
    b ← err_big_fd sys stack a.1
    c ← err_open_lots sys b.1
    d ← err_open sys c.1
    e ← err_unopened sys stack d.1
    f ← err_vidmap e.1
    g ← err_stdin_out sys stack f.1
    h ← err_syscall_num g.1
    let fail = a.0 + b.0 + c.0 + d.0 + e.0 + f.0 + g.0 + h.0
    (if not (fail == 0)
        then leave sys (bytes "\nOverall Tests: FAIL\n") fail h.1
        else leave sys (bytes "\nOverall Tests: PASS\n") fail h.1)

  -- The `switch` on the first character.
  unfoldable pub select : (c : ℕ) → (stack : ℕ → ℕ) → σ → Status σ
  select c stack m =
      if c == b'0'
      then run_all stack m
      else if c == b'1'
      then err_neg_fd sys stack m
      else if c == b'2'
      then err_big_fd sys stack m
      else if c == b'3'
      then err_open_lots sys m
      else if c == b'4'
      then err_open sys m
      else if c == b'5'
      then err_unopened sys stack m
      else if c == b'6'
      then err_vidmap m
      else if c == b'7'
      then err_stdin_out sys stack m
      else if c == b'8'
      then err_syscall_num m
      else leave sys (bytes "Invalid test number. Choose from tests 1-8 or 0") 0 m

  unfoldable pub syserr : (buf stack : ℕ → ℕ) → σ → Status σ
  syserr buf stack m = do
    m1 ← ece391_fdputs sys 100 1 (literal (bytes "Choose from tests 1-8. 0 to run all: ")) m
    answer ← sys.read 0 buf 127 m1
    let (cnt, buf1, m2) = answer
    (if cnt == minus_one
        then leave sys (bytes "Can't read test #\n") 2 m2
        else select (buf1 0) stack m2)

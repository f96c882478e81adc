-- ===== src/Programs/Syserr.antt =====
-- syscalls/ece391syserr.c: the tests of the errors of the calls on files.
pub mod Passes
pub mod Lots
pub mod Menu
use cheet_os.Base.{
  ℕ, zero, suc, ◌+◌, ◌-◌, ◌*◌, ◌^◌, Bool, true, false, not, Option, none, some, List, [], ◌∷◌, ◌++◌,
  ◌==◌, if◌then◌else◌, bytes, ◌>>=◌, minus_one,
}
use cheet_os.Programs.{Calls, Status, literal, ece391_fdputs, leave}

-- -1073741823 and 1073741823
abbrev pub neg_fd : ℕ
neg_fd = 2 ^ 32 - 1073741823

abbrev pub big_fd : ℕ
big_fd = 1073741823

module _ {σ : Type 0} (sys : Calls σ) where
  -- A call is to return -1; otherwise the message is written and `fail` becomes 2.
  unfoldable pub checked : (value : ℕ) → (message : List ℕ) → (fail : ℕ) → σ → Status σ
  checked value message fail m =
      if not (value == minus_one) then leave sys message 2 m else some (fail, m)

  unfoldable pub verdict : (name : List ℕ) → (fail : ℕ) → σ → Status σ
  verdict name fail m =
      if not (fail == 0)
      then leave sys (name ++ bytes ": FAIL\n") fail m
      else leave sys (name ++ bytes ": PASS\n") fail m

  -- A read, a write and a close of one descriptor, as in the first two tests.
  unfoldable pub err_fd : (fd : ℕ) → (name : List ℕ) → (buf : ℕ → ℕ) → σ → Status σ
  err_fd fd name buf m = do
    r ← sys.read fd buf 31 m
    a ← checked r.0 (bytes "read fail\n") 0 r.2
    w ← sys.write fd r.1 31 a.1
    b ← checked w.0 (bytes "write fail\n") a.0 w.1
    c ← sys.close fd b.1
    d ← checked c.0 (bytes "close fail\n") b.0 c.1
    verdict name d.0 d.1

  unfoldable pub err_neg_fd : (buf : ℕ → ℕ) → σ → Status σ
  err_neg_fd buf m = err_fd neg_fd (bytes "err_neg_fd") buf m

  unfoldable pub err_big_fd : (buf : ℕ → ℕ) → σ → Status σ
  err_big_fd buf m = err_fd big_fd (bytes "err_big_fd") buf m

  -- The two loops of the third test, with `todo` rounds to go.
  unfoldable pub open_lots : (todo cnt : ℕ) → σ → Status σ
  open_lots zero cnt m = some (cnt, m)
  open_lots (suc todo) cnt m = do
    r ← sys.open_file (literal (bytes ".")) m
    open_lots todo (if r.0 == minus_one then cnt + 1 else cnt) r.1

  unfoldable pub close_lots : (todo i : ℕ) → σ → Option σ
  close_lots zero i m = some m
  close_lots (suc todo) i m = do r ← sys.close i m; close_lots todo (i + 1) r.1

  unfoldable pub err_open_lots : σ → Status σ
  err_open_lots m = do
    r ← open_lots 7 0 m
    m1 ← close_lots 6 2 r.1
    (if r.0 == 1
        then leave sys (bytes "err_open_lots: PASS\n") 0 m1
        else leave sys (bytes "err_open_lots: FAIL\n") 2 m1)

  unfoldable pub err_open : σ → Status σ
  err_open m = do
    r1 ← sys.open_file (literal (bytes "helloo")) m
    a1 ← checked r1.0 (bytes "'helloo' fail\n") 0 r1.1
    r2 ← sys.open_file (literal (bytes "shel")) a1.1
    a2 ← checked r2.0 (bytes "'shel' fail\n") a1.0 r2.1
    r3 ← sys.open_file (literal []) a2.1
    a3 ← checked r3.0 (bytes "empty string fail\n") a2.0 r3.1
    verdict (bytes "err_open") a3.0 a3.1

  -- The three loops of the fifth test.
  unfoldable pub close_unopened : (todo i fail : ℕ) → σ → Status σ
  close_unopened zero i fail m = some (fail, m)
  close_unopened (suc todo) i fail m = do
    r ← sys.close i m
    a ← checked r.0 (bytes "close unopened or invalid fd fail\n") fail r.1
    close_unopened todo (i + 1) a.0 a.1

  unfoldable pub read_unopened : (todo i fail : ℕ) → (buf : ℕ → ℕ) → σ → Option ((ℕ → ℕ) × ℕ × σ)
  read_unopened zero i fail buf m = some (buf, fail, m)
  read_unopened (suc todo) i fail buf m = do
    r ← sys.read i buf 31 m
    a ← checked r.0 (bytes "read from unopened fd fail\n") fail r.2
    read_unopened todo (i + 1) a.0 r.1 a.1

  unfoldable pub write_unopened : (todo i fail : ℕ) → (buf : ℕ → ℕ) → σ → Status σ
  write_unopened zero i fail buf m = some (fail, m)
  write_unopened (suc todo) i fail buf m = do
    r ← sys.write i buf 31 m
    a ← checked r.0 (bytes "write to unopened fd fail\n") fail r.1
    write_unopened todo (i + 1) a.0 buf a.1

  unfoldable pub err_unopened : (buf : ℕ → ℕ) → σ → Status σ
  err_unopened buf m = do
    a ← close_unopened 8 0 0 m
    b ← read_unopened 6 2 a.0 buf a.1
    c ← write_unopened 6 2 b.1 b.0 b.2
    verdict (bytes "err_unopened") c.0 c.1

  unfoldable pub err_stdin_out : (buf : ℕ → ℕ) → σ → Status σ
  err_stdin_out buf m = do
    w ← sys.write 0 buf 31 m
    a ← checked w.0 (bytes "write to stdin fail\n") 0 w.1
    r ← sys.read 1 buf 31 a.1
    b ← checked r.0 (bytes "read from stdout fail\n") a.0 r.2
    verdict (bytes "err_stdin_out") b.0 b.1

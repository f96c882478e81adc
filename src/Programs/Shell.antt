-- ===== src/Programs/Shell.antt =====
-- syscalls/ece391shell.c and ece391counter.c: programs that converse with the terminal.
use cheet_os.Base.{
  ℕ, zero, suc, ◌+◌, ◌-◌, not, ◌&&◌, ◌||◌, Option, none, some, ◌==◌, ltb, if◌then◌else◌, bytes,
  ◌>>=◌, minus_one, lt_signed,
}
use cheet_os.Screen.{store}
use cheet_os.Programs.{
  Calls, Status, literal, ece391_strcmp, ece391_strlen, ece391_itoa, ece391_fdputs, leave,
}

-- The `switch` on the first character of the answer.
unfoldable pub choice : ℕ → ℕ
choice c = if c == b'0' then 100 else if c == b'1' then 10000 else if c == b'2' then 100000 else 0

-- The line's end is replaced by a 0.
unfoldable pub trimmed : (buf : ℕ → ℕ) → (cnt : ℕ) → ℕ → ℕ
trimmed buf cnt =
    let ends = lt_signed 0 cnt && buf (cnt - 1) == b'\n' in
    store buf (if ends then cnt - 1 else cnt) 0

module _ {σ : Type 0} (sys : Calls σ) where
  -- The loop of counter that prints the numbers behind `i`, with `todo` to go.
  unfoldable pub count_from : (todo i : ℕ) → (buf : ℕ → ℕ) → σ → Status σ
  count_from zero i buf m = some (0, m)
  count_from (suc todo) i buf m = do
    let buf1 = ece391_itoa buf (i + 1) 0 10
    m1 ← ece391_fdputs sys 1024 1 buf1 m
    m2 ← ece391_fdputs sys 100 1 (literal (bytes "\n")) m1
    count_from todo (i + 1) buf1 m2

  unfoldable pub counter : (buf : ℕ → ℕ) → σ → Status σ
  counter buf m = do
    m1 ←
        ece391_fdputs sys 100 1
          (literal (bytes "Enter the Test Number: (0): 100, (1): 10000, (2): 100000\n")) m
    answer ← sys.read 0 buf 1023 m1
    let (cnt, buf1, m2) = answer
    let buf2 = store buf1 cnt 0
    (if cnt == minus_one
        then leave sys (bytes "Can't read the number from keyboard.\n") 3 m2
        else do
          len ← ece391_strlen 1024 buf2 0
          (if ltb 2 len || (len == 2 && (ltb (buf2 0) b'0' || ltb b'2' (buf2 0)))
              then leave sys (bytes "Wrong Choice!\n") 0 m2
              else count_from (choice (buf2 0)) 0 buf2 m2))

  module _ (execute : (command : ℕ → ℕ) → σ → Option (ℕ × σ)) where
    -- What the shell says of the status of a command.
    unfoldable pub report : (rval : ℕ) → σ → Option σ
    report rval m =
        if rval == minus_one
        then ece391_fdputs sys 100 1 (literal (bytes "no such command\n")) m
        else if rval == 256
        then ece391_fdputs sys 100 1 (literal (bytes "program terminated by exception\n")) m
        else if not (rval == 0)
        then ece391_fdputs sys 100 1 (literal (bytes "program terminated abnormally\n")) m
        else some m

    -- What follows the comparison with "exit".
    unfoldable pub dispatch : (again : σ → Status σ) → (order : ℕ) → (buf : ℕ → ℕ) → σ → Status σ
    dispatch again order buf m =
        if order == 0
        then some (0, m)
        else if buf 0 == 0
        then again m
        else do done ← execute buf m; m' ← report done.0 done.1; again m'

    -- The rounds of the shell, on fuel.
    unfoldable pub shell_from : (fuel : ℕ) → (buf : ℕ → ℕ) → σ → Status σ
    shell_from zero buf m = none
    shell_from (suc fuel) buf m = do
      m1 ← ece391_fdputs sys 100 1 (literal (bytes "391OS> ")) m
      answer ← sys.read 0 buf 1023 m1
      let (cnt, buf1, m2) = answer
      let buf2 = trimmed buf1 cnt
      (if cnt == minus_one then leave sys (bytes "read from keyboard failed\n") 3 m2 else do
        order ← ece391_strcmp 1025 buf2 (literal (bytes "exit")) 0
        dispatch (shell_from fuel buf2) order buf2 m2)

    unfoldable pub shell : (fuel : ℕ) → (buf : ℕ → ℕ) → σ → Status σ
    shell fuel buf m = do
      m1 ← ece391_fdputs sys 100 1 (literal (bytes "Starting 391 Shell\n")) m
      shell_from fuel buf m1

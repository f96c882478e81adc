-- ===== src/Programs/Grep.antt =====
-- syscalls/ece391grep.c: the files of the directory searched for a text.
use cheet_os.Base.{
  ℕ, zero, suc, ◌+◌, ◌-◌, Bool, true, false, not, ◌&&◌, Option, none, some, ◌==◌, ltb, leb,
  if◌then◌else◌, bytes, ◌>>=◌, minus_one,
}
use cheet_os.Screen.{store}
use cheet_os.Programs.{
  Calls, Status, literal, from, ece391_strlen, ece391_strcpy, ece391_strncmp, ece391_fdputs, leave,
}

-- The loop that looks for the end of a line.
unfoldable pub line_end_from : (block : ℕ → ℕ) → (todo last line_end : ℕ) → ℕ
line_end_from block zero last line_end = line_end
line_end_from block (suc todo) last line_end =
    let rest = line_end_from block todo last (line_end + 1) in
    if ltb line_end last && not (block line_end == b'\n') then rest else line_end

-- The loop that looks for `s` from `check` on, with `todo` places to go; the
-- characters of `s` are signed, those of the block are not.
unfoldable pub found_from : (block s : ℕ → ℕ) → (s_len todo check : ℕ) → Bool
found_from block s s_len zero check = false
found_from block s s_len (suc todo) check =
    let rest = found_from block s s_len todo (check + 1) in
    if (ltb (s 0) 128 && s 0 == block check) && ece391_strncmp (from block check) s 0 s_len == 0
    then true
    else rest

module _ {σ : Type 0} (sys : Calls σ) (s fname : ℕ → ℕ) (s_len : ℕ) where
  -- The four calls that print a line.
  unfoldable pub print_line : (block : ℕ → ℕ) → (line_start : ℕ) → σ → Option σ
  print_line block line_start m = do
    m1 ← ece391_fdputs sys 100 1 fname m
    m2 ← ece391_fdputs sys 100 1 (literal (bytes ":")) m1
    m3 ← ece391_fdputs sys 1026 1 (from block line_start) m2
    ece391_fdputs sys 100 1 (literal (bytes "\n")) m3

  -- The loop over the lines in the buffer, on fuel; the result is the buffer and `last`.
  unfoldable pub lines_from :
      (fuel : ℕ) → (block : ℕ → ℕ) → (cnt last line_start : ℕ) → σ → Option ((ℕ → ℕ) × ℕ × σ)
  lines_from zero block cnt last line_start m = none
  lines_from (suc fuel) block cnt last line_start m =
      let line_end = line_end_from block (last - line_start) last line_start in
      let block1 = store block line_end 0 in
      if not (block line_end == b'\n') && (not (cnt == 0) && not (line_start == 0))
      then (do block2 ← ece391_strcpy 1026 block1 0 line_start; some (block2, last - line_start, m))
      else (do
        m1 ←
            (if found_from block1 s s_len (line_end - line_start) line_start
              then print_line block1 line_start m
              else some m)
        let rest = lines_from fuel block1 cnt last (line_end + 1) m1
        (if leb last (line_end + 1) then some (block1, 0, m1) else rest))

  unfoldable pub close_file : (fd : ℕ) → σ → Status σ
  close_file fd m = do
    done ← sys.close fd m
    (if done.0 == minus_one
        then leave sys (bytes "file close failed\n") minus_one done.1
        else some (0, done.1))

  -- The outer loop of `do_one_file`, on fuel; the lines of a buffer are at most 1025.
  unfoldable pub read_from : (fuel fd : ℕ) → (block : ℕ → ℕ) → (last : ℕ) → σ → Status σ
  read_from zero fd block last m = none
  read_from (suc fuel) fd block last m = do
    answer ← sys.read fd (from block last) (1024 - last) m
    let (cnt, tail, m1) = answer
    let block1 : ℕ → ℕ = λ i. if ltb i last then block i else tail (i - last)
    (if cnt == minus_one then leave sys (bytes "file read failed\n") minus_one m1 else do
      left ← lines_from 1026 block1 cnt (last + cnt) 0 m1
      let (block2, last2, m2) = left
      let rest = read_from fuel fd block2 last2 m2
      (if cnt == 0 then close_file fd m2 else rest))

module _ {σ : Type 0} (sys : Calls σ) where
  unfoldable pub do_one_file : (fuel : ℕ) → (s fname block : ℕ → ℕ) → σ → Status σ
  do_one_file fuel s fname block m = do
    s_len ← ece391_strlen 1025 s 0
    file ← sys.open_file fname m
    (if file.0 == minus_one
        then leave sys (bytes "file open failed\n") minus_one file.1
        else read_from sys s fname s_len fuel file.0 block 0 file.1)

  -- The loop over the directory; `block` is what the stack holds where `do_one_file` has its buffer.
  unfoldable pub grep_from : (fuel fd : ℕ) → (search buf block : ℕ → ℕ) → σ → Status σ
  grep_from zero fd search buf block m = none
  grep_from (suc fuel) fd search buf block m = do
    answer ← sys.read fd buf 32 m
    let (cnt, buf1, m1) = answer
    let buf2 = store buf1 cnt 0
    (if cnt == 0
        then some (0, m1)
        else if cnt == minus_one
        then leave sys (bytes "directory entry read failed\n") 3 m1
        else if buf1 0 == b'.'
        then grep_from fuel fd search buf1 block m1
        else do
          done ← do_one_file fuel search buf2 block m1
          let rest = grep_from fuel fd search buf2 block done.1
          (if not (done.0 == 0) then some (3, done.1) else rest))

  unfoldable pub grep : (fuel : ℕ) → (search buf block : ℕ → ℕ) → σ → Status σ
  grep fuel search buf block m = do
    args ← sys.getargs search 1024 m
    let (failed, search1, m1) = args
    (if not (failed == 0) then leave sys (bytes "could not read argument\n") 3 m1 else do
      dir ← sys.open_file (literal (bytes ".")) m1
      (if dir.0 == minus_one
          then leave sys (bytes "directory open failed\n") 2 dir.1
          else grep_from fuel dir.0 search1 buf block dir.1))

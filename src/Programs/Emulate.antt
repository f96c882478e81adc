-- ===== src/Programs/Emulate.antt =====
-- syscalls/ece391emulate.c: `ece391_execute` and `ece391_getargs` on a Linux host.
pub mod Stored
pub mod Same
use cheet_os.Base.{
  ℕ, zero, suc, ◌+◌, ◌-◌, Bool, ◌||◌, Option, none, some, List, [], ◌∷◌, ◌++◌, ◌==◌, ltb,
  if◌then◌else◌, bytes, length, ◌>>=◌, minus_one, lt_signed, sub32,
}
use cheet_os.Screen.{store}
use cheet_os.Files.{store_bytes}

-- A scan for the end of a word: the word, and what is behind the character that ends it.
unfoldable pub scan_word : List ℕ → List ℕ × List ℕ
scan_word [] = ([], [])
scan_word (c ∷ cs) =
    let (word, rest) = scan_word cs in
    if c == b' ' || c == b'\n' then ([], cs) else (c ∷ word, rest)

unfoldable pub skip_spaces : List ℕ → List ℕ
skip_spaces [] = []
skip_spaces (c ∷ cs) = let rest = skip_spaces cs in if c == b' ' then rest else c ∷ cs

-- The loop that fills `args` behind the name of the program; a word takes a character at least, so the
-- length of the text is fuel enough.
unfoldable pub args_from : (fuel : ℕ) → List ℕ → Option (List (List ℕ))
args_from zero text = none
args_from (suc fuel) text = elim (skip_spaces text) [
  | [] ↦ some []
  | c ∷ cs ↦
      let (word, rest) = scan_word (c ∷ cs) in
      let others = args_from fuel rest in
      if c == b'\n' then some [] else (do words ← others; some (word ∷ words))
]

-- How the child ends.
pub data Exit : Type 0 where
  exited : (status : ℕ) → Exit
  killed : (signal : ℕ) → Exit

abbrev pub rval : Exit → ℕ
rval (exited status) = status
rval (killed signal) = if signal == 9 then minus_one else 256

-- `run` is `fork`, `execv` of the file with the arguments, and `wait`.
unfoldable pub ece391_execute :
    {σ : Type 0}
    → (run : (file : List ℕ) → (args : List (List ℕ)) → σ → Option (Exit × σ)) → (command : List ℕ)
    → σ
    → Option (ℕ × σ)
ece391_execute run command m = if ltb 1023 (length command) then some (minus_one, m) else do
  let (name, rest) = scan_word command
  let file = bytes "./" ++ name
  args ← args_from (length command + 1) rest
  ended ← run file (file ∷ args) m
  some (rval ended.0, ended.1)

-- The loop over `argv` from index 1 on, at `buf` in the memory `m`.
unfoldable pub ece391_getargs : List (List ℕ) → (m : ℕ → ℕ) → (buf nbytes : ℕ) → ℕ × (ℕ → ℕ)
ece391_getargs [] m buf nbytes = if lt_signed nbytes 1 then (minus_one, m) else (0, store m buf 0)
ece391_getargs (arg ∷ []) m buf nbytes =
    let len = length arg in
    let m1 = store (store_bytes m buf arg) (buf + len) 0 in
    let left = sub32 nbytes len in
    if lt_signed nbytes len
    then (minus_one, m)
    else if lt_signed left 1
    then (minus_one, m1)
    else (0, store m1 (buf + len) 0)
ece391_getargs (arg ∷ next ∷ args) m buf nbytes =
    let len = length arg in
    let m1 = store (store_bytes m buf arg) (buf + len) 0 in
    let left = sub32 nbytes len in
    let rest =
      ece391_getargs (next ∷ args) (store m1 (buf + len) b' ') (buf + len + 1) (sub32 left 1) in
    if lt_signed nbytes len
    then (minus_one, m)
    else if lt_signed left 1
    then (minus_one, m1)
    else rest

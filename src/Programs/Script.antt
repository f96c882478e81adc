-- ===== src/Programs/Script.antt =====
-- A terminal with a script, and the session of the shell that the script stands for.
use cheet_os.Base.{
  ℕ, ◌<◌, ◌≤◌, min, suc, zero, ◌≡◌, refl, ◌≢◌, inl, inr, ap, sym, Option, none, some, List, [], ◌∷◌,
  ◌++◌, ◌==◌, if◌then◌else◌, get_or, bytes, minus_one, length, All, Bool-cases, append-nil, arith,
}
use mathlib.Core.Option
use cheet_os.Files.{store_bytes}
use cheet_os.Terminal.{max_input_chars}
use cheet_os.Terminal.Output.{text}
use cheet_os.Printf.{text_at}
use cheet_os.Programs.{Calls, literal, ece391_strlen, ece391_fdputs}
use cheet_os.Programs.Support.{IsByte, compared}
use cheet_os.Programs.Shell.{report}

-- What the terminal and the kernel see of a program.
pub data Event : Type 0 where
  wrote : List ℕ → Event
  ran : (command : List ℕ) → Event

-- A machine whose user types these lines, each followed by the return key; it keeps what has happened.
pub record Script : Type 0 where
  pub lines : List (List ℕ)
  pub events : List Event

-- The first `n` elements, and all of them if there are no more.
pub take : ℕ → List ℕ → List ℕ
take zero cs = []
take (suc n) [] = []
take (suc n) (c ∷ cs) = c ∷ take n cs

take-all : (n : ℕ) (cs : List ℕ) → length cs ≤ n → take n cs ≡ cs
unfolding take
take-all zero [] h = refl
take-all zero (c ∷ cs) h = absurd (omega arith)
take-all (suc n) [] h = refl
take-all (suc n) (c ∷ cs) h = ap (λ l. c ∷ l) (take-all n cs (omega arith))

-- A line as the terminal's driver gives it: what fits into the buffer and into its 128 characters, without
-- the return key.
typed : (nbytes : ℕ) → (ℕ → ℕ) → Script → Option (ℕ × (ℕ → ℕ) × Script)
typed nbytes buf m = elim m.lines [
  | [] ↦ none
  | line ∷ lines ↦
      let kept = take (min max_input_chars nbytes) line in
      some (length kept, store_bytes buf 0 kept, record m { lines = lines })
]

-- A read of the standard input waits when no line is left; the text written to the standard output ends at
-- a 0.
unfoldable pub scripted : Calls Script
unfolding typed
scripted = record {
  getargs = λ buf nbytes m. some (minus_one, buf, m);
  open_file = λ filename m. some (minus_one, m);
  read = λ fd buf nbytes m. if fd == 0 then typed nbytes buf m else some (minus_one, buf, m);
  write = λ fd buf nbytes m.
      let shown = text buf nbytes 0 in
      if fd == 1
      then some (length shown, record m { events = m.events ++ (wrote shown ∷ []) })
      else some (minus_one, m);
  close = λ fd m. some (minus_one, m);
}

-- `execute` on a machine where each command ends with its status.
unfoldable pub executed : (status : List ℕ → ℕ) → (command : ℕ → ℕ) → Script → Option (ℕ × Script)
executed status command m =
    Option.map (λ line. (status line, record m { events = m.events ++ (ran line ∷ []) }))
      (text_at 1024 command 0)

-- What the shell says of a status, and what happens for one line.
abbrev pub remark : ℕ → List Event
remark rval =
    if rval == minus_one
    then wrote (bytes "no such command\n") ∷ []
    else if rval == 256
    then wrote (bytes "program terminated by exception\n") ∷ []
    else if rval == 0
    then []
    else wrote (bytes "program terminated abnormally\n") ∷ []

-- The session up to and with the line "exit"; `none` when that line does not come.
unfoldable pub session : (status : List ℕ → ℕ) → (lines : List (List ℕ)) → Option (List Event)
session status [] = none
session status ([] ∷ lines) = Option.map (λ es. wrote (bytes "391OS> ") ∷ es) (session status lines)
session status ((c ∷ cs) ∷ lines) =
    let rest = session status lines in
    if compared (c ∷ cs) (bytes "exit") == 0
    then some (wrote (bytes "391OS> ") ∷ [])
    else Option.map
        (λ es. wrote (bytes "391OS> ") ∷ ran (c ∷ cs) ∷ (remark (status (c ∷ cs)) ++ es)) rest

abbrev pub IsLine : List ℕ → Type 0
IsLine line =
    (length line ≤ max_input_chars)
    × ((i : ℕ) → i < length line → (get_or line i 0 ≢ 0) × (get_or line i 0 ≢ b'\n'))
    × All IsByte line

abbrev pub after : Script → List Event → Script
after m es = record m { events = m.events ++ es }

pub prompt_lem :
    (m : Script)
    → ece391_fdputs scripted 100 1 (literal (bytes "391OS> ")) m
      ≡ some (after m (wrote (bytes "391OS> ") ∷ []))
unfolding ece391_fdputs ece391_strlen scripted text
prompt_lem m = refl

pub greeting_lem :
    (m : Script)
    → ece391_fdputs scripted 100 1 (literal (bytes "Starting 391 Shell\n")) m
      ≡ some (after m (wrote (bytes "Starting 391 Shell\n") ∷ []))
unfolding ece391_fdputs ece391_strlen scripted text
greeting_lem m = refl

pub read_lem :
    (buf : ℕ → ℕ) (line : List ℕ) (lines : List (List ℕ)) (e : List Event)
    → length line ≤ max_input_chars
    → scripted.read 0 buf 1023 (record { lines = line ∷ lines; events = e })
      ≡ some (length line, store_bytes buf 0 line, record { lines = lines; events = e })
unfolding scripted typed
read_lem buf line lines e short =
    ap (λ l. some (length l, store_bytes buf 0 l, record { lines = lines; events = e }))
      (take-all max_input_chars line short)

pub read-none :
    (buf : ℕ → ℕ) (e : List Event)
    → scripted.read 0 buf 1023 (record { lines = []; events = e }) ≡ none
unfolding scripted typed
read-none buf e = refl

pub report_lem :
    (status : List ℕ → ℕ) (rval : ℕ) (m : Script)
    → report scripted (executed status) rval m ≡ some (after m (remark rval))
unfolding report ece391_fdputs ece391_strlen scripted text
report_lem status rval m = elim (Bool-cases (rval == minus_one)) [
  | inl missing ↦ rw missing refl
  | inr found ↦ elim (Bool-cases (rval == 256)) [
    | inl exception ↦ rw (found, exception) refl
    | inr ended ↦ elim (Bool-cases (rval == 0)) [
      | inl well ↦
          rw (found, ended, well)
            (ap (λ es. some (record m { events = es })) (sym (append-nil m.events)))
      | inr badly ↦ rw (found, ended, badly) refl
    ]
  ]
]

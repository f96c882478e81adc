-- ===== src/Programs/Session.antt =====
-- What the shell does with the lines that are typed.
use cheet_os.Base.{
  ℕ, zero, suc, ◌-◌, ◌<◌, ◌≤◌, ◌≡◌, refl, ◌≢◌, inl, inr, ◌∙◌, ap, true, false, ◌&&◌, Option, none,
  some, List, [], ◌∷◌, ◌++◌, ◌==◌, get_or, bytes, minus_one, lt_signed, arith, length, All,
  Bool-cases, append_assoc,
}
use mathlib.Core.Option
use cheet_os.Screen.{store}
use cheet_os.Files.{store_bytes}
use cheet_os.Files.Sequence.{store_bytes_lem}
use cheet_os.Programs.{Status, literal}
use cheet_os.Programs.Support.{Holds, IsByte, text_at_lem, ece391_strcmp_lem, compared}
use cheet_os.Programs.Kernel.{values-Holds}
use cheet_os.Programs.Shell.{trimmed, dispatch, shell_from, shell}
use cheet_os.Programs.Script.{
  Event, wrote, ran, Script, scripted, executed, remark, session, IsLine, report_lem, greeting_lem,
  prompt_lem, read_lem, read-none,
}

-- The line in the buffer, its end replaced.
trimmed-Holds :
    (buf : ℕ → ℕ) (line : List ℕ)
    → IsLine line
    → Holds (trimmed (store_bytes buf 0 line) (length line)) 0 line
unfolding trimmed store
trimmed-Holds buf line ok =
    let stored = store_bytes buf 0 line in
    let kept : (i : ℕ) → i < length line → stored i ≡ get_or line i 0 = λ i lt. ground (
      arith,
      store_bytes_lem buf 0 line i,
      ap (λ k. get_or line k 0) {x = i - 0} {y = i} (omega arith),
    ) in
    let no_newline : (lt_signed 0 (length line) && stored (length line - 1) == b'\n') ≡ false =
      elim (Bool-cases (length line == 0)) [
        | inl empty ↦ ground arith
        | inr more ↦
            let last : length line - 1 < length line = ground arith in
            let held = kept (length line - 1) last in
            let ok_last = (ok.1 (length line - 1) last).1 in ground (arith, held, ok_last)
      ] in
    rw no_newline (
      values-Holds line (store stored (length line) 0) 0
        (λ i lt. (ground (arith, kept i lt), (ok.1 i lt).0)) (ground arith))

abbrev pub outcome : Status Script → Option (ℕ × List Event)
outcome o = Option.map (λ (r : ℕ × Script). (r.0, r.1.events)) o

prefixed :
    (e p : List Event) (o : Option (List Event))
    → Option.map {B = ℕ × List Event} (λ es. (0, (e ++ p) ++ es)) o
      ≡ Option.map (λ es. (0, e ++ es)) (Option.map (λ es. p ++ es) o)
prefixed e p none = refl
prefixed e p (some es) = ap (λ l. some (0, l)) (append_assoc e p es)

prefixed_more :
    (e p q r : List Event) (o : Option (List Event))
    → Option.map {B = ℕ × List Event} (λ es. (0, (((e ++ p) ++ q) ++ r) ++ es)) o
      ≡ Option.map (λ es. (0, e ++ es)) (Option.map (λ es. p ++ (q ++ (r ++ es))) o)
prefixed_more e p q r none = refl
prefixed_more e p q r (some es) =
    ap (λ l. some (0, l))
      (append_assoc ((e ++ p) ++ q) r es
        ∙ append_assoc (e ++ p) q (r ++ es)
        ∙ append_assoc e p (q ++ (r ++ es)))

exit-Holds : Holds (literal (bytes "exit")) 0 (bytes "exit")
exit-Holds =
    (refl, omega arith, (refl, omega arith, (refl, omega arith, (refl, omega arith, refl))))

exit-IsByte : All IsByte (bytes "exit")
exit-IsByte = (omega arith, (omega arith, (omega arith, (omega arith, tt))))

empty_is_not_exit : (compared [] (bytes "exit") == 0) ≡ false
unfolding compared
empty_is_not_exit = refl

module _ (status : List ℕ → ℕ) where
  -- The rest of a round, when the rounds that follow leave the rest of the session.
  dispatch-session :
      (fuel : ℕ) (line : List ℕ) (lines : List (List ℕ)) (buf : ℕ → ℕ) (e : List Event)
      → IsLine line
      → Holds buf 0 line
      → ((e1 : List Event)
          → outcome (
              shell_from scripted
                (executed status)
                fuel
                buf
                (record { lines = lines; events = e1 }))
            ≡ Option.map (λ es. (0, e1 ++ es)) (session status lines))
      → outcome (
          dispatch scripted
            (executed status)
            (shell_from scripted (executed status) fuel buf)
            (compared line (bytes "exit"))
            buf
            (record { lines = lines; events = e ++ (wrote (bytes "391OS> ") ∷ []) }))
        ≡ Option.map (λ es. (0, e ++ es)) (session status (line ∷ lines))
  unfolding dispatch session executed
  dispatch-session fuel [] lines buf e real held rest =
      let empty : (buf 0 == 0) ≡ true = ground (arith, held) in
      rw (empty_is_not_exit, empty)
        (rest _ ∙ prefixed e (wrote (bytes "391OS> ") ∷ []) (session status lines))
  dispatch-session fuel (c ∷ cs) lines buf e real held rest =
      elim (Bool-cases (compared (c ∷ cs) (bytes "exit") == 0)) [
        | inl exit ↦ rw exit refl
        | inr command ↦
            let first : buf 0 ≡ c = held.0 in
            let some_char : c ≢ 0 = held.1 in
            let more : (buf 0 == 0) ≡ false = ground arith in
            let short : length (c ∷ cs) ≤ 128 = real.0 in
            rw command (
              rw more (
                rw (text_at_lem buf (c ∷ cs) 1024 0 held (omega arith)) (
                  rw (report_lem status _ _) (
                    rest _
                    ∙ prefixed_more e (wrote (bytes "391OS> ") ∷ []) (ran (c ∷ cs) ∷ [])
                        (remark (status (c ∷ cs))) (session status lines)))))
      ]

  -- For a user who types these lines, the shell's rounds leave the events of the session, and return 0
  -- after the line "exit"; without that line they wait for ever.
  shell_from-session :
      (fuel : ℕ) (lines : List (List ℕ)) (buf : ℕ → ℕ) (e : List Event)
      → All IsLine lines
      → length lines ≤ fuel
      → outcome
          (shell_from scripted (executed status) fuel buf (record { lines = lines; events = e }))
        ≡ Option.map (λ es. (0, e ++ es)) (session status lines)
  unfolding shell_from session
  shell_from-session zero [] buf e ok enough = refl
  shell_from-session zero (l ∷ ls) buf e ok enough = absurd (omega arith)
  shell_from-session (suc fuel) [] buf e ok enough = rw (prompt_lem _) (rw (read-none buf _) refl)
  shell_from-session (suc fuel) (line ∷ lines) buf e ok enough =
      let real : IsLine line = ok.0 in
      let short : length line ≤ 128 = real.0 in
      let good : (length line == minus_one) ≡ false = ground arith in
      let buf2 = trimmed (store_bytes buf 0 line) (length line) in
      let held = trimmed-Holds buf line real in
      let order =
        (ece391_strcmp_lem line (bytes "exit") 1025 buf2 (literal (bytes "exit")) held exit-Holds
          real.2 exit-IsByte (omega arith)).0 in
      rw (prompt_lem _) (
        rw (read_lem buf line lines _ real.0) (
          rw good (
            rw order (
              dispatch-session fuel line lines buf2 e real held
                (λ e1. shell_from-session fuel lines buf2 e1 ok.1 (omega arith))))))

  -- For a user who types these lines on the terminal, each of bytes, at most 128 of them and none of them 0
  -- or a newline, the shell prompts before each of them, starts the command of each but the empty ones,
  -- remarks on a status other than 0, and returns 0 at the line "exit"; when that line does not come it does
  -- not return. The fuel is enough for a round on each line.
  pub shell-session :
      (fuel : ℕ) (lines : List (List ℕ)) (buf : ℕ → ℕ)
      → All IsLine lines
      → length lines ≤ fuel
      → outcome (shell scripted (executed status) fuel buf (record { lines = lines; events = [] }))
        ≡ Option.map (λ es. (0, wrote (bytes "Starting 391 Shell\n") ∷ es)) (session status lines)
  unfolding shell
  shell-session fuel lines buf ok enough =
      rw (greeting_lem (record { lines = lines; events = [] }))
        (shell_from-session fuel lines buf (wrote (bytes "Starting 391 Shell\n") ∷ []) ok enough)

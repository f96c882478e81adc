-- ===== src/Command.antt =====
-- student-distrib/lib.c `strtok` with the delimiter " ", and the parsing of a command line in
-- `execute` of syscalls.c.
pub mod Words
mod Tests
use cheet_os.Base.{
  ℕ, zero, suc, ◌+◌, Bool, true, false, Option, none, some, List, [], ◌∷◌, ◌++◌, ◌==◌,
  if◌then◌else◌, length,
}

-- The scan for the end of a token: the token, and what `last` is set to, the characters behind the
-- delimiter or the null pointer at the end of the string.
unfoldable pub scan_token : List ℕ → List ℕ × Option (List ℕ)
scan_token [] = ([], none)
scan_token (c ∷ cs) =
    let (token, last) = scan_token cs in if c == b' ' then ([], some cs) else (c ∷ token, last)

-- The jump back over leading delimiters, then the scan. The results are the token, or `none` for the
-- null pointer, and the new `last`.
unfoldable pub strtok_on : List ℕ → Option (List ℕ) × Option (List ℕ)
strtok_on [] = (none, none)
strtok_on (c ∷ cs) =
    let rest = strtok_on cs in
    if c == b' ' then rest else (let (token, last) = scan_token (c ∷ cs) in (some token, last))

-- `strtok(s, " ")` with the `last` that the call before it left.
unfoldable pub strtok : (s last : Option (List ℕ)) → Option (List ℕ) × Option (List ℕ)
strtok (some s) last = strtok_on s
strtok none (some s) = strtok_on s
strtok none none = (none, none)

-- The loop of `execute` over the tokens that follow, on fuel; `buffer` is the text before `ptr`.
unfoldable pub arguments_from :
    (fuel : ℕ) → (last : Option (List ℕ)) → (buffer : List ℕ) → Option (List ℕ)
arguments_from zero last buffer = none
arguments_from (suc fuel) last buffer =
    let (token, last') = strtok none last in
    elim token [
      | none ↦ some buffer
      | some t ↦
          arguments_from fuel last'
            ((if length buffer == 0 then [] else buffer ++ (b' ' ∷ [])) ++ t)
    ]

-- ===== src/Command/Tests.antt =====
-- A command line, and the theorems at it.
use cheet_os.Base.{ℕ, ◌≡◌, refl, some, List, [], ◌∷◌}
use cheet_os.Command.{scan_token, strtok_on, strtok, arguments_from}

-- " a  bc "
abbrev line : List ℕ
line = b' ' ∷ b'a' ∷ b' ' ∷ b' ' ∷ b'b' ∷ b'c' ∷ b' ' ∷ []

parses : arguments_from 10 (some line) [] ≡ some (b'a' ∷ b' ' ∷ b'b' ∷ b'c' ∷ [])
unfolding arguments_from strtok strtok_on scan_token
parses = refl

-- ===== src/Programs/Emulate/Same.antt =====
-- The arguments of a program under the emulation and under the kernel.
use cheet_os.Base.{ℕ, ◌<◌, ◌≡◌, ◌≢◌, Option, none, some, List, [], ◌∷◌, ◌==◌, All, length, false}

abbrev pub InLine : ℕ → Type 0
InLine c = c ≢ b'\n'

abbrev or_empty : Option (List ℕ) → List ℕ
or_empty none = []
or_empty (some text) = text

-- What is left behind the spaces: nothing, or a word.
abbrev Skipped : List ℕ → List ℕ → Type 0
Skipped cs [] = Unit
Skipped cs (d ∷ ds) = ((d == b' ') ≡ false) × All InLine (d ∷ ds) × (length ds < length cs)

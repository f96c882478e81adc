-- ===== src/Strings/Text.antt =====
-- `strlen`, `strncpy` and `strrev` on a string in memory.
use cheet_os.Base.{
  ℕ, zero, suc, ◌+◌, ◌-◌, ◌<◌, ◌≤◌, ◌≡◌, refl, ◌≢◌, ◌&&◌, true, false, ltb, leb, ◌==◌,
  if◌then◌else◌, arith, some,
}
use native.Mathlib.Decide.{ℕ_discrete}
use cheet_os.Screen.{store}
use cheet_os.Strings.{strlen, swap_from, strrev}

pub strlen_from :
    (fuel : ℕ) (m : ℕ → ℕ) (s len n : ℕ)
    → m (s + n) ≡ 0
    → ((i : ℕ) → i < n → m (s + i) ≢ 0)
    → len ≤ n
    → n < len + fuel
    → strlen fuel m s len ≡ some n
unfolding strlen
strlen_from zero m s len n z h le lt = absurd (omega arith)
strlen_from (suc fuel) m s len n z h le lt = elim (ℕ_discrete len n) [
  | yes e ↦ let ended : (m (s + n) == 0) ≡ true = ground arith in rw (e, ended) refl
  | no ne ↦
      let inside : (m (s + len) == 0) ≡ false = ground (arith, h len (omega arith)) in
      rw inside (strlen_from fuel m s (len + 1) n z h (omega arith) (omega arith))
]

-- The mirror image of the bytes from place `beg` to place `last` of the string.
pub swap_from_lem :
    (fuel : ℕ) (m : ℕ → ℕ) (s beg last a : ℕ)
    → last ≤ beg + fuel
    → swap_from fuel m s beg last a
      ≡ (if leb (s + beg) a && leb a (s + last) then m (s + beg + (s + last - a)) else m a)
unfolding swap_from store
swap_from_lem zero m s beg last a h = ground arith
swap_from_lem (suc fuel) m s beg last a h = ground (
  arith,
  swap_from_lem fuel (store (store m (s + last) (m (s + beg))) (s + beg) (m (s + last))) s (beg + 1)
      (last - 1) a,
)

-- On a string of `n` characters `strlen`, with fuel above `n`, finds the length `n`, and `strrev`
-- with that length reverses the string in its place and changes no byte outside it.
pub strrev_lem :
    (fuel n : ℕ) (m : ℕ → ℕ) (s a : ℕ)
    → m (s + n) ≡ 0
    → ((i : ℕ) → i < n → m (s + i) ≢ 0)
    → n < fuel
    → (strlen fuel m s 0 ≡ some n)
      × (strrev m s n a ≡ (if leb s a && ltb a (s + n) then m (s + (s + n - 1 - a)) else m a))
unfolding strrev
strrev_lem fuel n m s a z h lt = (
  strlen_from fuel m s 0 n z h (omega arith) (omega arith),
  ground (arith, swap_from_lem n m s 0 (n - 1) a),
)

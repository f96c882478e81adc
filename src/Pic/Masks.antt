-- ===== src/Pic/Masks.antt =====
-- The bits of a mask byte, checked for all bytes by evaluation.
use cheet_os.Base.{
  ℕ, ◌+◌, ◌*◌, ◌/◌, ◌%◌, ◌^◌, ◌<◌, ◌≡◌, refl, ◌&&◌, true, arith, ◌==◌, if◌then◌else◌, ltb,
  tested_below, tested_value, Bool,
}
use cheet_os.Pic.{clear_bit, set_bit}

-- bit `k` of a mask
unfoldable pub bit : ℕ → ℕ → ℕ
bit m k = m / 2 ^ k % 2

-- What a mask update does to one bit, and that the result is a byte again.
abbrev Updates : (ℕ → ℕ → ℕ) → ℕ → ℕ → ℕ → ℕ → Type 0
Updates f v m k j = (bit (f m k) j ≡ (if k == j then v else bit m j)) × (f m k < 256)

updates : (ℕ → ℕ → ℕ) → ℕ → ℕ → ℕ → ℕ → Bool
unfolding bit
updates f v m k j = (bit (f m k) j == (if k == j then v else bit m j)) && ltb (f m k) 256

updates_sound : (f : ℕ → ℕ → ℕ) (v m k j : ℕ) → updates f v m k j ≡ true → Updates f v m k j
unfolding updates
updates_sound f v m k j h = ground arith

-- The numbers below 8 * 8 * 256 list every mask with two bit numbers.
abbrev every : (ℕ → ℕ → ℕ) → ℕ → ℕ → Bool
every f v n = updates f v (n / 64) (n / 8 % 8) (n % 8)

clear_table : tested_below 16384 (every clear_bit 0) ≡ true
unfolding tested_below updates clear_bit
clear_table = refl

set_table : tested_below 16384 (every set_bit 1) ≡ true
unfolding tested_below updates set_bit
set_table = refl

from_table :
    (f : ℕ → ℕ → ℕ) (v m k j : ℕ)
    → tested_below 16384 (every f v) ≡ true
    → m < 256
    → k < 8
    → j < 8
    → Updates f v m k j
from_table f v m k j table hm hk hj =
    let n : ℕ = m * 64 + k * 8 + j in
    let found = tested_value 16384 (every f v) n table (omega arith) in
    let em : n / 64 ≡ m = omega arith in
    let ek : n / 8 % 8 ≡ k = omega arith in
    let ej : n % 8 ≡ j = omega arith in updates_sound f v m k j (rw (em, ek, ej) at found)

pub clear_bit_lem : (m k j : ℕ) → m < 256 → k < 8 → j < 8 → Updates clear_bit 0 m k j
clear_bit_lem m k j = from_table clear_bit 0 m k j clear_table

pub set_bit_lem : (m k j : ℕ) → m < 256 → k < 8 → j < 8 → Updates set_bit 1 m k j
set_bit_lem m k j = from_table set_bit 1 m k j set_table

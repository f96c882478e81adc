-- ===== src/Strings/Tests.antt =====
-- A string in memory, and the theorems at it.
use cheet_os.Base.{
  ℕ, ◌≤◌, zero, suc, ◌-◌, ◌+◌, ◌%◌, ◌<◌, ◌≡◌, refl, ◌≢◌, inr, ◌&&◌, some, ltb, leb, ◌==◌,
  if◌then◌else◌, arith,
}
use mathlib.Core.Option
use cheet_os.Screen.{store}
use cheet_os.Strings.{memset, memcpy, strcpy, strncpy, pad, strrev, swap_from, write_digits, itoa}
use cheet_os.Strings.Fill.{memset_lem}
use cheet_os.Strings.Copy.{memcpy_lem}
use cheet_os.Strings.Itoa.{IsNumeral, itoa_lem}

-- "abc" at 100
abbrev memory : ℕ → ℕ
memory a = if a == 100 then b'a' else if a == 101 then b'b' else if a == 102 then b'c' else 0

is_text : (i : ℕ) → i < 3 → memory (100 + i) ≢ 0
is_text zero h = omega arith
is_text (suc zero) h = omega arith
is_text (suc (suc zero)) h = omega arith
is_text (suc (suc (suc i))) h = absurd (omega arith)

copies : Option.map {B = ℕ × ℕ} (λ m. (m 202, m 203)) (strcpy 5 memory 200 100 0) ≡ some (b'c', 0)
unfolding strcpy store
copies = refl

pads : (strncpy memory 200 100 0 5 202 ≡ b'c') × (strncpy memory 200 100 0 5 204 ≡ 0)
unfolding strncpy pad store
pads = (refl, refl)

prints_hex : let m = itoa (λ a. 0xFF) 0x3C 500 16 in (m 500 ≡ b'3') × (m 501 ≡ b'C') × (m 502 ≡ 0)
unfolding itoa write_digits strrev swap_from store
prints_hex = (refl, refl, refl)

memset_lem_example :
    memset memory 101 0x17A 9 103
    ≡ (if leb 101 103 && ltb 103 (101 + 9) then 0x17A % 256 else memory 103)
memset_lem_example = memset_lem memory 101 0x17A 9 103

memcpy_lem_example :
    memcpy memory 301 100 7 303
    ≡ (if leb 301 303 && ltb 303 (301 + 7) then memory (100 + (303 - 301)) else memory 303)
memcpy_lem_example = memcpy_lem memory 301 100 7 303 (inr (omega arith))

itoa_lem_example :
    (n : ℕ) × (n ≤ 8)
    × IsNumeral 16 0x3C (itoa memory 0x3C 500 16) 500 n
    × (itoa memory 0x3C 500 16 100
        ≡ (if leb 500 100 && leb 100 (500 + n) then itoa memory 0x3C 500 16 100 else memory 100))
itoa_lem_example =
    itoa_lem memory 0x3C 500 16 8 100 (omega arith) (omega arith) (omega arith) (omega arith)

-- ===== src/Keyboard/Keys.antt =====
-- Which characters the key handler passes on.
use cheet_os.Base.{
  ℕ, ◌-◌, ◌≤◌, ◌<◌, ◌≡◌, refl, ◌≢◌, ◌⊎◌, inl, Bool, true, ◌&&◌, Option, none, some, ltb, leb, ◌==◌,
  if◌then◌else◌, arith, tested_below, tested_value,
}
use mathlib.Core.Bool.{xor}
use cheet_os.Keyboard.{
  Keyboard, scan2ascii, with_caps, regular, with_ctrl, key_of, push, press, key_enter,
  backspace_key, key_l,
}

-- The pending key is an ASCII character or none.
pub record IsValid (k : Keyboard) : Type 0 where
  pub ascii : k.pushed_key < 128

small : ℕ → Bool
small n =
    ltb (with_caps 0 (scan2ascii n 0)) 128
    && ltb (with_caps 1 (scan2ascii n 0)) 128
    && ltb (with_caps 0 (scan2ascii n 1)) 128
    && ltb (with_caps 1 (scan2ascii n 1)) 128

small_table : tested_below 58 small ≡ true
unfolding tested_below small scan2ascii with_caps
small_table = refl

with_caps_norm : (caps c : ℕ) → with_caps caps c ≡ with_caps (if caps == 0 then 0 else 1) c
unfolding with_caps
with_caps_norm caps c = ground arith

scan2ascii_norm : (n column : ℕ) → scan2ascii n column ≡ scan2ascii n (if column == 0 then 0 else 1)
unfolding scan2ascii
scan2ascii_norm n column = ground arith

regular-lt : (k : Keyboard) (n : ℕ) → n < 58 → regular k n < 128
unfolding regular small
regular-lt k n h = ground (
  arith,
  tested_value 58 small n small_table h,
  scan2ascii_norm n k.shift_stat,
  with_caps_norm k.caps_stat (scan2ascii n k.shift_stat),
)

key_of-lt : (k : Keyboard) (n c : ℕ) → key_of k n ≡ some c → c < 128
unfolding key_of with_ctrl scan2ascii
key_of-lt k n c e = ground (arith, regular-lt k n)

push_cases :
    (o : Option ℕ) (k : Keyboard)
    → ((push o k).pushed_key ≡ k.pushed_key)
      ⊎ ((o ≡ some (push o k).pushed_key) × ((push o k).pushed_key ≢ 0))
unfolding push
push_cases none k = inl refl
push_cases (some c) k = ground arith

-- A key press keeps the pending key or makes it that of the default case.
press_cases :
    (n : ℕ) (k : Keyboard)
    → ((press n k).pushed_key ≡ k.pushed_key)
      ⊎ ((key_of k n ≡ some (press n k).pushed_key) × ((press n k).pushed_key ≢ 0))
unfolding press
press_cases n k = ground (arith, push_cases (key_of k n) k)

-- Whatever scan code arrives, the pending key is an ASCII character or none.
pub press-IsValid : (scancode : ℕ) {k : Keyboard} → IsValid k → IsValid (press scancode k)
press-IsValid n {k} v = ground (arith, press_cases n k, key_of-lt k n (press n k).pushed_key)

-- A scan code from 58 on, that is a release or a key that is not handled, leaves the pending key.
pub press-released :
    (scancode : ℕ) (k : Keyboard) → 58 ≤ scancode → (press scancode k).pushed_key ≡ k.pushed_key
unfolding press push key_of
press-released n k h = ground arith

backspace_code : (k : Keyboard) → regular k backspace_key ≡ 8
unfolding regular scan2ascii with_caps
backspace_code k = ground arith

enter_code : (k : Keyboard) → regular k key_enter ≡ 13
unfolding regular scan2ascii with_caps
enter_code k = ground arith

l_code : scan2ascii key_l 0 ≡ b'l'
unfolding scan2ascii
l_code = refl

with_ctrl-codes :
    (n : ℕ) (k : Keyboard) (c : ℕ) → with_ctrl k n ≡ some c → (c ≡ 8) ⊎ (c ≡ 12) ⊎ (c ≡ 13)
unfolding with_ctrl
with_ctrl-codes n k c e = ground (arith, backspace_code k, enter_code k, l_code)

key_of-held :
    (n : ℕ) (k : Keyboard) (c : ℕ)
    → (k.alt_stat ≢ 0) ⊎ (k.ctrl_stat ≢ 0)
    → key_of k n ≡ some c
    → (c ≡ 0) ⊎ (c ≡ 8) ⊎ (c ≡ 12) ⊎ (c ≡ 13)
unfolding key_of
key_of-held n k c h e = ground (arith, backspace_code k, with_ctrl-codes n k c)

-- With alt or control held, a scan code leaves the pending key as it is or makes it a backspace,
-- a form feed or a carriage return.
pub press-held :
    (scancode : ℕ) (k : Keyboard)
    → (k.alt_stat ≢ 0) ⊎ (k.ctrl_stat ≢ 0)
    → ((press scancode k).pushed_key ≡ k.pushed_key)
      ⊎ ((press scancode k).pushed_key ≡ 8)
      ⊎ ((press scancode k).pushed_key ≡ 12)
      ⊎ ((press scancode k).pushed_key ≡ 13)
press-held n k h = ground (arith, press_cases n k, key_of-held n k (press n k).pushed_key)

-- The 26 letters' scan codes.
abbrev pub is_letter : ℕ → Bool
is_letter n = let c = scan2ascii n 0 in leb b'a' c && leb c b'z'

letter : ℕ → Bool
letter n =
    let c = scan2ascii n 0 in
    if is_letter n
    then (with_caps 0 (scan2ascii n 0) == c)
      && (with_caps 1 (scan2ascii n 0) == c - 32)
      && (with_caps 0 (scan2ascii n 1) == c - 32)
      && (with_caps 1 (scan2ascii n 1) == c)
    else true

letter_table : tested_below 58 letter ≡ true
unfolding tested_below letter scan2ascii with_caps
letter_table = refl

-- On a letter's scan code caps lock and shift each turn the case round: the letter is lower case
-- if both or neither are on, and upper case otherwise.
pub regular-letter :
    (n : ℕ) (k : Keyboard)
    → n < 58
    → is_letter n ≡ true
    → regular k n
      ≡ (if xor (k.shift_stat == 0) (k.caps_stat == 0) then scan2ascii n 0 - 32 else scan2ascii n 0)
unfolding regular letter xor
regular-letter n k h l = ground (
  arith,
  tested_value 58 letter n letter_table h,
  scan2ascii_norm n k.shift_stat,
  with_caps_norm k.caps_stat (scan2ascii n k.shift_stat),
)

-- ===== src/Printf.antt =====
-- student-distrib/lib.c: `printf`.
pub mod Conversion
pub mod Rendered
mod Tests
use cheet_os.Base.{
  ℕ, zero, suc, ◌+◌, ◌-◌, ◌%◌, ◌^◌, Bool, true, false, Option, none, some, List, [], ◌∷◌, ◌==◌, ltb,
  if◌then◌else◌, length,
}
use mathlib.Core.Option
use cheet_os.Screen.{Screen, store, putc, puts}
use cheet_os.Strings.{strlen, itoa}

-- The characters that `puts` finds from an address on before a 0; `none` if there is none within
-- `fuel` bytes.
unfoldable pub text_at : (fuel : ℕ) → (ℕ → ℕ) → ℕ → Option (List ℕ)
text_at zero m a = none
text_at (suc fuel) m a =
    let rest = text_at fuel m (a + 1) in
    if m a == 0 then some [] else Option.map (λ cs. m a ∷ cs) rest

-- Where the state of `printf` lies between two characters of the format: in plain text, or behind a
-- `%`, with `alternate`.
pub data Mode : Type 0 where
  plain : Mode
  after : (alternate : Bool) → Mode

-- The loop `while(i < 8)`, with `todo` rounds to go.
unfoldable pub fill_zeros : (ℕ → ℕ) → (i todo : ℕ) → ℕ → ℕ
fill_zeros m i zero = m
fill_zeros m i (suc todo) = fill_zeros (store m i b'0') (i + 1) todo

-- What is put for `%x`, from a `conv_buf` of 64 bytes that holds `conv` before.
unfoldable pub hex : (conv : ℕ → ℕ) → (word : ℕ) → Option (List ℕ)
hex conv word = text_at 64 (itoa conv word 0 16) 0

-- For `%#x`.
unfoldable pub full_hex : (conv : ℕ → ℕ) → (word : ℕ) → Option (List ℕ)
full_hex conv word =
    let m = itoa conv word 8 16 in
    elim (strlen 56 m 8 0) [
      | none ↦ none
      | some start ↦ text_at 64 (fill_zeros m start (8 - start)) start
    ]

-- For `%u`, from a `conv_buf` of 36 bytes.
unfoldable pub unsigned : (conv : ℕ → ℕ) → (word : ℕ) → Option (List ℕ)
unsigned conv word = text_at 36 (itoa conv word 0 10) 0

-- For `%d`: `-value` is the word `2 ^ 32 - value`.
unfoldable pub signed : (conv : ℕ → ℕ) → (word : ℕ) → Option (List ℕ)
signed conv word =
    if ltb word (2 ^ 31)
    then text_at 36 (itoa conv word 0 10) 0
    else text_at 36 (itoa (store conv 0 b'-') ((2 ^ 32 - word) % 2 ^ 32) 1 10) 0

-- What the calls see: the words from the first argument on, the bytes that a `%s` points to with a
-- bound on their number, and what the stack holds where `conv_buf` is.
pub record Frame : Type 0 where
  pub words : ℕ → ℕ
  pub memory : ℕ → ℕ
  pub bound : ℕ
  pub conv : ℕ → ℕ

-- A conversion: what it puts, and how far it moves `esp`.
unfoldable pub conversion : Frame → (alternate : Bool) → (c esp : ℕ) → Option (List ℕ × ℕ)
conversion f alternate c esp =
    let word = f.words esp in
    let used = Option.map {B = List ℕ × ℕ} (λ text. (text, 1)) in
    if c == b'%'
    then some (b'%' ∷ [], 0)
    else if c == b'x'
    then used (if alternate then full_hex f.conv word else hex f.conv word)
    else if c == b'u'
    then used (unsigned f.conv word)
    else if c == b'd'
    then used (signed f.conv word)
    else if c == b'c'
    then some ((word % 256) ∷ [], 1)
    else if c == b's'
    then used (text_at f.bound f.memory word)
    else some ([], 0)

-- The loop over the format. `none` means that a string did not end within the bound, or that the loop
-- has run past the end of the format, behind a `%` at its end.
unfoldable pub printf_from : Frame → Mode → (format : List ℕ) → (esp : ℕ) → Screen → Option Screen
printf_from f plain [] esp s = some s
printf_from f (after alternate) [] esp s = none
printf_from f plain (c ∷ cs) esp s =
    printf_from f (if c == b'%' then after false else plain) cs esp
      (if c == b'%' then s else putc c s)
printf_from f (after alternate) (c ∷ cs) esp s =
    let again = printf_from f (after true) cs esp s in
    let go_on = λ (r : List ℕ × ℕ). printf_from f plain cs (esp + r.1) (puts r.0 s).1 in
    if c == b'#'
    then again
    else elim (conversion f alternate c esp) [ none ↦ none | some r ↦ go_on r ]

-- `printf` returns `buf - format`.
unfoldable pub printf : Frame → (format : List ℕ) → Screen → Option (ℕ × Screen)
printf f format s =
    Option.map {B = ℕ × Screen} (λ s'. (length format, s')) (printf_from f plain format 0 s)

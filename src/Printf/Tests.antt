-- ===== src/Printf/Tests.antt =====
-- Formats printed on an empty screen, and the theorems at them.
use cheet_os.Base.{
  ℕ, ◌-◌, ◌^◌, ◌<◌, ◌≡◌, refl, List, [], none, some, arith, length, bytes, ◌==◌, if◌then◌else◌,
}
use mathlib.Core.Option
use cheet_os.Screen.{Screen, puts}
use cheet_os.Strings.Digits.{low_digits}
use cheet_os.Printf.{Frame, plain, printf, text_at}
use cheet_os.Printf.Conversion.{numeral, integer, eight_digits, flip}
use cheet_os.Printf.Rendered.{rendered, described, printf_lem}

abbrev blank : Screen
blank = record { video = λ a. 0; screen_x = 0; screen_y = 0; log = [] }

-- 60, -7 and a pointer to "ok"
abbrev frame : Frame
frame = record {
  words = λ i. if i == 0 then 60 else if i == 1 then 2 ^ 32 - 7 else 500;
  memory = λ a. if a == 500 then b'o' else if a == 501 then b'k' else 0;
  bound = 100;
  conv = λ a. 0xFF;
}

abbrev format : List ℕ
format = bytes "0x%#x, %d: %s%%"

describes : rendered frame plain format 0 ≡ some (bytes "0x0000003C, -7: ok%")
unfolding rendered described numeral integer eight_digits flip low_digits text_at
describes = refl

-- A format that ends in `%`.
runs_on : rendered frame plain (bytes "100%") 0 ≡ none
unfolding rendered
runs_on = refl

words-lt : (i : ℕ) → frame.words i < 2 ^ 32
words-lt i = ground arith

printf_lem_example :
    printf frame format blank
    ≡ Option.map {B = ℕ × Screen}
        (λ text. (length format, (puts text blank).1))
        (rendered frame plain format 0)
printf_lem_example = printf_lem frame format blank words-lt

-- ===== src/Keyboard/Tests.antt =====
-- Keys typed one to a poll, and the theorems at them.
use cheet_os.Base.{ℕ, ◌%◌, ◌≡◌, refl, some, [], ◌∷◌, arith, map}
use mathlib.Core.Option
use cheet_os.Screen.{Screen, store}
use cheet_os.Keyboard.{
  Keyboard, Schedule, scan2ascii, with_caps, regular, key_of, push, press, press_all, getchar, edit,
  resume, getline_from, getline,
}
use cheet_os.Keyboard.Typed.{keystrokes, edited, Gives, getline_lem}

abbrev quiet : Keyboard
quiet = record { ctrl_stat = 0; shift_stat = 0; alt_stat = 0; caps_stat = 0; pushed_key = 0 }

abbrev control : Keyboard
control = record quiet { ctrl_stat = 1 }

abbrev blank : Screen
blank = record { video = λ a. 0; screen_x = 0; screen_y = 0; log = [] }

-- l, s, backspace, d with shift, release of shift, enter
abbrev keys : Schedule
keys =
    (0x26 ∷ [])
    ∷ []
    ∷ (0xA6 ∷ [])
    ∷ (0x1F ∷ [])
    ∷ (0x0E ∷ [])
    ∷ (0x2A ∷ 0x20 ∷ [])
    ∷ (0xAA ∷ [])
    ∷ (0x1C ∷ [])
    ∷ []

keys_deliver : keystrokes keys quiet ≡ b'l' ∷ b's' ∷ 8 ∷ b'D' ∷ 13 ∷ []
unfolding keystrokes press_all press push key_of regular scan2ascii with_caps
keys_deliver = refl

-- Of two keys between two polls the first is lost.
keys_lost : keystrokes ((0x26 ∷ 0x1F ∷ []) ∷ []) quiet ≡ b's' ∷ []
unfolding keystrokes press_all press push key_of regular scan2ascii with_caps
keys_lost = refl

line_typed :
    Option.map {B = ℕ × ℕ × ℕ × ℕ}
      (λ r. (r.0.lp, r.0.buf 0, r.0.buf 1, r.0.buf 2))
      (getline 128 keys quiet (λ a. 0xFF) blank)
    ≡ some (2, b'l', b'D', 0)
unfolding getline getline_from getchar press_all press push key_of regular scan2ascii with_caps
    resume edit store
line_typed = refl

getline_lem_example :
    Gives 128
      (λ a. 0xFF)
      (edited 128 (map (λ c. c % 128) (keystrokes keys quiet)) [])
      (getline 128 keys quiet (λ a. 0xFF) blank)
getline_lem_example = getline_lem 128 (λ a. 0xFF) keys quiet blank (omega arith)

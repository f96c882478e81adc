-- ===== src/Terminal/Tests.antt =====
-- A line read and a text written, and the theorems at them.
use cheet_os.Base.{ℕ, ◌%◌, ◌≡◌, refl, some, [], ◌∷◌, ◌==◌, if◌then◌else◌, map, arith}
use cheet_os.Screen.{putc, print, settle}
use cheet_os.Keyboard.{Schedule}
use cheet_os.Keyboard.Typed.{keystrokes, edited}
use cheet_os.Terminal
use cheet_os.Terminal.{Terminal, terminal_read, terminal_write}
use cheet_os.Terminal.Input.{ReadsLine, terminal_read_lem}

abbrev console : Terminal
console = record {
  keyboard = record { ctrl_stat = 0; shift_stat = 0; alt_stat = 0; caps_stat = 1; pushed_key = 0 };
  screen = record { video = λ a. 0; screen_x = 0; screen_y = 0; log = [] };
}

-- h, i, enter
abbrev keys : Schedule
keys = (0x23 ∷ []) ∷ (0x17 ∷ []) ∷ (0x1C ∷ []) ∷ []

abbrev hi : ℕ → ℕ
hi a = if a == 0 then b'h' else if a == 1 then b'i' else 0

writes_hi : (terminal_write 1 (some hi) 5 console).1.screen.screen_x ≡ 2
unfolding terminal_write Terminal.write_from putc print settle
writes_hi = refl

terminal_read_lem_example :
    ReadsLine 20
      (λ a. 7)
      (edited 20 (map (λ c. c % 128) (keystrokes keys console.keyboard)) [])
      (terminal_read 0 (some (λ a. 7)) 20 keys console)
terminal_read_lem_example = terminal_read_lem (λ a. 7) 20 keys console (omega arith)

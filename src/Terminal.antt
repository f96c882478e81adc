-- ===== src/Terminal.antt =====
-- student-distrib/terminal.c: the terminal driver over the keyboard and the screen.
pub mod Output
pub mod Input
mod Tests
use cheet_os.Base.{
  ℕ, zero, suc, ◌+◌, Bool, not, Option, none, some, ltb, ◌==◌, if◌then◌else◌, minus_one,
}
use mathlib.Core.Option
use cheet_os.Screen.{Screen, putc, clear}
use cheet_os.Keyboard.{Keyboard, Schedule, Line, getline}

abbrev pub max_input_chars : ℕ
max_input_chars = 128

pub record Terminal : Type 0 where
  pub keyboard : Keyboard
  pub screen : Screen

-- The bytes of the caller's memory from a pointer on; the null pointer is `none`.
abbrev pub Buffer : Type 0
Buffer = Option (ℕ → ℕ)

unfoldable pub terminal_putc : ℕ → Terminal → Terminal
terminal_putc c t = record t { screen = putc c t.screen }

-- The value returned, the caller's memory and the terminal; `none` while the line is not ended.
abbrev pub Reply : Type 0
Reply = Option (ℕ × Buffer × Terminal)

of_line : Line × Keyboard → ℕ × Buffer × Terminal
of_line (l, k) = (l.lp, some l.buf, record { keyboard = k; screen = l.screen })

unfoldable pub terminal_read : (fd : ℕ) → Buffer → (num_chars : ℕ) → Schedule → Terminal → Reply
unfolding of_line
terminal_read fd none num_chars schedule t = some (minus_one, none, t)
terminal_read fd (some buf) num_chars schedule t =
    if not (fd == 0)
    then some (minus_one, some buf, t)
    else let max = if ltb max_input_chars num_chars then max_input_chars else num_chars in
      Option.map of_line (getline max schedule t.keyboard buf t.screen)

-- The loop with `todo` characters to go at index `idx`.
unfoldable pub write_from : (ℕ → ℕ) → (todo idx : ℕ) → Screen → ℕ × Screen
write_from buf zero idx s = (idx, s)
write_from buf (suc todo) idx s =
    let rest = write_from buf todo (idx + 1) (putc (buf idx) s) in
    if buf idx == 0 then (idx, s) else rest

unfoldable pub terminal_write : (fd : ℕ) → Buffer → (num_chars : ℕ) → Terminal → ℕ × Terminal
terminal_write fd none num_chars t = (minus_one, t)
terminal_write fd (some buf) num_chars t =
    if not (fd == 1)
    then (minus_one, t)
    else if num_chars == 0
    then (0, t)
    else let (idx, s) = write_from buf num_chars 0 t.screen in (idx, record t { screen = s })

unfoldable pub terminal_open : ℕ
terminal_open = 0

unfoldable pub terminal_close : ℕ
terminal_close = 0

unfoldable pub clear_terminal : Terminal → Terminal
clear_terminal t = record t { screen = clear t.screen }

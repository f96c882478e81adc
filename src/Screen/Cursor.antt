-- ===== src/Screen/Cursor.antt =====
-- The hardware cursor: what the two registers hold after `set_cursor`.
use cheet_os.Base.{
  ℕ, ◌+◌, ◌*◌, ◌^◌, ◌<◌, ◌≡◌, ◌&&◌, ◌∷◌, true, arith, ◌==◌, if◌then◌else◌, Option, some, none,
}
use cheet_os.Io.{Log, out, outb}
use cheet_os.Screen.{
  Screen, num_cols, set_cursor, newline, backspace, print, settle, putc, clear, blue_screen,
  memset_word,
}
use cheet_os.Screen.Grid.{
  IsValid, putc-IsValid, cursor, glyph, cells, prints, putc-print, putc-backspace,
}

-- The position that the last four accesses give to the cursor registers 14 and 15 of the display,
-- if they select and write those.
unfoldable pub register_position : Log → Option ℕ
register_position (out p1 hi ∷ out p2 r2 ∷ out p3 lo ∷ out p4 r4 ∷ log) =
    if p1 == 0x3D5 && p2 == 0x3D4 && p3 == 0x3D5 && p4 == 0x3D4 && r2 == 14 && r4 == 15
    then some (hi * 2 ^ 8 + lo)
    else none
register_position log = none

abbrev pub Shows : Screen → Type 0
Shows s = register_position s.log ≡ some (cursor s)

settle-Shows : (s : Screen) → s.screen_x < num_cols → Shows (settle s)
unfolding settle set_cursor outb register_position cursor
settle-Shows s h = ground arith

-- If the cursor is on the screen and the display's cursor stands at its cell, it does so after
-- any byte is put.
pub putc-Shows : (c : ℕ) {s : Screen} → IsValid s → Shows s → Shows (putc c s)
unfolding putc newline backspace print
putc-Shows c {s} v h =
    ground (arith, settle-Shows (newline s), settle-Shows (backspace s), settle-Shows (print c s))

-- `clear` and `blue_screen` blank every cell, and put the cursor and the display's cursor in the
-- first one.
pub clear_lem :
    (s : Screen) (p : ℕ)
    → p < cells
    → (glyph (clear s) p ≡ b' ')
      × (glyph (blue_screen s) p ≡ b' ')
      × (cursor (clear s) ≡ 0)
      × Shows (clear s)
      × Shows (blue_screen s)
unfolding clear blue_screen glyph cursor memset_word set_cursor outb register_position
clear_lem s p h = ground arith

-- Putting a character before the last cell and then a backspace brings the cursor back and leaves
-- a blank there; every other cell is as it was.
pub putc-backspace-print :
    (c : ℕ) {s : Screen} (p : ℕ)
    → IsValid s
    → prints c ≡ true
    → cursor s + 1 < cells
    → let s' = putc 8 (putc c s) in
      (cursor s' ≡ cursor s) × (glyph s' p ≡ (if p == cursor s then b' ' else glyph s p))
putc-backspace-print c {s} p v h room =
    ground (arith, putc-print c p v h room, putc-backspace p (putc-IsValid c v))

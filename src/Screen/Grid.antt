-- ===== src/Screen/Grid.antt =====
-- The screen as 2000 cells in reading order, and `putc` against that view.
use cheet_os.Base.{ℕ, ◌+◌, ◌-◌, ◌*◌, ◌<◌, ◌≡◌, Bool, true, false, arith, leb, ◌==◌, if◌then◌else◌}
use cheet_os.Screen.{
  Screen, num_cols, num_rows, store, draw, memset_word, memmove, newline, backspace, print, settle,
  putc,
}

-- The cursor lies on the screen.
pub record IsValid (s : Screen) : Type 0 where
  pub column : s.screen_x < num_cols
  pub row : s.screen_y < num_rows

abbrev pub cells : ℕ
cells = num_rows * num_cols

-- The character in a cell, and the cursor's cell.
unfoldable pub glyph : Screen → ℕ → ℕ
glyph s p = s.video (p * 2)

unfoldable pub cursor : Screen → ℕ
cursor s = num_cols * s.screen_y + s.screen_x

-- A character that `putc` prints.
abbrev pub prints : ℕ → Bool
prints c =
    if c == b'\n' then false else if c == b'\r' then false else if c == 8 then false else true

pub settle-IsValid : (s : Screen) → s.screen_x < num_cols → IsValid (settle s)
unfolding settle
settle-IsValid s h = ground arith

-- If the cursor is on the screen, it is so after any byte is put.
pub putc-IsValid : (c : ℕ) {s : Screen} → IsValid s → IsValid (putc c s)
unfolding putc newline backspace print
putc-IsValid c {s} v =
    ground
      (arith, settle-IsValid (newline s), settle-IsValid (backspace s), settle-IsValid (print c s))

-- A character printed with the cursor on the screen and before the last cell stands where the
-- cursor was, the cursor moves on by one cell, and every other cell keeps its character.
pub putc-print :
    (c : ℕ) {s : Screen} (p : ℕ)
    → IsValid s
    → prints c ≡ true
    → cursor s + 1 < cells
    → (cursor (putc c s) ≡ cursor s + 1)
      × (glyph (putc c s) p ≡ (if p == cursor s then c else glyph s p))
unfolding putc print settle draw store cursor glyph
putc-print c {s} p v h room = ground arith

-- With the cursor in the last cell, a character that is printed scrolls: each row shows the row
-- below it, with the character at the end of the row above the last, the last row is blank, and
-- the cursor is at its start.
pub putc-scroll :
    (c : ℕ) {s : Screen} (p : ℕ)
    → IsValid s
    → prints c ≡ true
    → cursor s + 1 ≡ cells
    → p < cells
    → (cursor (putc c s) ≡ cells - num_cols)
      × (glyph (putc c s) p ≡ (
          if leb (cells - num_cols) p
          then b' '
          else if p + num_cols == cursor s
          then c
          else glyph s (p + num_cols)))
unfolding putc print settle draw store cursor glyph memset_word memmove
putc-scroll c {s} p v h last room = ground arith

-- With the cursor on the screen, a newline moves it to the start of the next row and changes no
-- cell, or, in the last row, scrolls.
pub putc-newline :
    {s : Screen} (p : ℕ)
    → IsValid s
    → p < cells
    → let scrolls = leb (num_rows - 1) s.screen_y in
      let s' = putc b'\n' s in
      (cursor s' ≡ num_cols * (if scrolls then num_rows - 1 else s.screen_y + 1))
      × (glyph s' p ≡ (
          if scrolls
          then (if leb (cells - num_cols) p then b' ' else glyph s (p + num_cols))
          else glyph s p))
unfolding putc newline settle cursor glyph memset_word memmove
putc-newline {s} p v h = ground arith

-- With the cursor on the screen, a backspace moves it back by one cell and blanks that cell only;
-- in the first cell it does nothing.
pub putc-backspace :
    {s : Screen} (p : ℕ)
    → IsValid s
    → (cursor (putc 8 s) ≡ cursor s - 1)
      × (glyph (putc 8 s) p
          ≡ (if cursor s == 0 then glyph s p else if p + 1 == cursor s then b' ' else glyph s p))
unfolding putc backspace settle draw store cursor glyph
putc-backspace {s} p v = ground arith

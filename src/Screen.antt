-- ===== src/Screen.antt =====
-- student-distrib/lib.c: the text screen (`putc`, `puts`, `clear`, `blue_screen`, `set_cursor`).
pub mod Grid
pub mod Cursor
pub mod Safe
mod Tests
use cheet_os.Base.{
  ℕ, ◌+◌, ◌-◌, ◌*◌, ◌/◌, ◌%◌, ◌^◌, Bool, ◌&&◌, ◌||◌, not, List, [], ◌∷◌, ltb, leb, ◌==◌,
  if◌then◌else◌,
}
use cheet_os.Io.{Log, outb}

abbrev pub num_cols : ℕ
num_cols = 80

abbrev pub num_rows : ℕ
num_rows = 25

abbrev pub attrib : ℕ
attrib = 0x7

abbrev pub blue_screen_background_attrib : ℕ
blue_screen_background_attrib = 0x11

abbrev pub vga_port : ℕ
vga_port = 0x3D4

-- The bytes from `video_mem` on, the cursor's column and row, and the port accesses made.
pub record Screen : Type 0 where
  pub video : ℕ → ℕ
  pub screen_x : ℕ
  pub screen_y : ℕ
  pub log : Log

-- A byte stored in memory.
unfoldable pub store : (ℕ → ℕ) → (address value : ℕ) → ℕ → ℕ
store m address value a = if a == address then value else m a

-- `memset_word`: `n` words `c` from `s` on, the low byte first.
unfoldable pub memset_word : (ℕ → ℕ) → (s c n : ℕ) → ℕ → ℕ
memset_word m s c n a =
    if leb s a && ltb a (s + 2 * n)
    then (if (a - s) % 2 == 0 then c % 256 else c / 256 % 256)
    else m a

-- `memmove`: `n` bytes from `src` on, as they were before, to `dest`.
unfoldable pub memmove : (ℕ → ℕ) → (dest src n : ℕ) → ℕ → ℕ
memmove m dest src n a = if leb dest a && ltb a (dest + n) then m (src + (a - dest)) else m a

-- The position is a `uint16_t`.
unfoldable pub set_cursor : (x y : ℕ) → Log → Log
set_cursor x y log =
    let position = (y * num_cols + x) % 2 ^ 16 in
    outb (position / 2 ^ 8 % 256) (vga_port + 1)
      (outb 0x0E vga_port (outb (position % 256) (vga_port + 1) (outb 0x0F vga_port log)))

-- `c << 8 | ' '`
abbrev pub blank_word : ℕ → ℕ
blank_word attribute = attribute * 2 ^ 8 + b' '

fill : (attribute : ℕ) → Screen → Screen
fill attribute s = record {
  video = memset_word s.video 0 (blank_word attribute) (num_rows * num_cols);
  screen_x = 0;
  screen_y = 0;
  log = set_cursor 0 0 s.log;
}

unfoldable pub clear : Screen → Screen
unfolding fill
clear s = fill attrib s

unfoldable pub blue_screen : Screen → Screen
unfolding fill
blue_screen s = fill blue_screen_background_attrib s

-- A character and the attribute at the cursor's cell `(x, y)`.
unfoldable pub draw : (c x y : ℕ) → (ℕ → ℕ) → ℕ → ℕ
draw c x y video = let cell = (num_cols * y + x) * 2 in store (store video cell c) (cell + 1) attrib

unfoldable pub newline : Screen → Screen
newline s = record s { screen_x = 0; screen_y = s.screen_y + 1 }

-- The cursor steps back over the end of a row, and a space erases the character there.
unfoldable pub backspace : Screen → Screen
backspace s =
    let x = if s.screen_x == 0 then num_cols - 1 else s.screen_x - 1 in
    let y =
      if s.screen_x == 0 then (if s.screen_y == 0 then 0 else s.screen_y - 1) else s.screen_y in
    record s { video = draw b' ' x y s.video; screen_x = x; screen_y = y }

unfoldable pub print : ℕ → Screen → Screen
print c s = record s {
  video = draw c s.screen_x s.screen_y s.video;
  screen_x = (s.screen_x + 1) % num_cols;
  screen_y = if leb num_cols (s.screen_x + 1) then s.screen_y + 1 else s.screen_y;
}

-- The end of `putc`: scroll by one row below the last one, then set the cursor.
unfoldable pub settle : Screen → Screen
settle s =
    if leb num_rows s.screen_y
    then record {
      video =
          memset_word (memmove s.video 0 (num_cols * 2) ((num_rows - 1) * num_cols * 2))
            ((num_rows - 1) * num_cols * 2) (blank_word attrib) num_cols;
      screen_x = s.screen_x;
      screen_y = num_rows - 1;
      log = set_cursor s.screen_x (num_rows - 1) s.log;
    }
    else record s { log = set_cursor s.screen_x s.screen_y s.log }

unfoldable pub putc : ℕ → Screen → Screen
putc c s =
    if c == b'\n' || c == b'\r'
    then settle (newline s)
    else if c == 8
    then (if s.screen_y == 0 && s.screen_x == 0 then s else settle (backspace s))
    else settle (print c s)

-- `puts` of the characters before the terminator; it returns how many there are.
unfoldable pub puts_from : List ℕ → (index : ℕ) → Screen → ℕ × Screen
puts_from [] index s = (index, s)
puts_from (c ∷ cs) index s = puts_from cs (index + 1) (putc c s)

unfoldable pub puts : List ℕ → Screen → ℕ × Screen
puts text s = puts_from text 0 s

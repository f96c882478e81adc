-- ===== src/Keyboard.antt =====
-- student-distrib/keyboard.c: from scan codes to characters, and the line editor `getline`.
pub mod Keys
pub mod Editing
pub mod Typed
mod Tests
use cheet_os.Base.{
  ℕ, zero, suc, ◌+◌, ◌-◌, ◌%◌, Bool, true, false, ◌&&◌, ◌||◌, Option, none, some, List, [], ◌∷◌,
  ltb, leb, ◌==◌, if◌then◌else◌, get_or, length, not,
}
use cheet_os.Io.{Device, Log, inb}
use cheet_os.Screen.{Screen, store, putc, clear}

-- The driver's variables.
pub record Keyboard : Type 0 where
  pub ctrl_stat : ℕ
  pub shift_stat : ℕ
  pub alt_stat : ℕ
  pub caps_stat : ℕ
  pub pushed_key : ℕ

abbrev pub num_char_handle : ℕ
num_char_handle = 58

-- The two columns of `scan2ascii`, without and with shift.
abbrev pub scan2ascii_plain : List ℕ
scan2ascii_plain =
    0 ∷ 27 ∷ b'1' ∷ b'2' ∷ b'3' ∷ b'4' ∷ b'5' ∷ b'6' ∷ b'7' ∷ b'8' ∷ b'9' ∷ b'0' ∷ b'-' ∷ b'=' ∷ 8
    ∷ 9 ∷ b'q' ∷ b'w' ∷ b'e' ∷ b'r' ∷ b't' ∷ b'y' ∷ b'u' ∷ b'i' ∷ b'o' ∷ b'p' ∷ b'[' ∷ b']' ∷ 13 ∷ 0
    ∷ b'a' ∷ b's' ∷ b'd' ∷ b'f' ∷ b'g' ∷ b'h' ∷ b'j' ∷ b'k' ∷ b'l' ∷ b';' ∷ 39 ∷ b'`' ∷ 0 ∷ 92
    ∷ b'z' ∷ b'x' ∷ b'c' ∷ b'v' ∷ b'b' ∷ b'n' ∷ b'm' ∷ b',' ∷ b'.' ∷ b'/' ∷ 0 ∷ 0 ∷ 0 ∷ b' ' ∷ []

abbrev pub scan2ascii_shifted : List ℕ
scan2ascii_shifted =
    0 ∷ 27 ∷ b'!' ∷ b'@' ∷ b'#' ∷ b'$' ∷ b'%' ∷ b'^' ∷ b'&' ∷ b'*' ∷ b'(' ∷ b')' ∷ b'_' ∷ b'+' ∷ 8
    ∷ 9 ∷ b'Q' ∷ b'W' ∷ b'E' ∷ b'R' ∷ b'T' ∷ b'Y' ∷ b'U' ∷ b'I' ∷ b'O' ∷ b'P' ∷ b'{' ∷ b'}' ∷ 13 ∷ 0
    ∷ b'A' ∷ b'S' ∷ b'D' ∷ b'F' ∷ b'G' ∷ b'H' ∷ b'J' ∷ b'K' ∷ b'L' ∷ b':' ∷ 34 ∷ b'~' ∷ 0 ∷ b'|'
    ∷ b'Z' ∷ b'X' ∷ b'C' ∷ b'V' ∷ b'B' ∷ b'N' ∷ b'M' ∷ b'<' ∷ b'>' ∷ b'?' ∷ 0 ∷ 0 ∷ 0 ∷ b' ' ∷ []

unfoldable pub scan2ascii : (scancode column : ℕ) → ℕ
scan2ascii scancode column =
    if column == 0 then get_or scan2ascii_plain scancode 0 else get_or scan2ascii_shifted scancode 0

abbrev pub backspace_key : ℕ
backspace_key = 0x0E

abbrev pub key_l : ℕ
key_l = 0x26

abbrev pub key_enter : ℕ
key_enter = 0x1C

-- Caps lock on a key code, a byte.
unfoldable pub with_caps : (caps keycode : ℕ) → ℕ
with_caps caps keycode =
    if caps == 0
    then keycode
    else if leb b'a' keycode && leb keycode b'z'
    then keycode - 0x20
    else if leb b'A' keycode && leb keycode b'Z'
    then keycode + 0x20
    else keycode

-- The regular key code of a scan code.
unfoldable pub regular : Keyboard → ℕ → ℕ
regular k scancode = with_caps k.caps_stat (scan2ascii scancode k.shift_stat)

-- What is left of the default case with control held.
unfoldable pub with_ctrl : Keyboard → ℕ → Option ℕ
with_ctrl k scancode =
    if scancode == backspace_key || scancode == key_enter
    then some (regular k scancode)
    else if scancode == key_l
    then (let keycode = scan2ascii scancode 0 in
        if leb b'a' keycode && leb keycode b'z'
        then some (keycode - b'a' + 1)
        else some (regular k scancode))
    else none

-- The default case: the key code, or `none` where the handler returns at once.
unfoldable pub key_of : Keyboard → ℕ → Option ℕ
key_of k scancode =
    if not (k.alt_stat == 0) && not (scancode == backspace_key)
    then none
    else if ltb scancode num_char_handle
    then (if not (k.ctrl_stat == 0) then with_ctrl k scancode else some (regular k scancode))
    else some (if not (k.alt_stat == 0) then 8 else 0)

-- `if (keycode) pushed_key = keycode`
unfoldable pub push : Option ℕ → Keyboard → Keyboard
push none k = k
push (some keycode) k = if keycode == 0 then k else record k { pushed_key = keycode }

-- `handle_charpress` with the scan code that it has read.
unfoldable pub press : ℕ → Keyboard → Keyboard
press scancode k =
    if scancode == 0x1D
    then record k { ctrl_stat = 1 }
    else if scancode == 0x9D
    then record k { ctrl_stat = 0 }
    else if scancode == 0x2A || scancode == 0x36
    then record k { shift_stat = 1 }
    else if scancode == 0xAA || scancode == 0xB6
    then record k { shift_stat = 0 }
    else if scancode == 0x38
    then record k { alt_stat = 1 }
    else if scancode == 0xB8
    then record k { alt_stat = 0 }
    else if scancode == 0x3A
    then record k { caps_stat = if k.caps_stat == 0 then 1 else 0 }
    else if scancode == 0xBA
    then k
    else push (key_of k scancode) k

unfoldable pub handle_charpress : Device → Keyboard → Log → Keyboard × Log
handle_charpress device k log =
    let (scancode, log') = inb device 0x60 log in (press scancode k, log')

-- The scan codes that arrive before each poll of a wait.
abbrev pub Schedule : Type 0
Schedule = List (List ℕ)

unfoldable pub press_all : List ℕ → Keyboard → Keyboard
press_all [] k = k
press_all (c ∷ cs) k = press_all cs (press c k)

-- The wait of `getchar`: the character with what is left of the schedule, or `none` while it waits.
unfoldable pub getchar : Schedule → Keyboard → Option (ℕ × Schedule × Keyboard)
getchar [] k = none
getchar (batch ∷ later) k =
    let seen = press_all batch k in
    let rest =
      getchar later (if seen.pushed_key == 0 then seen else record seen { pushed_key = 0 }) in
    if not (seen.pushed_key == 0) && ltb seen.pushed_key 0x80
    then some (seen.pushed_key, later, record seen { pushed_key = 0 })
    else rest

-- The line being edited: the memory from `buf` on, `lp - buf`, and the screen that echoes it.
pub record Line : Type 0 where
  pub buf : ℕ → ℕ
  pub lp : ℕ
  pub screen : Screen

-- One round of the loop of `getline`: it returns, or goes on.
pub data Round : Type 0 where
  done : Line → Round
  more : Line → Round

unfoldable pub edit : (max c : ℕ) → Line → Round
edit max c l =
    if c == b'\n' || c == b'\r'
    then done (record l { buf = store l.buf l.lp 0; screen = putc b'\n' l.screen })
    else if c == 8 || c == 127
    then more (if ltb 0 l.lp then record l { lp = l.lp - 1; screen = putc 8 l.screen } else l)
    else if c == 12
    then more (record l { lp = 0; screen = clear l.screen })
    else if leb max l.lp
    then more l
    else if leb 0x20 c && leb c 0x7E
    then more (record { buf = store l.buf l.lp c; lp = l.lp + 1; screen = putc c l.screen })
    else more l

-- Return from the loop, or go on with it.
unfoldable pub resume :
    Round → Keyboard → (Line → Option (Line × Keyboard)) → Option (Line × Keyboard)
resume (done l) k next = some (l, k)
resume (more l) k next = next l

-- `getline` over a schedule, on fuel; `none` means that the line is not ended when the schedule is.
-- The number returned is the field `lp`.
unfoldable pub getline_from : (max fuel : ℕ) → Schedule → Keyboard → Line → Option (Line × Keyboard)
getline_from max zero schedule k l = none
getline_from max (suc fuel) schedule k l = elim (getchar schedule k) [
  | none ↦ none
  | some (key, later, k') ↦ resume (edit max (key % 128) l) k' (getline_from max fuel later k')
]

-- A character takes at least one poll, so the length of the schedule is fuel enough.
unfoldable pub getline :
    (max : ℕ) → Schedule → Keyboard → (buf : ℕ → ℕ) → Screen → Option (Line × Keyboard)
getline max schedule k buf s =
    getline_from max (length schedule + 1) schedule k (record { buf = buf; lp = 0; screen = s })

-- ===== src/Terminal/Input.antt =====
-- `terminal_read` against the abstract editor, and what it writes in the caller's memory.
use cheet_os.Base.{
  ℕ, ◌%◌, ◌≤◌, ◌<◌, ◌≡◌, refl, ◌≢◌, min, arith, Option, none, some, List, [], length, get_or, map,
  if◌then◌else◌, ltb,
}
use mathlib.Core.Option
use cheet_os.Screen.Grid
use cheet_os.Keyboard.{Keyboard, Line, Schedule}
use cheet_os.Keyboard.Typed.{keystrokes, edited, Gives, getline_lem}
use cheet_os.Terminal.{Terminal, Reply, of_line, max_input_chars, terminal_read}

-- The caller's memory `buf` holds a line `t` of at most `max` characters with its terminator, over
-- the bytes `old`. With a line of `max` characters the terminator is the byte behind them.
pub record Filled (max : ℕ) (old buf : ℕ → ℕ) (n : ℕ) (t : List ℕ) : Type 0 where
  pub count : n ≡ length t
  pub within : n ≤ max
  pub chars : (i : ℕ) → i < n → buf i ≡ get_or t i 0
  pub ended : buf n ≡ 0
  pub rest : (i : ℕ) → max ≤ i → i ≢ n → buf i ≡ old i

abbrev pub ReadsLine : ℕ → (ℕ → ℕ) → Option (List ℕ) → Reply → Type 0
ReadsLine max old none o = o ≡ none
ReadsLine max old (some t) o =
    (n : ℕ) × (buf : ℕ → ℕ) × (u : Terminal) × (o ≡ some (n, some buf, u))
    × Filled max old buf n t
    × Grid.IsValid u.screen

of_Gives :
    (max : ℕ) (old : ℕ → ℕ) (e : Option (List ℕ)) (o : Option (Line × Keyboard))
    → Gives max old e o
    → ReadsLine max old e (Option.map of_line o)
unfolding of_line
of_Gives max old none o g = rw g refl
of_Gives max old (some t) o (r, e, h, d) = (
  r.0.lp,
  r.0.buf,
  record { keyboard = r.1; screen = r.0.screen },
  rw e refl,
  record {
    count = h.size;
    within = d.within;
    chars = λ i lt. ground (arith, h.size, h.char i);
    ended = d.ended;
    rest = d.outside;
  },
  d.shown,
)

-- With the cursor on the screen, `terminal_read` on descriptor 0 returns if and only if the keys
-- typed end a line. It returns the line's length, at most 128 and at most what was asked for, and
-- fills the caller's memory with the line.
pub terminal_read_lem :
    (old : ℕ → ℕ) (num_chars : ℕ) (schedule : Schedule) (t : Terminal)
    → Grid.IsValid t.screen
    → let max = min max_input_chars num_chars in
      ReadsLine max old
        (edited max (map (λ c. c % 128) (keystrokes schedule t.keyboard)) [])
        (terminal_read 0 (some old) num_chars schedule t)
unfolding terminal_read
terminal_read_lem old num_chars schedule t v =
    let clamp : (if ltb max_input_chars num_chars then max_input_chars else num_chars)
        ≡ min max_input_chars num_chars =
      ground arith in
    rw clamp (
      of_Gives _ old _ _
        (getline_lem (min max_input_chars num_chars) old schedule t.keyboard t.screen v))

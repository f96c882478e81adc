-- ===== src/Fish/Frames.antt =====
-- `add_frames` against the lines of the two texts, over files that are read character by character.
use cheet_os.Base.{
  ℕ, suc, ◌+◌, ◌*◌, ◌%◌, ◌^◌, ◌≤◌, ◌≡◌, refl, inl, inr, List, [], ◌∷◌, ◌++◌, Option, none, some,
  ◌==◌, ◌&&◌, if◌then◌else◌, Bool-cases, arith, length,
}
use cheet_os.Fish.Blinks.{Blink, Board, mp1_ioctl_add}

-- The text up to the end of its first line, and what is behind it; `none` when the text has no line end.
unfoldable pub first_line : List ℕ → List ℕ × Option (List ℕ)
first_line [] = ([], none)
first_line (x ∷ xs) =
    let (line, after) = first_line xs in if x == b'\n' then ([], some xs) else (x ∷ line, after)

unfoldable pub next_line : Option (List ℕ) → List ℕ × Option (List ℕ)
next_line none = ([], none)
next_line (some text) = first_line text

-- What stands at one place of the two frames: nothing where both have a blank.
unfoldable pub place : Blink → (row col x y : ℕ) → List Blink → List Blink
place junk row col x y rest =
    if x == b' ' && y == b' '
    then rest
    else record junk {
      on_length = 15;
      off_length = 15;
      on_char = x;
      off_char = y;
      location = (row * 80 + col + 40) % 2 ^ 16;
    }
      ∷ rest

-- The blinks of two lines; the shorter one goes on with blanks.
unfoldable pub line_blinks : Blink → (row col : ℕ) → (line0 line1 : List ℕ) → List Blink
line_blinks junk row col [] [] = []
line_blinks junk row col (x ∷ xs) [] =
    place junk row col x b' ' (line_blinks junk row (col + 1) xs [])
line_blinks junk row col [] (y ∷ ys) =
    place junk row col b' ' y (line_blinks junk row (col + 1) [] ys)
line_blinks junk row col (x ∷ xs) (y ∷ ys) =
    place junk row col x y (line_blinks junk row (col + 1) xs ys)

-- Adding blinks one after the other.
unfoldable pub add_all : List Blink → Board → Board
add_all [] s = s
add_all (b ∷ bs) s = add_all bs (mp1_ioctl_add b s).1

pub add_all-append :
    (bs cs : List Blink) (s : Board) → add_all (bs ++ cs) s ≡ add_all cs (add_all bs s)
unfolding add_all
add_all-append [] cs s = refl
add_all-append (b ∷ bs) cs s = add_all-append bs cs (mp1_ioctl_add b s).1

-- A text cut at its line ends; what stands behind the last one is a line as well.
unfoldable pub lines : List ℕ → List (List ℕ)
lines [] = [] ∷ []
lines (x ∷ xs) = if x == b'\n' then [] ∷ lines xs else longer x (lines xs)
  where
    longer : ℕ → List (List ℕ) → List (List ℕ)
    longer x [] = (x ∷ []) ∷ []
    longer x (l ∷ ls) = (x ∷ l) ∷ ls

-- The blinks of two frames, one row of both after the other; the shorter frame goes on with empty lines.
unfoldable pub frame_blinks : Blink → (row : ℕ) → (frame0 frame1 : List (List ℕ)) → List Blink
frame_blinks junk row [] [] = []
frame_blinks junk row (l ∷ ls) [] = line_blinks junk row 0 l [] ++ frame_blinks junk (row + 1) ls []
frame_blinks junk row [] (k ∷ ks) = line_blinks junk row 0 [] k ++ frame_blinks junk (row + 1) [] ks
frame_blinks junk row (l ∷ ls) (k ∷ ks) =
    line_blinks junk row 0 l k ++ frame_blinks junk (row + 1) ls ks

abbrev pub file_lines : Option (List ℕ) → List (List ℕ)
file_lines none = []
file_lines (some text) = lines text

abbrev pub size : Option (List ℕ) → ℕ
size none = 0
size (some text) = suc (length text)

pub lines-first_line :
    (text : List ℕ) → lines text ≡ (first_line text).0 ∷ file_lines (first_line text).1
unfolding lines first_line
lines-first_line [] = refl
lines-first_line (x ∷ xs) = elim (Bool-cases (x == b'\n')) [
  | inl end ↦ rw end refl
  | inr on ↦ rw on (rw (lines-first_line xs) refl)
]

pub first_line-size :
    (text : List ℕ)
    → (length (first_line text).0 ≤ length text) × (size (first_line text).1 ≤ length text)
unfolding first_line
first_line-size [] = (omega arith, omega arith)
first_line-size (x ∷ xs) = elim (Bool-cases (x == b'\n')) [
  | inl end ↦ rw end (omega arith, omega arith)
  | inr on ↦ let (a, b) = first_line-size xs in rw on (omega arith, omega arith)
]

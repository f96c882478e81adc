-- ===== src/Screen/Safe.antt =====
-- `putc` writes inside the 4000 bytes of video memory only.
use cheet_os.Base.{
  ℕ, ◌+◌, ◌≤◌, ◌<◌, ◌≡◌, refl, ◌∙◌, List, [], ◌∷◌, true, arith, ◌==◌, if◌then◌else◌, length, ap₂,
  All,
}
use cheet_os.Screen.{
  Screen, store, draw, memset_word, memmove, newline, backspace, print, settle, putc, puts_from,
  puts,
}
use cheet_os.Screen.Grid.{IsValid, putc-IsValid, glyph, cursor, cells, prints, putc-print}

settle-outside : (s : Screen) (a : ℕ) → 4000 ≤ a → (settle s).video a ≡ s.video a
unfolding settle memset_word memmove
settle-outside s a h = ground arith

-- Whatever byte is put, the memory behind the screen keeps its bytes.
pub putc-outside :
    (c : ℕ) {s : Screen} (a : ℕ) → IsValid s → 4000 ≤ a → (putc c s).video a ≡ s.video a
unfolding putc newline backspace print draw store
putc-outside c {s} a v h = ground (
  arith,
  settle-outside (newline s) a,
  settle-outside (backspace s) a,
  settle-outside (print c s) a,
)

puts_from-safe :
    (text : List ℕ) (index : ℕ) {s : Screen} (a : ℕ)
    → IsValid s
    → 4000 ≤ a
    → let (n, s') = puts_from text index s in
      (n ≡ index + length text) × IsValid s' × (s'.video a ≡ s.video a)
unfolding puts_from
puts_from-safe [] index a v h = (omega arith, v, refl)
puts_from-safe (c ∷ text) index {s} a v h =
    let (n, v', same) = puts_from-safe text (index + 1) a (putc-IsValid c v) h in
    (omega arith, v', same ∙ putc-outside c a v h)

-- With the cursor on the screen, `puts` returns how many characters it put; it keeps the cursor
-- on the screen and every byte of memory behind the 4000 of the screen.
pub puts_lem :
    (text : List ℕ) {s : Screen} (a : ℕ)
    → IsValid s
    → 4000 ≤ a
    → let (n, s') = puts text s in (n ≡ length text) × IsValid s' × (s'.video a ≡ s.video a)
unfolding puts
puts_lem text a v h = let (n, v', same) = puts_from-safe text 0 a v h in (omega arith, v', same)

-- The character of cell `p` after `text` is written over the cells from `start` on.
unfoldable pub overlay : (text : List ℕ) (start p old : ℕ) → ℕ
overlay [] start p old = old
overlay (c ∷ text) start p old = overlay text (start + 1) p (if p == start then c else old)

abbrev pub AllPrint : List ℕ → Type 0
AllPrint = All (λ c. prints c ≡ true)

puts_from-overlay :
    (text : List ℕ) (index : ℕ) {s : Screen} (p : ℕ)
    → IsValid s
    → AllPrint text
    → cursor s + length text < cells
    → let s' = (puts_from text index s).1 in
      (cursor s' ≡ cursor s + length text) × (glyph s' p ≡ overlay text (cursor s) p (glyph s p))
unfolding puts_from overlay
puts_from-overlay [] index p v ok room = (omega arith, refl)
puts_from-overlay (c ∷ text) index {s} p v ok room =
    let (moved, shown) = putc-print c p v ok.0 (omega arith) in
    let (there, all) = puts_from-overlay text (index + 1) p (putc-IsValid c v) ok.1 (omega arith) in
    (omega arith, all ∙ ap₂ (λ at old. overlay text at p old) moved shown)

-- Where the cursor is on the screen and a text of printed characters fits before the last cell,
-- `puts` writes it over the cells from the cursor on, leaves the other cells alone, and moves the
-- cursor behind it.
pub puts-overlay :
    (text : List ℕ) {s : Screen} (p : ℕ)
    → IsValid s
    → AllPrint text
    → cursor s + length text < cells
    → let s' = (puts text s).1 in
      (cursor s' ≡ cursor s + length text) × (glyph s' p ≡ overlay text (cursor s) p (glyph s p))
unfolding puts
puts-overlay text p v ok room = puts_from-overlay text 0 p v ok room

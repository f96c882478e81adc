-- ===== src/Screen/Tests.antt =====
-- Characters put on an empty screen, and the theorems at them.
use cheet_os.Base.{ℕ, ◌+◌, ◌-◌, ◌≡◌, refl, List, [], ◌∷◌, ◌==◌, leb, if◌then◌else◌, arith, length}
use cheet_os.Screen.{Screen, num_cols, clear, putc, puts, puts_from, print, settle, draw, store}
use cheet_os.Screen.Grid.{IsValid, cells, glyph, cursor, putc-scroll}
use cheet_os.Screen.Safe.{AllPrint, puts_lem}
use cheet_os.Screen.Cursor.{Shows, putc-Shows, clear_lem}

abbrev blank : Screen
blank = record { video = λ a. 0; screen_x = 0; screen_y = 0; log = [] }

blank-IsValid : IsValid blank
blank-IsValid = record { column = omega arith; row = omega arith }

-- The cursor in the first and in the last cell of the last row.
abbrev low : Screen
low = record blank { screen_y = 24 }

low-IsValid : IsValid low
low-IsValid = record { column = omega arith; row = omega arith }

abbrev last : Screen
last = record blank { screen_x = 79; screen_y = 24 }

last-IsValid : IsValid last
last-IsValid = record { column = omega arith; row = omega arith }

cleared-IsValid : IsValid (clear blank)
unfolding clear
cleared-IsValid = record { column = omega arith; row = omega arith }

abbrev hi : List ℕ
hi = b'h' ∷ b'i' ∷ []

hi-AllPrint : AllPrint hi
hi-AllPrint = (refl, (refl, tt))

hi_is_shown : (glyph (puts hi blank).1 0 ≡ b'h') × (glyph (puts hi blank).1 1 ≡ b'i')
unfolding glyph puts puts_from putc print settle draw store
hi_is_shown = (refl, refl)

putc-scroll_example :
    (cursor (putc b'x' last) ≡ cells - num_cols)
    × (glyph (putc b'x' last) 1919 ≡ (
        if leb (cells - num_cols) 1919
        then b' '
        else if 1919 + num_cols == cursor last
        then b'x'
        else glyph last (1919 + num_cols)))
putc-scroll_example = putc-scroll b'x' 1919 last-IsValid refl (unfold cursor in refl) (omega arith)

puts_lem_example :
    let (n, s') = puts hi last in (n ≡ length hi) × IsValid s' × (s'.video 4000 ≡ last.video 4000)
puts_lem_example = puts_lem hi 4000 last-IsValid (omega arith)

putc-Shows_example : Shows (putc b'x' (clear blank))
putc-Shows_example = putc-Shows b'x' cleared-IsValid (clear_lem blank 0 (omega arith)).3

-- ===== src/Terminal/Output.antt =====
-- `terminal_write` against `puts`: it puts the text of the first bytes of the buffer.
use cheet_os.Base.{
  ℕ, zero, suc, ◌+◌, ◌≡◌, refl, ap, false, some, List, [], ◌∷◌, ◌==◌, if◌then◌else◌, arith,
  Bool-cases, inl, inr,
}
use cheet_os.Screen.{Screen, putc, puts, puts_from}
use cheet_os.Terminal.{Terminal, write_from, terminal_write}

-- The characters before the first 0 among the `todo` bytes from `idx` on.
unfoldable pub text : (ℕ → ℕ) → (todo idx : ℕ) → List ℕ
text buf zero idx = []
text buf (suc todo) idx =
    let rest = text buf todo (idx + 1) in if buf idx == 0 then [] else buf idx ∷ rest

write_from-puts :
    (buf : ℕ → ℕ) (todo idx : ℕ) (s : Screen)
    → write_from buf todo idx s ≡ puts_from (text buf todo idx) idx s
unfolding write_from text puts_from
write_from-puts buf zero idx s = refl
write_from-puts buf (suc todo) idx s = elim (Bool-cases (buf idx == 0)) [
  | inl end ↦ rw (end, puts_from)
  | inr on ↦ rw (on, puts_from) (write_from-puts buf todo (idx + 1) (putc (buf idx) s))
]

-- On descriptor 1 `terminal_write` puts the characters before the first 0 of the `num_chars` bytes
-- of the buffer, as `puts` does, and returns how many they are; the keyboard is left alone.
pub terminal_write-puts :
    (buf : ℕ → ℕ) (num_chars : ℕ) (t : Terminal)
    → terminal_write 1 (some buf) num_chars t
      ≡ (let (n, s) = puts (text buf num_chars 0) t.screen in (n, record t { screen = s }))
unfolding terminal_write puts puts_from text
terminal_write-puts buf zero t = refl
terminal_write-puts buf (suc n) t =
    let some_left : (suc n == 0) ≡ false = ground arith in
    rw some_left (
      ap (λ (r : ℕ × Screen). (r.0, record t { screen = r.1 }))
        (write_from-puts buf (suc n) 0 t.screen))

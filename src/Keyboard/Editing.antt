-- ===== src/Keyboard/Editing.antt =====
-- The line editor: what `getline` leaves in the buffer, and where it writes.
use cheet_os.Base.{
  ℕ, ◌+◌, ◌-◌, ◌≤◌, ◌<◌, ◌≡◌, ◌≢◌, inl, inr, true, false, ◌&&◌, ◌||◌, ltb, leb, ◌==◌, arith,
  Bool-cases,
}
use cheet_os.Screen.{Screen, store, putc, clear}
use cheet_os.Screen.Grid
use cheet_os.Screen.Grid.{putc-IsValid}
use cheet_os.Keyboard.{Line, Round, done, more, edit}

-- A line under edit in a buffer for `max` characters, where the memory was `old` before: at most
-- `max` characters, all printable, and nothing written behind them.
pub record IsLine (max : ℕ) (old : ℕ → ℕ) (l : Line) : Type 0 where
  pub within : l.lp ≤ max
  pub printable : (i : ℕ) → i < l.lp → (0x20 ≤ l.buf i) × (l.buf i ≤ 0x7E)
  pub outside : (i : ℕ) → max ≤ i → l.buf i ≡ old i
  pub shown : Grid.IsValid l.screen

-- A finished line: a terminator after at most `max` printable characters. The byte at `max` itself
-- is written, by that terminator, exactly if the line has `max` characters.
pub record IsDone (max : ℕ) (old : ℕ → ℕ) (l : Line) : Type 0 where
  pub within : l.lp ≤ max
  pub printable : (i : ℕ) → i < l.lp → (0x20 ≤ l.buf i) × (l.buf i ≤ 0x7E)
  pub ended : l.buf l.lp ≡ 0
  pub outside : (i : ℕ) → max ≤ i → i ≢ l.lp → l.buf i ≡ old i
  pub shown : Grid.IsValid l.screen

abbrev pub IsRound : ℕ → (ℕ → ℕ) → Round → Type 0
IsRound max old (done l) = IsDone max old l
IsRound max old (more l) = IsLine max old l

clear-IsValid : (s : Screen) → Grid.IsValid (clear s)
unfolding clear
clear-IsValid s = omega arith

module _ (max : ℕ) (old : ℕ → ℕ) {l : Line} (v : IsLine max old l) where
  edit-end : IsDone max old (record l { buf = store l.buf l.lp 0; screen = putc b'\n' l.screen })
  unfolding store
  edit-end = record {
    within = v.within;
    printable = λ i h. ground (arith, v.printable i);
    ended = ground arith;
    outside = λ i h ne. ground (arith, v.outside i);
    shown = putc-IsValid b'\n' v.shown;
  }

  edit-back : IsLine max old (record l { lp = l.lp - 1; screen = putc 8 l.screen })
  edit-back = record {
    within = omega (arith, v.within);
    printable = λ i h. v.printable i (omega arith);
    outside = v.outside;
    shown = putc-IsValid 8 v.shown;
  }

  edit-clear : IsLine max old (record l { lp = 0; screen = clear l.screen })
  edit-clear = record {
    within = omega arith;
    printable = λ i h. v.printable i (omega arith);
    outside = v.outside;
    shown = clear-IsValid l.screen;
  }

  edit-add :
      (c : ℕ)
      → leb max l.lp ≡ false
      → (leb 0x20 c && leb c 0x7E) ≡ true
      → IsLine max old
          (record { buf = store l.buf l.lp c; lp = l.lp + 1; screen = putc c l.screen })
  unfolding store
  edit-add c room ok = record {
    within = ground arith;
    printable = λ i h. ground (arith, v.printable i);
    outside = λ i h. ground (arith, v.outside i);
    shown = putc-IsValid c v.shown;
  }

  -- One round keeps the line well formed, or ends it well.
  pub edit-IsRound : (c : ℕ) → IsRound max old (edit max c l)
  unfolding edit
  edit-IsRound c = elim (Bool-cases (c == b'\n' || c == b'\r')) [
    | inl e ↦ rw e edit-end
    | inr e ↦ rw e (elim (Bool-cases (c == 8 || c == 127)) [
      | inl e ↦ rw e (elim (Bool-cases (ltb 0 l.lp)) [ inl e ↦ rw e edit-back | inr e ↦ rw e v ])
      | inr e ↦ rw e (elim (Bool-cases (c == 12)) [
        | inl e ↦ rw e edit-clear
        | inr e ↦ rw e (elim (Bool-cases (leb max l.lp)) [
          | inl e ↦ rw e v
          | inr room ↦ rw room (elim (Bool-cases (leb 0x20 c && leb c 0x7E)) [
            | inl e ↦ rw e (edit-add c room e)
            | inr e ↦ rw e v
          ])
        ])
      ])
    ])
  ]

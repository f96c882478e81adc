-- ===== src/Fish.antt =====
-- fish/fish.c: two frames of text whose characters blink by turns, over the blinks of blink.S.
pub mod Blinks
pub mod Chain
pub mod Room
pub mod Remove
pub mod Tick
pub mod Frames
pub mod Lines
pub mod Lit
pub mod Rows
pub mod Added
pub mod Kernel
pub mod Files
mod Tests
use cheet_os.Base.{
  ℕ, zero, suc, ◌+◌, ◌-◌, ◌*◌, ◌/◌, ◌%◌, ◌^◌, Bool, true, false, not, ◌&&◌, ◌||◌, Option, none,
  some, List, [], ◌∷◌, ◌==◌, ltb, leb, if◌then◌else◌, get_or, bytes, ◌>>=◌, minus_one, lt_signed,
}
use cheet_os.Screen.{store}
use cheet_os.Programs.{Calls, literal}
use cheet_os.Fish.Blinks.{
  Blink, Board, cleared, num_blinks, mp1_ioctl_add, mp1_ioctl_sync, mp1_ioctl_remove,
  mp1_rtc_tasklet,
}

unfoldable pub ece391_memset : (ℕ → ℕ) → (memory c n : ℕ) → ℕ → ℕ
ece391_memset m memory c zero = m
ece391_memset m memory c (suc n) = ece391_memset (store m memory c) (memory + 1) c n

unfoldable pub ece391_memcpy : (ℕ → ℕ) → (dest src n : ℕ) → ℕ → ℕ
ece391_memcpy m dest src zero = m
ece391_memcpy m dest src (suc n) = ece391_memcpy (store m dest (m src)) (dest + 1) (src + 1) n

-- The variables of `add_frames` that its loops change.
pub record Reading (σ : Type 0) : Type 0 where
  pub c0 : ℕ
  pub c1 : ℕ
  pub eof0 : Bool
  pub eof1 : Bool
  pub machine : σ
  pub board : Board

-- A program ends by `ece391_halt`, or goes on with its machine and its blinks.
pub data Course (σ : Type 0) : Type 0 where
  halts : (status : ℕ) → σ → Board → Course σ
  goes_on : σ → Board → Course σ

-- The struct on the stack that is added; `junk` is what the stack holds where it lies.
abbrev pub drawn : Blink → (row col c0 c1 : ℕ) → Blink
drawn junk row col c0 c1 = record junk {
  on_length = 15;
  off_length = 15;
  on_char = if c0 == b'\n' then b' ' else c0;
  off_char = if c1 == b'\n' then b' ' else c1;
  location = (row * 80 + col + 40) % 2 ^ 16;
}

abbrev pub draws : (c : ℕ) → Bool
draws c = not (c == b' ') && not (c == b'\n')

module _ {σ : Type 0} (sys : Calls σ) (junk : Blink) where
  -- The character of a file that comes next, unless its line is over.
  unfoldable pub read_char : (fd c : ℕ) → (eof : Bool) → σ → Option (ℕ × Bool × σ)
  read_char fd c eof m = if c == b'\n' then some (c, eof, m) else do
    answer ← sys.read fd (λ i. c) 1 m
    let (num_bytes, buf, m1) = answer
    (if num_bytes == 0 then some (b'\n', true, m1) else some (buf 0, eof, m1))

  unfoldable pub draw_place : (row col c0 c1 : ℕ) → Board → Board
  draw_place row col c0 c1 s =
      if draws c0 || draws c1 then (mp1_ioctl_add (drawn junk row col c0 c1) s).1 else s

  -- The loop over a row, on fuel.
  unfoldable pub row_from : (fuel fd0 fd1 row col : ℕ) → Reading σ → Option (Reading σ)
  row_from zero fd0 fd1 row col r = none
  row_from (suc fuel) fd0 fd1 row col r = do
    a ← read_char fd0 r.c0 r.eof0 r.machine
    b ← read_char fd1 r.c1 r.eof1 a.2
    let r' = record r { c0 = a.0; eof0 = a.1; c1 = b.0; eof1 = b.1; machine = b.2 }
    let rest =
        row_from fuel fd0 fd1 row (col + 1)
          (record r' { board = draw_place row col a.0 b.0 r.board })
    (if a.0 == b'\n' && b.0 == b'\n' then some r' else rest)

  -- What follows a row for one of the files.
  unfoldable pub end_row : (fd : ℕ) → (eof : Bool) → σ → Option (ℕ × σ)
  end_row fd eof m =
      if eof then (do done ← sys.close fd m; some (b'\n', done.1)) else some (b'0', m)

  -- The loop over the rows, on fuel, with the fuel of a row.
  unfoldable pub rows_from : (fuel line fd0 fd1 row : ℕ) → Reading σ → Option (Reading σ)
  rows_from zero line fd0 fd1 row r = if not r.eof0 || not r.eof1 then none else some r
  rows_from (suc fuel) line fd0 fd1 row r =
      if not r.eof0 || not r.eof1
      then (do
        r1 ← row_from line fd0 fd1 row 0 r
        a ← end_row fd0 r1.eof0 r1.machine
        b ← end_row fd1 r1.eof1 a.1
        rows_from fuel line fd0 fd1 (row + 1) (record r1 { c0 = a.0; c1 = b.0; machine = b.1 }))
      else some r

  unfoldable pub add_frames : (fuel : ℕ) → (f0 f1 : List ℕ) → σ → Board → Option (Course σ)
  add_frames fuel f0 f1 m s = do
    a ← sys.open_file (literal f0) m
    (if lt_signed a.0 0 then some (halts 255 a.1 s) else do
      b ← sys.open_file (literal f1) a.1
      (if lt_signed b.0 0 then some (halts 255 b.1 s) else do
        r ←
            rows_from fuel fuel a.0 b.0 0 (record {
              c0 = b'0';
              c1 = b'0';
              eof0 = false;
              eof1 = false;
              machine = b.1;
              board = s;
            })
        some (goes_on r.machine r.board)))

  -- A loop of `main` that waits for ticks, with `todo` rounds to go.
  unfoldable pub wait :
      (todo rtc_fd : ℕ) → (garbage : ℕ → ℕ) → σ → Board → Option ((ℕ → ℕ) × σ × Board)
  wait zero rtc_fd garbage m s = some (garbage, m, s)
  wait (suc todo) rtc_fd garbage m s = do
    answer ← sys.read rtc_fd garbage 4 m
    let (count, garbage1, m1) = answer
    s1 ← mp1_rtc_tasklet s
    wait todo rtc_fd garbage1 m1 s1

  -- From the write to the clock to the end of `main`.
  unfoldable pub animate : (rtc_fd : ℕ) → (garbage : ℕ → ℕ) → σ → Board → Option (Course σ)
  animate rtc_fd garbage m s = do
    w ← sys.write rtc_fd (literal (32 ∷ 0 ∷ 0 ∷ 0 ∷ [])) 4 m
    a ← wait 100 rtc_fd garbage w.1 s
    let added =
        mp1_ioctl_add
          (record junk {
            on_char = b'I';
            off_char = b'M';
            on_length = 7;
            off_length = 6;
            location = 6 * 80 + 60;
          })
          a.2
    b ← wait 100 rtc_fd a.0 a.1 added.1
    synced ← mp1_ioctl_sync (40 * 2 ^ 16 + (6 * 80 + 60)) b.2
    c ← wait 100 rtc_fd b.0 b.1 synced.1
    gone ← mp1_ioctl_remove (6 * 80 + 60) c.2
    d ← wait 100 rtc_fd c.0 c.1 gone.1
    closed ← sys.close rtc_fd d.1
    some (halts 0 closed.1 d.2)

  -- `vidmap` gives its value and the pointer that it has stored; the result is a pointer.
  unfoldable pub mp1_set_video_mode : (σ → Option (ℕ × ℕ × σ)) → σ → Option (ℕ × σ)
  mp1_set_video_mode vidmap m = do
    mapped ← vidmap m
    (if mapped.0 == minus_one then some (0, mapped.2) else some (mapped.1, mapped.2))

  -- `vmem` is what lies at the pointer.
  unfoldable pub main :
      (vidmap : σ → Option (ℕ × ℕ × σ))
      → (fuel : ℕ) → (garbage : ℕ → ℕ) → (vmem : ℕ → ℕ) → σ
      → Option (Course σ)
  main vidmap fuel garbage vmem m = do
    mapped ← mp1_set_video_mode vidmap m
    let empty : Board = record { blink_array = λ i. cleared; mp1_list_head = none; vmem = vmem }
    (if mapped.0 == 0 then some (halts minus_one mapped.1 empty) else do
      rtc ← sys.open_file (literal (bytes "rtc")) mapped.1
      course ← add_frames fuel (bytes "frame0.txt") (bytes "frame1.txt") rtc.1 empty
      (elim course [
        | halts status m1 s ↦ some (halts status m1 s)
        | goes_on m1 s ↦ animate rtc.0 garbage m1 s
      ]))

-- ===== src/Fish/Added.antt =====
-- `add_frames` adds the blinks of the two texts.
use cheet_os.Base.{
  ℕ, zero, suc, ◌+◌, ◌^◌, ◌<◌, ◌≤◌, ◌≡◌, refl, ◌∙◌, sym, ap, inl, inr, List, [], ◌++◌, Option, none,
  some, ◌||◌, not, Bool, Bool-cases, arith, true, false, length, lt_signed,
}
use cheet_os.Programs.{Calls, literal}
use cheet_os.Fish.Blinks.{Blink, Board}
use cheet_os.Fish.{Reading, goes_on, row_from, end_row, rows_from, add_frames}
use cheet_os.Fish.Frames.{
  next_line, line_blinks, add_all, add_all-append, lines, frame_blinks, file_lines, size,
  lines-first_line, first_line-size,
}
use cheet_os.Fish.Lines.{Source, Ended, Facing, Facing-kept}
use cheet_os.Fish.Rows.{At, row_from-Row}

next_line-size :
    (f : Option (List ℕ)) → (length (next_line f).0 ≤ size f) × (size (next_line f).1 ≤ size f)
unfolding next_line
next_line-size none = (omega arith, omega arith)
next_line-size (some text) = let (a, b) = first_line-size text in (omega arith, omega arith)

Facing-Ended :
    {σ : Type 0} (mine : σ → List ℕ → Type 0) (m : σ) (c : ℕ) (eof : Bool) (after : Option (List ℕ))
    → c ≡ b'\n'
    → Facing mine m c eof ([], after)
    → Ended mine m eof after
Facing-Ended mine m c eof after e (inl (_, _, end)) = end
Facing-Ended mine m c eof after e (inr (text, ne, _, _, _)) = absurd (ne e)

Ended-kept :
    {σ : Type 0} (mine : σ → List ℕ → Type 0) {m q : σ} (eof : Bool) (f : Option (List ℕ))
    → ((ds : List ℕ) → mine m ds → mine q ds)
    → Ended mine m eof f
    → Ended mine q eof f
Ended-kept mine eof none kept e = e
Ended-kept mine eof (some text) kept (e, left) = (e, kept text left)

abbrev at_end : Option (List ℕ) → Bool
at_end none = true
at_end (some text) = false

Ended-at_end :
    {σ : Type 0} (mine : σ → List ℕ → Type 0) (m : σ) (eof : Bool) (f : Option (List ℕ))
    → Ended mine m eof f
    → eof ≡ at_end f
Ended-at_end mine m eof none e = e
Ended-at_end mine m eof (some text) (e, left) = e

-- The first row of two files that are not both at their ends.
frame_blinks-next :
    (junk : Blink) (row : ℕ) (f0 f1 : Option (List ℕ))
    → (not (at_end f0) || not (at_end f1)) ≡ true
    → frame_blinks junk row (file_lines f0) (file_lines f1)
      ≡ line_blinks junk row 0 (next_line f0).0 (next_line f1).0
        ++ frame_blinks junk (row + 1) (file_lines (next_line f0).1) (file_lines (next_line f1).1)
unfolding frame_blinks next_line
frame_blinks-next junk row none none e = cc
frame_blinks-next junk row (some t) none e = rw (lines-first_line t) refl
frame_blinks-next junk row none (some u) e = rw (lines-first_line u) refl
frame_blinks-next junk row (some t) (some u) e = rw (lines-first_line t, lines-first_line u) refl

next_line-less : (f : Option (List ℕ)) → at_end f ≡ false → size (next_line f).1 < size f
unfolding next_line
next_line-less none e = cc
next_line-less (some text) e = let (a, b) = first_line-size text in omega arith

rows_shrink :
    (f0 f1 : Option (List ℕ))
    → (not (at_end f0) || not (at_end f1)) ≡ true
    → size (next_line f0).1 + size (next_line f1).1 < size f0 + size f1
rows_shrink none none e = cc
rows_shrink none (some u) e =
    let b = next_line-less (some u) refl in let a = (next_line-size none).1 in omega (arith, a, b)
rows_shrink (some t) none e =
    let b = next_line-less (some t) refl in let a = (next_line-size none).1 in omega (arith, a, b)
rows_shrink (some t) (some u) e =
    let b = next_line-less (some t) refl in
    let a = next_line-less (some u) refl in omega (arith, a, b)

module _ {σ : Type 0} (sys : Calls σ) (fd : ℕ) (sound : σ → Type 0)
    (mine other : σ → List ℕ → Type 0) (file : Source sys fd sound mine other) (junk : Blink) where
  -- The start of the next row for one file.
  end_row-Facing :
      (m : σ) (eof : Bool) (f : Option (List ℕ))
      → sound m
      → Ended mine m eof f
      → (r : ℕ × σ) × (end_row sys junk fd eof m ≡ some r)
        × Facing mine r.1 r.0 eof (next_line f)
        × sound r.1
        × ((ds : List ℕ) → other m ds → other r.1 ds)
  unfolding end_row next_line
  end_row-Facing m eof none ok e =
      let (v, q, ran, ok', kept) = file.close m ok in
      rw e (rw (ran, end_row) ((b'\n', q), refl, inl (refl, refl, refl), ok', kept))
  end_row-Facing m eof (some text) ok (e, left) = rw e (
    (b'0', m),
    refl,
    inr (text, (λ z. absurd (omega (arith, z))), refl, left, refl),
    ok,
    λ ds h. h,
  )

module _ {σ : Type 0} (sys : Calls σ) (fd0 fd1 : ℕ) (sound : σ → Type 0)
    (left right : σ → List ℕ → Type 0) (file0 : Source sys fd0 sound left right)
    (file1 : Source sys fd1 sound right left) (junk : Blink) where
  abbrev Starts : (r : Reading σ) (f0 f1 : Option (List ℕ)) → Type 0
  Starts r f0 f1 =
      At sys fd0 fd1 sound left right file0 file1 junk r (next_line f0) (next_line f1)
      × (r.eof0 ≡ at_end f0)
      × (r.eof1 ≡ at_end f1)

  -- What the loop over the rows leaves.
  abbrev Adds : (row : ℕ) (f0 f1 : Option (List ℕ)) → Board → Option (Reading σ) → Type 0
  Adds row f0 f1 board o =
      (q : Reading σ) × (o ≡ some q)
      × (q.board ≡ add_all (frame_blinks junk row (file_lines f0) (file_lines f1)) board)

  rows_over :
      (fuel line row : ℕ) (r : Reading σ) (f0 f1 : Option (List ℕ))
      → Starts r f0 f1
      → (not (at_end f0) || not (at_end f1)) ≡ false
      → Adds row f0 f1 r.board (rows_from sys junk fuel line fd0 fd1 row r)
  unfolding rows_from frame_blinks add_all
  rows_over zero line row r none none (at, e0, e1) done =
      rw (e0, e1) (record r { eof0 = true; eof1 = true }, refl, refl)
  rows_over (suc fuel) line row r none none (at, e0, e1) done =
      rw (e0, e1) (record r { eof0 = true; eof1 = true }, refl, refl)
  rows_over fuel line row r (some t) f1 starts done = cc
  rows_over fuel line row r none (some u) starts done = cc

  -- A row, the ends of the row for both files, and what the loop does then.
  rows_step :
      (fuel line row : ℕ) (r q : Reading σ) (a b : ℕ × σ)
      → (not r.eof0 || not r.eof1) ≡ true
      → row_from sys junk line fd0 fd1 row 0 r ≡ some q
      → end_row sys junk fd0 q.eof0 q.machine ≡ some a
      → end_row sys junk fd1 q.eof1 a.1 ≡ some b
      → rows_from sys junk (suc fuel) line fd0 fd1 row r
        ≡ rows_from sys junk fuel line fd0 fd1
            (row + 1)
            (record q { c0 = a.0; c1 = b.0; machine = b.1 })
  unfolding rows_from
  rows_step fuel line row r q a b test ran e0 e1 =
      rw (test, rows_from) (rw (ran, rows_from) (rw (e0, rows_from) (rw (e1, rows_from) refl)))

  rows_from-Adds :
      (fuel line row : ℕ) (r : Reading σ) (f0 f1 : Option (List ℕ))
      → Starts r f0 f1
      → size f0 + size f1 ≤ fuel
      → size f0 < line
      → size f1 < line
      → Adds row f0 f1 r.board (rows_from sys junk fuel line fd0 fd1 row r)
  rows_from-Adds zero line row r f0 f1 starts enough lt0 lt1 =
      elim (Bool-cases (not (at_end f0) || not (at_end f1))) [
        | inr done ↦ rows_over zero line row r f0 f1 starts done
        | inl more ↦ absurd (omega (arith, rows_shrink f0 f1 more, enough))
      ]
  rows_from-Adds (suc fuel) line row r f0 f1 starts enough lt0 lt1 =
      elim (Bool-cases (not (at_end f0) || not (at_end f1))) [
        | inr done ↦ rows_over (suc fuel) line row r f0 f1 starts done
        | inl more ↦
            let g0 = (next_line f0).1 in
            let g1 = (next_line f1).1 in
            let size0 = next_line-size f0 in
            let size1 = next_line-size f1 in
            let (q, ran, at, z0, z1, board) =
              row_from-Row sys fd0 fd1 sound left right file0 file1 junk line row 0 r
                (next_line f0).0 (next_line f1).0 g0 g1 starts.0 (omega (arith, size0.0))
                (omega (arith, size1.0)) in
            let end0 = Facing-Ended left q.machine q.c0 q.eof0 g0 z0 at.first in
            let end1 = Facing-Ended right q.machine q.c1 q.eof1 g1 z1 at.second in
            let (a, ea, fa, oka, kepta) =
              end_row-Facing sys fd0 sound left right file0 junk q.machine q.eof0 g0 at.ok end0 in
            let (b, eb, fb, okb, keptb) =
              end_row-Facing sys fd1 sound right left file1 junk a.1 q.eof1 g1 oka
                (Ended-kept right q.eof1 g1 kepta end1) in
            let r' : Reading σ = record q { c0 = a.0; c1 = b.0; machine = b.1 } in
            let starts' : Starts r' g0 g1 = (
              record {
                ok = okb;
                first = Facing-kept left a.0 (next_line g0) keptb fa;
                second = fb;
              },
              Ended-at_end left q.machine q.eof0 g0 end0,
              Ended-at_end right q.machine q.eof1 g1 end1,
            ) in
            let (q', ran', board') =
              rows_from-Adds fuel line (row + 1) r' g0 g1 starts'
                (omega (arith, rows_shrink f0 f1 more, enough)) (omega (arith, size0.1))
                (omega (arith, size1.1)) in
            let test : (not r.eof0 || not r.eof1) ≡ true = rw (starts.1, starts.2) more in
            (
              q',
              rows_step fuel line row r q a b test ran ea eb ∙ ran',
              board'
                  ∙ ap (add_all (frame_blinks junk (row + 1) (file_lines g0) (file_lines g1))) board
                  ∙ sym (
                      add_all-append (line_blinks junk row 0 (next_line f0).0 (next_line f1).0)
                        (frame_blinks junk (row + 1) (file_lines g0) (file_lines g1)) r.board)
                  ∙ ap (λ bs. add_all bs r.board) (sym (frame_blinks-next junk row f0 f1 more)),
            )
      ]

  -- With the two files open, each with a text to read: `add_frames` comes to its end with fuel for the two
  -- texts, and has added, in their order, exactly the blinks that the two frames show, line by line: at
  -- each place where one of them has a character that is no blank, one that changes between the two; a line
  -- or a frame that is shorter goes on with blanks. Reading is of one character at a time, 0 at the end.
  pub add_frames-Adds :
      (fuel : ℕ) (name0 name1 : List ℕ) (m m0 m1 : σ) (s : Board) (text0 text1 : List ℕ)
      → sys.open_file (literal name0) m ≡ some (fd0, m0)
      → sys.open_file (literal name1) m0 ≡ some (fd1, m1)
      → fd0 < 2 ^ 31
      → fd1 < 2 ^ 31
      → sound m1
      → left m1 text0
      → right m1 text1
      → length text0 + length text1 + 2 ≤ fuel
      → (q : σ) × (add_frames sys junk fuel name0 name1 m s
          ≡ some (goes_on q (add_all (frame_blinks junk 0 (lines text0) (lines text1)) s)))
  unfolding add_frames next_line
  add_frames-Adds fuel name0 name1 m m0 m1 s text0 text1 e0 e1 small0 small1 ok l r enough =
      let start : Reading σ = record {
        c0 = b'0';
        c1 = b'0';
        eof0 = false;
        eof1 = false;
        machine = m1;
        board = s;
      } in
      let starts : Starts start (some text0) (some text1) = (
        record {
          ok = ok;
          first = inr (text0, (λ z. absurd (omega (arith, z))), refl, l, refl);
          second = inr (text1, (λ z. absurd (omega (arith, z))), refl, r, refl);
        },
        refl,
        refl,
      ) in
      let (q, ran, board) =
        rows_from-Adds fuel fuel 0 start (some text0) (some text1) starts (omega (arith, enough))
          (omega (arith, enough)) (omega (arith, enough)) in
      let good0 : lt_signed fd0 0 ≡ false = ground arith in
      let good1 : lt_signed fd1 0 ≡ false = ground arith in
      (
        q.machine,
        rw (e0, add_frames)
            (rw (good0, add_frames)
              (rw (e1, add_frames)
                (rw (good1, add_frames)
                  (rw (ran, add_frames) (ap (λ b. some (goes_on q.machine b)) board))))),
      )

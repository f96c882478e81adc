-- ===== src/Fish/Rows.antt =====
-- The loops of `add_frames` over the rows of two files.
use cheet_os.Base.{
  ℕ, zero, suc, ◌+◌, ◌<◌, ◌≡◌, ◌≢◌, refl, ◌∙◌, ◌⊎◌, inl, inr, List, [], ◌∷◌, Option, some, ◌==◌,
  ◌&&◌, not, if◌then◌else◌, Bool, Bool-cases, arith, true, false, length,
}
use cheet_os.Programs.{Calls}
use cheet_os.Fish.Blinks.{Blink, Board}
use cheet_os.Fish.{Reading, draws, draw_place, read_char, row_from}
use cheet_os.Fish.Frames.{place, line_blinks, add_all}
use cheet_os.Fish.Lines.{Source, Facing, Facing-kept, Next, Next-kept, read_char-Reads}

module _ {σ : Type 0} (sys : Calls σ) (fd0 fd1 : ℕ) (sound : σ → Type 0)
    (left right : σ → List ℕ → Type 0) (file0 : Source sys fd0 sound left right)
    (file1 : Source sys fd1 sound right left) (junk : Blink) where
  -- Both files are at these places of their lines.
  pub record At (r : Reading σ) (l0 l1 : List ℕ × Option (List ℕ)) : Type 0 where
    pub ok : sound r.machine
    pub first : Facing left r.machine r.c0 r.eof0 l0
    pub second : Facing right r.machine r.c1 r.eof1 l1

  -- The row is over.
  abbrev pub Row : (after0 after1 : Option (List ℕ)) → (board : Board) → Option (Reading σ) → Type 0
  Row after0 after1 board o =
      (q : Reading σ) × (o ≡ some q)
      × At q ([], after0) ([], after1)
      × (q.c0 ≡ b'\n')
      × (q.c1 ≡ b'\n')
      × (q.board ≡ board)

  -- What a character shows: itself, or a blank behind its line.
  abbrev Shown : (c x : ℕ) → Type 0
  Shown c x = ((c ≡ x) × (x ≢ b'\n')) ⊎ ((c ≡ b'\n') × (x ≡ b' '))

  Shown-char : (c x : ℕ) → Shown c x → (if c == b'\n' then b' ' else c) ≡ x
  Shown-char c x (inl (e, ne)) = ground arith
  Shown-char c x (inr (e, blank)) = ground arith

  Shown-draws : (c x : ℕ) → Shown c x → draws c ≡ not (x == b' ')
  Shown-draws c x (inl (e, ne)) = ground arith
  Shown-draws c x (inr (e, blank)) = ground arith

  drawn_place :
      (row col c0 c1 x y : ℕ) (s : Board) (bs : List Blink)
      → Shown c0 x
      → Shown c1 y
      → add_all bs (draw_place sys junk row col c0 c1 s) ≡ add_all (place junk row col x y bs) s
  unfolding draw_place place add_all
  drawn_place row col c0 c1 x y s bs h0 h1 =
      rw (Shown-char c0 x h0, Shown-char c1 y h1, Shown-draws c0 x h0, Shown-draws c1 y h1)
        (elim (Bool-cases (x == b' ')) [
          | inr e ↦ rw e refl
          | inl e ↦ elim (Bool-cases (y == b' ')) [
            | inr e' ↦ rw (e, e') refl
            | inl e' ↦ rw (e, e') refl
          ]
        ])

  -- The state when both characters have been read.
  abbrev reads : Reading σ → (a b : ℕ × Bool × σ) → Reading σ
  reads r a b = record r { c0 = a.0; c1 = b.0; eof0 = a.1; eof1 = b.1; machine = b.2 }

  row_from_more :
      (fuel row col : ℕ) (r : Reading σ) (a b : ℕ × Bool × σ)
      → read_char sys junk fd0 r.c0 r.eof0 r.machine ≡ some a
      → read_char sys junk fd1 r.c1 r.eof1 a.2 ≡ some b
      → (a.0 == b'\n' && b.0 == b'\n') ≡ false
      → row_from sys junk (suc fuel) fd0 fd1 row col r
        ≡ row_from sys junk fuel fd0 fd1 row
            (col + 1)
            (record (reads r a b) { board = draw_place sys junk row col a.0 b.0 r.board })
  unfolding row_from
  row_from_more fuel row col r a b e0 e1 more = rw (e0, row_from) (rw (e1, more) refl)

  row_from_over :
      (fuel row col : ℕ) (r : Reading σ) (a b : ℕ × Bool × σ)
      → read_char sys junk fd0 r.c0 r.eof0 r.machine ≡ some a
      → read_char sys junk fd1 r.c1 r.eof1 a.2 ≡ some b
      → (a.0 == b'\n' && b.0 == b'\n') ≡ true
      → row_from sys junk (suc fuel) fd0 fd1 row col r ≡ some (reads r a b)
  unfolding row_from
  row_from_over fuel row col r a b e0 e1 more = rw (e0, row_from) (rw (e1, more) refl)

  -- A round in which one of the lines is not over, and the rest of the row.
  further :
      (fuel row col : ℕ) (r : Reading σ) (a b : ℕ × Bool × σ)
      → read_char sys junk fd0 r.c0 r.eof0 r.machine ≡ some a
      → read_char sys junk fd1 r.c1 r.eof1 a.2 ≡ some b
      → (x y : ℕ) (k0 k1 : List ℕ) (after0 after1 : Option (List ℕ)) → Shown a.0 x
      → Shown b.0 y
      → (a.0 == b'\n' && b.0 == b'\n') ≡ false
      → At (reads r a b) (k0, after0) (k1, after1)
      → ((q : Reading σ)
          → At q (k0, after0) (k1, after1)
          → Row after0 after1
              (add_all (line_blinks junk row (col + 1) k0 k1) q.board)
              (row_from sys junk fuel fd0 fd1 row (col + 1) q))
      → Row after0 after1
          (add_all (place junk row col x y (line_blinks junk row (col + 1) k0 k1)) r.board)
          (row_from sys junk (suc fuel) fd0 fd1 row col r)
  further fuel row col r a b e0 e1 x y k0 k1 after0 after1 s0 s1 differ here more =
      let q : Reading σ = record (reads r a b) {
        board = draw_place sys junk row col a.0 b.0 r.board;
      } in
      let (q', ran, at, z0, z1, board) =
        more q (record { ok = here.ok; first = here.first; second = here.second }) in
      (
        q',
        row_from_more fuel row col r a b e0 e1 differ ∙ ran,
        at,
        z0,
        z1,
        board
            ∙ drawn_place row col a.0 b.0 x y r.board (line_blinks junk row (col + 1) k0 k1) s0 s1,
      )

  pub row_from-Row :
      (fuel row col : ℕ) (r : Reading σ) (line0 line1 : List ℕ) (after0 after1 : Option (List ℕ))
      → At r (line0, after0) (line1, after1)
      → length line0 < fuel
      → length line1 < fuel
      → Row after0 after1
          (add_all (line_blinks junk row col line0 line1) r.board)
          (row_from sys junk fuel fd0 fd1 row col r)
  row_from-Row zero row col r line0 line1 after0 after1 here lt0 lt1 = absurd (omega arith)
  row_from-Row (suc fuel) row col r line0 line1 after0 after1 here lt0 lt1 =
      let (a, e0, next0, ok0, kept0) =
        read_char-Reads sys fd0 sound left right file0 junk r.machine r.c0 r.eof0 (line0, after0)
          here.ok here.first in
      let (b, e1, next1, ok1, kept1) =
        read_char-Reads sys fd1 sound right left file1 junk a.2 r.c1 r.eof1 (line1, after1) ok0
          (Facing-kept right r.c1 (line1, after1) kept0 here.second) in
      let moved = Next-kept left a.1 a.0 (line0, after0) kept1 next0 in
      go a b e0 e1 ok1 line0 line1 lt0 lt1 moved next1 (row_from-Row fuel row (col + 1))
    where
      go :
          (a b : ℕ × Bool × σ)
          → read_char sys junk fd0 r.c0 r.eof0 r.machine ≡ some a
          → read_char sys junk fd1 r.c1 r.eof1 a.2 ≡ some b
          → sound b.2
          → (l0 l1 : List ℕ) → length l0 < suc fuel
          → length l1 < suc fuel
          → Next left b.2 (l0, after0) a.0 a.1
          → Next right b.2 (l1, after1) b.0 b.1
          → ((q : Reading σ) (k0 k1 : List ℕ) (z0 z1 : Option (List ℕ))
              → At q (k0, z0) (k1, z1)
              → length k0 < fuel
              → length k1 < fuel
              → Row z0 z1
                  (add_all (line_blinks junk row (col + 1) k0 k1) q.board)
                  (row_from sys junk fuel fd0 fd1 row (col + 1) q))
          → Row after0 after1
              (add_all (line_blinks junk row col l0 l1) r.board)
              (row_from sys junk (suc fuel) fd0 fd1 row col r)
      go a b e0 e1 ok [] [] lt0 lt1 (n0, f0) (n1, f1) more = (
        reads r a b,
        row_from_over fuel row col r a b e0 e1 (ground arith),
        record { ok = ok; first = f0; second = f1 },
        n0,
        n1,
        unfold line_blinks in unfold add_all in refl,
      )
      go a b e0 e1 ok (x ∷ xs) [] lt0 lt1 (n0, ne0, f0) (n1, f1) more =
          unfold line_blinks in
          further fuel row col r a b e0 e1 x b' ' xs [] after0 after1 (inl (n0, ne0))
            (inr (n1, refl)) (ground arith) (record { ok = ok; first = f0; second = f1 })
            (λ q here. more q xs [] after0 after1 here (omega arith) (omega arith))
      go a b e0 e1 ok [] (y ∷ ys) lt0 lt1 (n0, f0) (n1, ne1, f1) more =
          unfold line_blinks in
          further fuel row col r a b e0 e1 b' ' y [] ys after0 after1 (inr (n0, refl))
            (inl (n1, ne1)) (ground arith) (record { ok = ok; first = f0; second = f1 })
            (λ q here. more q [] ys after0 after1 here (omega arith) (omega arith))
      go a b e0 e1 ok (x ∷ xs) (y ∷ ys) lt0 lt1 (n0, ne0, f0) (n1, ne1, f1) more =
          unfold line_blinks in
          further fuel row col r a b e0 e1 x y xs ys after0 after1 (inl (n0, ne0)) (inl (n1, ne1))
            (ground arith) (record { ok = ok; first = f0; second = f1 })
            (λ q here. more q xs ys after0 after1 here (omega arith) (omega arith))

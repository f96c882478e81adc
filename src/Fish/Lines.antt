-- ===== src/Fish/Lines.antt =====
-- The characters of a file, line by line, as `add_frames` reads them.
use cheet_os.Base.{
  ℕ, ◌≡◌, ◌≢◌, refl, subst, ◌∙◌, sym, ◌⊎◌, inl, inr, List, [], ◌∷◌, Option, none, some, ◌==◌, Bool,
  Bool-cases, arith, true, false,
}
use cheet_os.Programs.{Calls}
use cheet_os.Fish.Blinks.{Blink}
use cheet_os.Fish.{read_char}
use cheet_os.Fish.Frames.{first_line}

-- What a file is to the program: `mine` tells what is left to read, and no call on it changes what is left
-- of the other file.
pub record Source {σ : Type 0} (sys : Calls σ) (fd : ℕ) (sound : σ → Type 0)
    (mine other : σ → List ℕ → Type 0) : Type 0 where
  pub more :
      (m : σ) (c : ℕ) (cs : List ℕ) (buf : ℕ → ℕ)
      → sound m
      → mine m (c ∷ cs)
      → (b : ℕ → ℕ) × (q : σ) × (sys.read fd buf 1 m ≡ some (1, b, q))
        × (b 0 ≡ c)
        × sound q
        × mine q cs
        × ((ds : List ℕ) → other m ds → other q ds)
  pub end :
      (m : σ) (buf : ℕ → ℕ)
      → sound m
      → mine m []
      → (b : ℕ → ℕ) × (q : σ) × (sys.read fd buf 1 m ≡ some (0, b, q))
        × sound q
        × ((ds : List ℕ) → other m ds → other q ds)
  pub close :
      (m : σ)
      → sound m
      → (v : ℕ) × (q : σ) × (sys.close fd m ≡ some (v, q))
        × sound q
        × ((ds : List ℕ) → other m ds → other q ds)

-- What is behind a line.
abbrev pub Ended : {σ : Type 0} → (mine : σ → List ℕ → Type 0) → σ → Bool → Option (List ℕ) → Type 0
Ended mine m eof none = eof ≡ true
Ended mine m eof (some text) = (eof ≡ false) × mine m text

-- At the end of a line or within it: what is left of the line, and what is behind it.
abbrev pub Facing :
    {σ : Type 0}
    → (mine : σ → List ℕ → Type 0) → σ
    → (c : ℕ) → Bool
    → List ℕ × Option (List ℕ)
    → Type 0
Facing mine m c eof l =
    ((c ≡ b'\n') × (l.0 ≡ []) × Ended mine m eof l.1)
    ⊎ ((text : List ℕ) × (c ≢ b'\n') × (eof ≡ false) × mine m text × (first_line text ≡ l))

pub Facing-kept :
    {σ : Type 0} (mine : σ → List ℕ → Type 0) {m q : σ} {eof : Bool} (c : ℕ)
    (l : List ℕ × Option (List ℕ))
    → ((ds : List ℕ) → mine m ds → mine q ds)
    → Facing mine m c eof l
    → Facing mine q c eof l
Facing-kept mine c (line, none) kept (inl (e, nil, end)) = inl (e, nil, end)
Facing-kept mine c (line, some text) kept (inl (e, nil, end)) =
    inl (e, nil, (end.0, kept text end.1))
Facing-kept mine c l kept (inr (text, ne, eof, left, e)) = inr (text, ne, eof, kept text left, e)

-- The next character of the line, or its end.
abbrev pub Next :
    {σ : Type 0}
    → (mine : σ → List ℕ → Type 0) → (q : σ) → List ℕ × Option (List ℕ)
    → (c : ℕ) → Bool
    → Type 0
Next mine q ([], after) c eof = (c ≡ b'\n') × Facing mine q c eof ([], after)
Next mine q (x ∷ line, after) c eof = (c ≡ x) × (x ≢ b'\n') × Facing mine q c eof (line, after)

pub Next-kept :
    {σ : Type 0} (mine : σ → List ℕ → Type 0) {m q : σ} (eof : Bool) (c : ℕ)
    (l : List ℕ × Option (List ℕ))
    → ((ds : List ℕ) → mine m ds → mine q ds)
    → Next mine m l c eof
    → Next mine q l c eof
Next-kept mine eof c ([], after) kept (e, facing) = (e, Facing-kept mine c ([], after) kept facing)
Next-kept mine eof c (x ∷ line, after) kept (e, ne, facing) =
    (e, ne, Facing-kept mine c (line, after) kept facing)

-- What reading a character leaves.
abbrev pub Reads :
    {σ : Type 0}
    → (sound : σ → Type 0) → (mine other : σ → List ℕ → Type 0) → (m : σ) → List ℕ × Option (List ℕ)
    → Option (ℕ × Bool × σ)
    → Type 0
Reads {σ = σ} sound mine other m l o =
    (r : ℕ × Bool × σ) × (o ≡ some r)
    × Next mine r.2 l r.0 r.1
    × sound r.2
    × ((ds : List ℕ) → other m ds → other r.2 ds)

module _ {σ : Type 0} (sys : Calls σ) (fd : ℕ) (sound : σ → Type 0)
    (mine other : σ → List ℕ → Type 0) (file : Source sys fd sound mine other) (junk : Blink) where
  read_within :
      (m : σ) (c : ℕ) (text : List ℕ)
      → sound m
      → c ≢ b'\n'
      → mine m text
      → Reads sound mine other m (first_line text) (read_char sys junk fd c false m)
  unfolding read_char first_line
  read_within m c [] ok ne left =
      let on : (c == b'\n') ≡ false = ground arith in
      let (b, q, ran, ok', kept) = file.end m (λ i. c) ok left in
      rw on (rw ran ((b'\n', true, q), refl, (refl, inl (refl, refl, refl)), ok', kept))
  read_within m c (x ∷ xs) ok ne left =
      let on : (c == b'\n') ≡ false = ground arith in
      let (b, q, ran, char, ok', mine', kept) = file.more m x xs (λ i. c) ok left in
      rw on (
        rw ran (elim (Bool-cases (x == b'\n')) [
          | inl end ↦
              let e : x ≡ b'\n' = ground arith in
              rw end
                ((b 0, false, q), refl, (char ∙ e, inl (char ∙ e, refl, (refl, mine'))), ok', kept)
          | inr in_line ↦
              let e : x ≢ b'\n' = ground arith in
              rw in_line (
                (b 0, false, q),
                refl,
                (char, e, inr (xs, (λ z. e (sym char ∙ z)), refl, mine', refl)),
                ok',
                kept,
              )
        ]))

  pub read_char-Reads :
      (m : σ) (c : ℕ) (eof : Bool) (l : List ℕ × Option (List ℕ))
      → sound m
      → Facing mine m c eof l
      → Reads sound mine other m l (read_char sys junk fd c eof m)
  read_char-Reads m c eof (line, after) ok (inl (e, nil, end)) =
      rw (e, nil)
        (unfold read_char in ((b'\n', eof, m), refl, (refl, inl (refl, refl, end)), ok, λ ds h. h))
  read_char-Reads m c eof l ok (inr (text, ne, e, left, lines)) = rw e (
      subst (λ l'. Reads sound mine other m l' (read_char sys junk fd c false m)) lines
        (read_within m c text ok ne left))

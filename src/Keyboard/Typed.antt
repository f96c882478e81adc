-- ===== src/Keyboard/Typed.antt =====
-- `getline` against an abstract editor: a text, and the characters typed one after the other.
use cheet_os.Base.{
  ℕ, zero, suc, ◌+◌, ◌-◌, ◌%◌, ◌<◌, ◌≡◌, refl, inl, inr, Bool, true, false, ◌&&◌, ◌||◌, Option,
  none, some, List, [], ◌∷◌, ◌++◌, ltb, leb, ◌==◌, if◌then◌else◌, not, arith, Bool-cases, length,
  ◌∙◌, get_or, take, length-take, length-append, get_or-take, get_or-append_left,
  get_or-append_right, map,
}
use cheet_os.Screen.{Screen, store, putc}
use cheet_os.Screen.Grid
use cheet_os.Keyboard.{
  Keyboard, Line, Round, done, more, edit, getchar, Schedule, resume, getline_from, getline,
  press_all,
}
use cheet_os.Keyboard.Editing.{IsLine, IsDone, IsRound, edit-IsRound}

-- The characters that the polls of a schedule deliver.
unfoldable pub keystrokes : Schedule → Keyboard → List ℕ
keystrokes [] k = []
keystrokes (batch ∷ later) k =
    let seen = press_all batch k in
    let rest =
      keystrokes later (if seen.pushed_key == 0 then seen else record seen { pushed_key = 0 }) in
    if not (seen.pushed_key == 0) && ltb seen.pushed_key 0x80 then seen.pushed_key ∷ rest else rest

abbrev enters : ℕ → Bool
enters c = c == b'\n' || c == b'\r'

abbrev erases : ℕ → Bool
erases c = c == 8 || c == 127

-- The text after one more character, where that does not end the line.
unfoldable pub typed : (max c : ℕ) → List ℕ → List ℕ
typed max c t =
    if erases c
    then take (length t - 1) t
    else if c == 12
    then []
    else if ltb (length t) max && (leb 0x20 c && leb c 0x7E)
    then t ++ (c ∷ [])
    else t

-- The line that the characters give, if one of them ends it.
unfoldable pub edited : (max : ℕ) → List ℕ → List ℕ → Option (List ℕ)
edited max [] t = none
edited max (c ∷ cs) t = if enters c then some t else edited max cs (typed max c t)

-- The buffer of the line holds the text.
pub record Holds (l : Line) (t : List ℕ) : Type 0 where
  pub size : l.lp ≡ length t
  pub char : (i : ℕ) → i < length t → l.buf i ≡ get_or t i 0

-- One round does to the buffer what the character does to the text.
abbrev Follows : (max c : ℕ) → List ℕ → Round → Type 0
Follows max c t (done l) = (enters c ≡ true) × Holds l t
Follows max c t (more l) = (enters c ≡ false) × Holds l (typed max c t)

module _ {l : Line} {t : List ℕ} (h : Holds l t) where
  Holds-end : (s : Screen) → Holds (record l { buf = store l.buf l.lp 0; screen = s }) t
  unfolding store
  Holds-end s = record { size = h.size; char = λ i lt. ground (arith, h.size, h.char i) }

  Holds-back : (s : Screen) → Holds (record l { lp = l.lp - 1; screen = s }) (take (length t - 1) t)
  Holds-back s = record {
    size = omega (arith, h.size, length-take (length t - 1) t);
    char = λ i lt.
        ground (arith, h.char i, length-take (length t - 1) t, get_or-take (length t - 1) t i 0);
  }

  Holds-add :
      (c : ℕ) (s : Screen)
      → Holds (record { buf = store l.buf l.lp c; lp = l.lp + 1; screen = s }) (t ++ (c ∷ []))
  unfolding store
  Holds-add c s = record {
    size = omega (arith, h.size, length-append t (c ∷ []));
    char = λ i lt. ground (
      arith,
      h.size,
      h.char i,
      length-append t (c ∷ []),
      get_or-append_left t (c ∷ []) i 0,
      get_or-append_right t (c ∷ []) 0 0,
    );
  }

  Holds-empty : ltb 0 l.lp ≡ false → Holds l (take (length t - 1) t)
  Holds-empty e = record {
    size = ground (arith, h.size, length-take (length t - 1) t);
    char = λ i lt. ground (arith, h.size, length-take (length t - 1) t);
  }

  -- The last two tests, for a character that may be added.
  on_char :
      (max c : ℕ)
      → enters c ≡ false
      → erases c ≡ false
      → (c == 12) ≡ false
      → Follows max c t (
          if leb max l.lp
          then more l
          else if leb 0x20 c && leb c 0x7E
          then more (record { buf = store l.buf l.lp c; lp = l.lp + 1; screen = putc c l.screen })
          else more l)
  unfolding typed
  on_char max c on keep other = elim (Bool-cases (leb max l.lp)) [
    | inl full ↦
        let full' : ltb (length t) max ≡ false = ground (arith, h.size) in
        let same : typed max c t ≡ t = rw (keep, other, full') refl in rw full (on, rw same h)
    | inr room ↦
        let room' : ltb (length t) max ≡ true = ground (arith, h.size) in
        rw room (elim (Bool-cases (leb 0x20 c && leb c 0x7E)) [
          | inl ok ↦
              let longer : typed max c t ≡ t ++ (c ∷ []) = rw (keep, other, room', ok) refl in
              rw ok (on, rw longer (Holds-add c (putc c l.screen)))
          | inr odd ↦
              let same : typed max c t ≡ t = rw (keep, other, room', odd) refl in
              rw odd (on, rw same h)
        ])
  ]

  edit-Follows : (max c : ℕ) → Follows max c t (edit max c l)
  unfolding edit typed
  edit-Follows max c = elim (Bool-cases (enters c)) [
    | inl end ↦ rw end (end, Holds-end (putc b'\n' l.screen))
    | inr on ↦ rw on (elim (Bool-cases (erases c)) [
      | inl e ↦
          let back : typed max c t ≡ take (length t - 1) t = rw e refl in
          rw e (elim (Bool-cases (ltb 0 l.lp)) [
            | inl some_text ↦ rw some_text (on, rw back (Holds-back (putc 8 l.screen)))
            | inr none_left ↦ rw none_left (on, rw back (Holds-empty none_left))
          ])
      | inr keep ↦ rw keep (elim (Bool-cases (c == 12)) [
        | inl e ↦
            let none_left : typed max c t ≡ [] = rw (keep, e) refl in
            rw e (on, rw none_left (record { size = refl; char = λ i lt. absurd (omega arith) }))
        | inr other ↦ rw (other) (on_char max c on keep other)
      ])
    ])
  ]

-- What `getchar` does with the keystrokes of a schedule.
abbrev Delivers : Schedule → Keyboard → Option (ℕ × Schedule × Keyboard) → Type 0
Delivers schedule k none = keystrokes schedule k ≡ []
Delivers schedule k (some (key, later, k')) =
    (keystrokes schedule k ≡ key ∷ keystrokes later k') × (length later < length schedule)

Delivers-later :
    (batch : List ℕ) (later : Schedule) (k next : Keyboard) (o : Option (ℕ × Schedule × Keyboard))
    → keystrokes (batch ∷ later) k ≡ keystrokes later next
    → Delivers later next o
    → Delivers (batch ∷ later) k o
Delivers-later batch later k next none e d = e ∙ d
Delivers-later batch later k next (some (key, rest, k')) e d = (e ∙ d.0, omega (arith, d.1))

-- `getchar` delivers the first of the keystrokes and leaves a schedule that delivers the others.
getchar_lem : (schedule : Schedule) (k : Keyboard) → Delivers schedule k (getchar schedule k)
unfolding getchar keystrokes
getchar_lem [] k = refl
getchar_lem (batch ∷ later) k =
    let seen = press_all batch k in
    let next = if seen.pushed_key == 0 then seen else record seen { pushed_key = 0 } in
    elim (Bool-cases (not (seen.pushed_key == 0) && ltb seen.pushed_key 0x80)) [
      | inl e ↦
          let pressed : (seen.pushed_key == 0) ≡ false = ground arith in
          rw e (rw (e, pressed) refl, omega arith)
      | inr e ↦ rw e (
          Delivers-later batch later k next (getchar later next) (rw e refl)
            (getchar_lem later next))
    ]

-- What is returned for the line that the characters give, if they end one.
abbrev pub Gives : ℕ → (ℕ → ℕ) → Option (List ℕ) → Option (Line × Keyboard) → Type 0
Gives max old none o = o ≡ none
Gives max old (some t) o = (r : Line × Keyboard) × (o ≡ some r) × Holds r.0 t × IsDone max old r.0

module _ (max : ℕ) (old : ℕ → ℕ) where
  resume-Gives :
      (c : ℕ) (cs t : List ℕ) (k : Keyboard) (r : Round) (next : Line → Option (Line × Keyboard))
      → Follows max c t r
      → IsRound max old r
      → ((l : Line)
          → Holds l (typed max c t)
          → IsLine max old l
          → Gives max old (edited max cs (typed max c t)) (next l))
      → Gives max old (edited max (c ∷ cs) t) (resume r k next)
  unfolding resume edited
  resume-Gives c cs t k (done l) next f v rest = rw f.0 ((l, k), refl, f.1, v)
  resume-Gives c cs t k (more l) next f v rest = rw f.0 (rest l f.1 v)

  getline_from-Gives :
      (fuel : ℕ) (schedule : Schedule) (k : Keyboard) (l : Line) (t : List ℕ)
      → length schedule < fuel
      → Holds l t
      → IsLine max old l
      → Gives max old
          (edited max (map (λ c. c % 128) (keystrokes schedule k)) t)
          (getline_from max fuel schedule k l)
  unfolding getline_from
  getline_from-Gives zero schedule k l t h holds v = absurd (omega arith)
  getline_from-Gives (suc fuel) schedule k l t h holds v =
      go (getchar schedule k) refl (getchar_lem schedule k) (getline_from-Gives fuel)
    where
      go :
          (o : Option (ℕ × Schedule × Keyboard))
          → getchar schedule k ≡ o
          → Delivers schedule k o
          → ((later : Schedule) (k' : Keyboard) (l' : Line) (t' : List ℕ)
              → length later < fuel
              → Holds l' t'
              → IsLine max old l'
              → Gives max old
                  (edited max (map (λ c. c % 128) (keystrokes later k')) t')
                  (getline_from max fuel later k' l'))
          → Gives max old
              (edited max (map (λ c. c % 128) (keystrokes schedule k)) t)
              (getline_from max (suc fuel) schedule k l)
      go none e d next = rw (e, d, getline_from) (unfold edited in refl)
      go (some (key, later, k')) e d next =
          rw (e, d.0, getline_from)
            (resume-Gives (key % 128) (map (λ c. c % 128) (keystrokes later k')) t k'
              (edit max (key % 128) l) (getline_from max fuel later k')
              (edit-Follows holds max (key % 128)) (edit-IsRound max old v (key % 128))
              λ l' holds' v'.
                next later k' l' (typed max (key % 128) t) (omega (arith, d.1)) holds' v')

  -- With the cursor on the screen, `getline` returns if and only if the keys typed end a line. It
  -- then returns the number of characters of the line that the abstract editor gives, the buffer
  -- holds those characters and a terminator, and no other byte from `max` on is changed.
  pub getline_lem :
      (schedule : Schedule) (k : Keyboard) (s : Screen)
      → Grid.IsValid s
      → Gives max old
          (edited max (map (λ c. c % 128) (keystrokes schedule k)) [])
          (getline max schedule k old s)
  unfolding getline
  getline_lem schedule k s v =
      getline_from-Gives (length schedule + 1) schedule k _ [] (omega arith)
        (record { size = refl; char = λ i lt. absurd (omega arith) })
        (record {
          within = omega arith;
          printable = λ i lt. absurd (omega arith);
          outside = λ i lt. refl;
          shown = v;
        })

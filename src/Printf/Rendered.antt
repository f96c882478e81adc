-- ===== src/Printf/Rendered.antt =====
-- `printf` against the text that its format describes.
use cheet_os.Base.{
  ℕ, ◌+◌, ◌%◌, ◌^◌, ◌<◌, ◌≡◌, refl, ◌∙◌, ap, sym, List, [], ◌∷◌, ◌++◌, ◌==◌, if◌then◌else◌, length,
  Bool, true, false, Bool-cases, inl, inr, Option, none, some, All,
}
use mathlib.Core.Option
use cheet_os.Screen.{Screen, putc, puts, puts_from}
use cheet_os.Printf.{Mode, plain, after, Frame, text_at, conversion, printf_from, printf}
use cheet_os.Printf.Conversion.{
  numeral, integer, eight_digits, hex_lem, full_hex_lem, unsigned_lem, signed_lem,
}

-- What a conversion stands for, and how many arguments it takes.
unfoldable pub described : Frame → (alternate : Bool) → (c esp : ℕ) → Option (List ℕ × ℕ)
described f alternate c esp =
    let word = f.words esp in
    if c == b'%'
    then some (b'%' ∷ [], 0)
    else if c == b'x'
    then some (if alternate then eight_digits word else numeral 16 word, 1)
    else if c == b'u'
    then some (numeral 10 word, 1)
    else if c == b'd'
    then some (integer word, 1)
    else if c == b'c'
    then some ((word % 256) ∷ [], 1)
    else if c == b's'
    then Option.map {B = List ℕ × ℕ} (λ text. (text, 1)) (text_at f.bound f.memory word)
    else some ([], 0)

abbrev prefix : List ℕ → Option (List ℕ) → Option (List ℕ)
prefix text none = none
prefix text (some rest) = some (text ++ rest)

-- The text that a format describes; `none` for a format that ends behind a `%`, and where a string
-- does not end within the bound.
unfoldable pub rendered : Frame → Mode → (format : List ℕ) → (esp : ℕ) → Option (List ℕ)
rendered f plain [] esp = some []
rendered f (after alternate) [] esp = none
rendered f plain (c ∷ cs) esp =
    prefix (if c == b'%' then [] else c ∷ [])
      (rendered f (if c == b'%' then after false else plain) cs esp)
rendered f (after alternate) (c ∷ cs) esp =
    let again = rendered f (after true) cs esp in
    if c == b'#' then again else elim (described f alternate c esp) [
      | none ↦ none
      | some r ↦ prefix r.0 (rendered f plain cs (esp + r.1))
    ]

conversion-described :
    (f : Frame) (alternate : Bool) (c esp : ℕ)
    → f.words esp < 2 ^ 32
    → conversion f alternate c esp ≡ described f alternate c esp
unfolding conversion described
conversion-described f true c esp h =
    let word = f.words esp in
    simp (full_hex_lem f.conv word h, unsigned_lem f.conv word h, signed_lem f.conv word h)
conversion-described f false c esp h =
    let word = f.words esp in
    simp (hex_lem f.conv word h, unsigned_lem f.conv word h, signed_lem f.conv word h)

-- The screen with a text put on it.
unfoldable pub put_all : List ℕ → Screen → Screen
put_all [] s = s
put_all (c ∷ cs) s = put_all cs (putc c s)

pub puts_from-put_all : (cs : List ℕ) (i : ℕ) (s : Screen) → (puts_from cs i s).1 ≡ put_all cs s
unfolding puts_from put_all
puts_from-put_all [] i s = refl
puts_from-put_all (c ∷ cs) i s = puts_from-put_all cs (i + 1) (putc c s)

pub put_all-append :
    (cs ds : List ℕ) (s : Screen) → put_all (cs ++ ds) s ≡ put_all ds (put_all cs s)
unfolding put_all
put_all-append [] ds s = refl
put_all-append (c ∷ cs) ds s = put_all-append cs ds (putc c s)

-- Going on behind a text that has been put.
put_prefix :
    (text : List ℕ) (rest : Option (List ℕ)) (s : Screen)
    → Option.map (λ t. put_all t s) (prefix text rest)
      ≡ Option.map (λ t. put_all t (put_all text s)) rest
put_prefix text none s = refl
put_prefix text (some rest) s = ap some (put_all-append text rest s)

printf_from-rendered :
    (f : Frame) (mode : Mode) (format : List ℕ) (esp : ℕ) (s : Screen)
    → ((i : ℕ) → f.words i < 2 ^ 32)
    → printf_from f mode format esp s ≡ Option.map (λ t. put_all t s) (rendered f mode format esp)
unfolding printf_from rendered
printf_from-rendered f plain [] esp s h = unfold put_all in refl
printf_from-rendered f (after alternate) [] esp s h = refl
printf_from-rendered f plain (c ∷ cs) esp s h = elim (Bool-cases (c == b'%')) [
  | inl percent ↦
      rw (printf_from, percent)
        (printf_from-rendered f (after false) cs esp s h
          ∙ sym (put_prefix [] (rendered f (after false) cs esp) s ∙ unfold put_all in refl))
  | inr other ↦
      rw (printf_from, other)
        (printf_from-rendered f plain cs esp (putc c s) h
          ∙ sym (put_prefix (c ∷ []) (rendered f plain cs esp) s ∙ unfold put_all in refl))
]
printf_from-rendered f (after alternate) (c ∷ cs) esp s h = elim (Bool-cases (c == b'#')) [
  | inl hash ↦ rw hash (printf_from-rendered f (after true) cs esp s h)
  | inr other ↦
      rw (other, conversion-described f alternate c esp (h esp))
        (go (described f alternate c esp) (λ k t. printf_from-rendered f plain cs k t h))
]
  where
    go :
        (d : Option (List ℕ × ℕ))
        → ((k : ℕ) (t : Screen)
            → printf_from f plain cs k t ≡ Option.map (λ u. put_all u t) (rendered f plain cs k))
        → elim d [ none ↦ none | some r ↦ printf_from f plain cs (esp + r.1) (puts r.0 s).1 ]
          ≡ Option.map
              (λ u. put_all u s)
              (elim d [ none ↦ none | some r ↦ prefix r.0 (rendered f plain cs (esp + r.1)) ])
    go none more = refl
    go (some (text, used)) more =
        more (esp + used) (puts text s).1
        ∙ unfold puts in
          rw (puts_from-put_all text 0 s)
            (sym (put_prefix text (rendered f plain cs (esp + used)) s))

-- `printf` puts the text that its format describes on the screen, as `puts` does, and returns the
-- length of the format; it does not end properly only where the format ends behind a `%` or a string
-- does not end. The arguments are words.
pub printf_lem :
    (f : Frame) (format : List ℕ) (s : Screen)
    → ((i : ℕ) → f.words i < 2 ^ 32)
    → printf f format s
      ≡ Option.map {B = ℕ × Screen}
          (λ text. (length format, (puts text s).1))
          (rendered f plain format 0)
unfolding printf puts
printf_lem f format s h =
    rw (printf_from-rendered f plain format 0 s h) (go (rendered f plain format 0))
  where
    go :
        (r : Option (List ℕ))
        → Option.map {B = ℕ × Screen} (λ s'. (length format, s')) (Option.map (λ t. put_all t s) r)
          ≡ Option.map {B = ℕ × Screen} (λ text. (length format, (puts_from text 0 s).1)) r
    go none = refl
    go (some text) = rw (puts_from-put_all text 0 s) refl

-- A format with no `%` is put as it is.
abbrev pub IsPlain : List ℕ → Type 0
IsPlain = All (λ c. (c == b'%') ≡ false)

pub rendered-plain :
    (f : Frame) (text : List ℕ) (esp : ℕ) → IsPlain text → rendered f plain text esp ≡ some text
unfolding rendered
rendered-plain f [] esp ok = refl
rendered-plain f (c ∷ cs) esp ok = rw (ok.0, rendered-plain f cs esp ok.1) refl

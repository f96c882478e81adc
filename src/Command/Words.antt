-- ===== src/Command/Words.antt =====
-- The words of a command line, and the parsing of `execute` against them.
use cheet_os.Base.{
  ℕ, zero, suc, ◌≤◌, ◌<◌, ◌≡◌, refl, ◌≢◌, ◌∙◌, ap, sym, false, Option, none, some, List, [], ◌∷◌,
  ◌++◌, ◌==◌, if◌then◌else◌, length, length-append, arith, ◌⊎◌, append-nil, append_assoc,
  Bool-cases, inl, inr,
}
use cheet_os.Command.{scan_token, strtok_on, strtok, arguments_from}

-- The words of a text: its maximal runs of characters that are no spaces. `word` is the run that
-- the character before belongs to, if it is not empty.
unfoldable pub words_from : (word : List ℕ) → List ℕ → List (List ℕ)
words_from [] [] = []
words_from (w ∷ ws) [] = (w ∷ ws) ∷ []
words_from word (c ∷ cs) =
    if c == b' '
    then (if length word == 0 then words_from [] cs else word ∷ words_from [] cs)
    else words_from (word ++ (c ∷ [])) cs

abbrev pub words : List ℕ → List (List ℕ)
words text = words_from [] text

abbrev pub words_of : Option (List ℕ) → List (List ℕ)
words_of none = []
words_of (some text) = words text

-- What a scan that starts inside a word gives.
scan_token-words :
    (word cs : List ℕ)
    → length word ≢ 0
    → let (token, last) = scan_token cs in words_from word cs ≡ (word ++ token) ∷ words_of last
unfolding words_from scan_token
scan_token-words [] [] h = absurd (h refl)
scan_token-words (w ∷ ws) [] h = ap (λ x. x ∷ []) (sym (append-nil (w ∷ ws)))
scan_token-words [] (c ∷ cs) h = absurd (h refl)
scan_token-words (w ∷ ws) (c ∷ cs) h = elim (Bool-cases (c == b' ')) [
  | inl space ↦
      let inside : (suc (length ws) == 0) ≡ false = ground arith in
      rw space (rw inside (ap (λ x. x ∷ words_from [] cs) (sym (append-nil (w ∷ ws)))))
  | inr other ↦
      let (token, last) = scan_token cs in
      rw other (
        scan_token-words (w ∷ (ws ++ (c ∷ []))) cs (omega arith)
        ∙ ap (λ x. x ∷ words_of last) (append_assoc (w ∷ ws) (c ∷ []) token))
]

-- The words that a call of `strtok` accounts for.
abbrev pub accounted : Option (List ℕ) × Option (List ℕ) → List (List ℕ)
accounted (none, last) = []
accounted (some token, last) = token ∷ words_of last

scan_token-cons :
    (c : ℕ) (cs : List ℕ)
    → (c == b' ') ≡ false
    → scan_token (c ∷ cs) ≡ (c ∷ (scan_token cs).0, (scan_token cs).1)
unfolding scan_token
scan_token-cons c cs other = rw other

pub strtok_on-words : (text : List ℕ) → words text ≡ accounted (strtok_on text)
unfolding strtok_on words_from
strtok_on-words [] = refl
strtok_on-words (c ∷ cs) = elim (Bool-cases (c == b' ')) [
  | inl space ↦ rw space (strtok_on-words cs)
  | inr other ↦
      rw other (rw (scan_token-cons c cs other) (scan_token-words (c ∷ []) cs (omega arith)))
]

-- How much of the text a call leaves.
abbrev pub left : Option (List ℕ) → ℕ
left none = 0
left (some text) = suc (length text)

pub scan_token-left : (cs : List ℕ) → left (scan_token cs).1 ≤ length cs
unfolding scan_token
scan_token-left [] = omega arith
scan_token-left (c ∷ cs) = ground (arith, scan_token-left cs)

pub strtok_on-left : (text : List ℕ) → left (strtok_on text).1 ≤ length text
unfolding strtok_on
strtok_on-left [] = omega arith
strtok_on-left (c ∷ cs) = elim (Bool-cases (c == b' ')) [
  | inl space ↦ rw space (omega (arith, strtok_on-left cs))
  | inr other ↦ rw other (omega (arith, scan_token-left (c ∷ cs)))
]

-- The first word of a text is not empty.
scan_token-start : (c : ℕ) (cs : List ℕ) → (c == b' ') ≡ false → length (scan_token (c ∷ cs)).0 ≢ 0
unfolding scan_token
scan_token-start c cs other = rw other (omega arith)

IsWord : Option (List ℕ) → Type 0
IsWord none = Unit {0}
IsWord (some token) = length token ≢ 0

strtok_on-IsWord : (text : List ℕ) → IsWord (strtok_on text).0
unfolding strtok_on IsWord
strtok_on-IsWord [] = tt
strtok_on-IsWord (c ∷ cs) = elim (Bool-cases (c == b' ')) [
  | inl space ↦ rw space (strtok_on-IsWord cs)
  | inr other ↦ rw other (scan_token-start c cs other)
]

-- The words behind one another, with one space between each two.
unfoldable pub join : List (List ℕ) → List ℕ
join [] = []
join (w ∷ []) = w
join (w ∷ v ∷ ws) = w ++ (b' ' ∷ join (v ∷ ws))

-- The text that the loop adds to what is in the buffer.
behind : (buffer : List ℕ) → List (List ℕ) → List ℕ
behind buffer [] = buffer
behind buffer (w ∷ ws) =
    if length buffer == 0 then join (w ∷ ws) else buffer ++ (b' ' ∷ join (w ∷ ws))

behind-cons :
    (buffer w : List ℕ) (ws : List (List ℕ))
    → length w ≢ 0
    → behind ((if length buffer == 0 then [] else buffer ++ (b' ' ∷ [])) ++ w) ws
      ≡ behind buffer (w ∷ ws)
unfolding behind join
behind-cons buffer w [] h = elim (Bool-cases (length buffer == 0)) [
  | inl e ↦ rw e refl
  | inr e ↦ rw e (append_assoc buffer (b' ' ∷ []) w)
]
behind-cons buffer w (v ∷ ws) h = elim (Bool-cases (length buffer == 0)) [
  | inl e ↦ let some_word : (length w == 0) ≡ false = ground arith in rw e (rw some_word refl)
  | inr e ↦
      let longer = (buffer ++ (b' ' ∷ [])) ++ w in
      let some_text : (length longer == 0) ≡ false =
        ground (arith, length-append (buffer ++ (b' ' ∷ [])) w) in
      rw e (
        rw some_text (
          append_assoc (buffer ++ (b' ' ∷ [])) w (b' ' ∷ join (v ∷ ws))
          ∙ append_assoc buffer (b' ' ∷ []) (w ++ (b' ' ∷ join (v ∷ ws)))))
]

-- What the next call of `strtok` does with the string that is left.
record Step (last : Option (List ℕ)) (r : Option (List ℕ) × Option (List ℕ)) : Type 0 where
  all : words_of last ≡ accounted r
  word : IsWord r.0
  less : (suc (left r.1) ≤ left last) ⊎ (r.0 ≡ none)

strtok-Step : (last : Option (List ℕ)) → Step last (strtok none last)
unfolding strtok IsWord
strtok-Step none = record { all = refl; word = tt; less = inr refl }
strtok-Step (some text) = record {
  all = strtok_on-words text;
  word = unfold IsWord in strtok_on-IsWord text;
  less = inl (omega (arith, strtok_on-left text));
}

arguments_from-behind :
    (fuel : ℕ) (last : Option (List ℕ)) (buffer : List ℕ)
    → left last < fuel
    → arguments_from fuel last buffer ≡ some (behind buffer (words_of last))
unfolding arguments_from
arguments_from-behind zero last buffer h = absurd (omega arith)
arguments_from-behind (suc fuel) last buffer h =
    go (strtok none last) refl (strtok-Step last) (arguments_from-behind fuel)
  where
    go :
        (r : Option (List ℕ) × Option (List ℕ))
        → strtok none last ≡ r
        → Step last r
        → ((next : Option (List ℕ)) (text : List ℕ)
            → left next < fuel
            → arguments_from fuel next text ≡ some (behind text (words_of next)))
        → arguments_from (suc fuel) last buffer ≡ some (behind buffer (words_of last))
    go (none, next) e s more = rw (e, s.all, arguments_from) (unfold behind in refl)
    go (some token, next) e s more =
        rw (e, s.all, arguments_from)
          (rw e (
            more next _ (ground (arith, s.less))
            ∙ ap some (behind-cons buffer token (words_of next) (unfold IsWord in s.word))))

pub arguments_from-join :
    (fuel : ℕ) (last : Option (List ℕ))
    → left last < fuel
    → arguments_from fuel last [] ≡ some (join (words_of last))
unfolding behind join
arguments_from-join fuel last h =
    arguments_from-behind fuel last [] h ∙ ap some (start (words_of last))
  where
    start : (ws : List (List ℕ)) → behind [] ws ≡ join ws
    start [] = refl
    start (w ∷ ws) = refl

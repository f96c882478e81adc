-- ===== src/Printf/Conversion.antt =====
-- What each conversion of `printf` puts.
use cheet_os.Base.{
  ℕ, zero, suc, ◌+◌, ◌-◌, ◌%◌, ◌^◌, ◌<◌, ◌≤◌, ◌≡◌, refl, ◌≢◌, ◌∙◌, ap, sym, List, [], ◌∷◌, ◌++◌,
  ltb, leb, ◌==◌, ◌&&◌, if◌then◌else◌, arith, length, get_or, true, false, Bool-cases, inl, inr,
  ==_iff, some, replicate, get_or-append_left, get_or-append_right, length-append, length-replicate,
}
use cheet_os.Screen.{store}
use cheet_os.Strings.{itoa, strlen}
use cheet_os.Strings.Digits.{low_digits, IsDigit, low_digits-IsDigit, low_digits-le}
use cheet_os.Strings.Itoa.{itoa-reversed}
use cheet_os.Strings.Text.{strlen_from}
use cheet_os.Printf.{text_at, fill_zeros, hex, full_hex, unsigned, signed}

-- A list turned round.
unfoldable pub flip : List ℕ → List ℕ
flip [] = []
flip (c ∷ cs) = flip cs ++ (c ∷ [])

length-flip : (cs : List ℕ) → length (flip cs) ≡ length cs
unfolding flip
length-flip [] = refl
length-flip (c ∷ cs) = length-append (flip cs) (c ∷ []) ∙ omega (arith, length-flip cs)

get_or-flip :
    (cs : List ℕ) (i : ℕ) → i < length cs → get_or (flip cs) i 0 ≡ get_or cs (length cs - 1 - i) 0
unfolding flip
get_or-flip [] i h = absurd (omega arith)
get_or-flip (c ∷ cs) i h = elim (Bool-cases (ltb i (length cs))) [
  | inl inner ↦
      get_or-append_left (flip cs) (c ∷ []) i 0 (ground (arith, length-flip cs))
      ∙ get_or-flip cs i (ground arith)
      ∙ ap (λ k. get_or (c ∷ cs) k 0) (down (length cs) i (ground arith))
  | inr last ↦
      let here : i ≡ length cs = ground arith in
      let behind : i ≡ length (flip cs) + 0 = omega (arith, length-flip cs) in
      let front : ◌≡◌ {A = ℕ} 0 (suc (length cs) - 1 - i) = omega arith in
      ap (λ k. get_or (flip cs ++ (c ∷ [])) k 0) behind
      ∙ get_or-append_right (flip cs) (c ∷ []) 0 0
      ∙ ap (λ k. get_or (c ∷ cs) k 0) front
]
  where
    down : (n j : ℕ) → j < n → suc (n - 1 - j) ≡ suc n - 1 - j
    down n j lt = omega arith

abbrev zero_digit : List ℕ
zero_digit = b'0' ∷ []

-- The numeral of a value, the highest digit first.
unfoldable pub numeral : (radix v : ℕ) → List ℕ
numeral radix v = if v == 0 then zero_digit else flip (low_digits v radix v)

-- A text in memory with its terminator.
pub text_at_lem :
    (fuel : ℕ) (m : ℕ → ℕ) (a : ℕ) (cs : List ℕ)
    → ((i : ℕ) → i < length cs → (m (a + i) ≡ get_or cs i 0) × (get_or cs i 0 ≢ 0))
    → m (a + length cs) ≡ 0
    → length cs < fuel
    → text_at fuel m a ≡ some cs
unfolding text_at
text_at_lem zero m a cs h e lt = absurd (omega arith)
text_at_lem (suc fuel) m a [] h e lt =
    let ended : (m a == 0) ≡ true = ground (arith, ap m (plus_zero a)) in rw ended refl
  where
    plus_zero : (b : ℕ) → b + 0 ≡ b
    plus_zero b = omega arith
text_at_lem (suc fuel) m a (c ∷ cs) h e lt =
    let (here, some_c) = h 0 (omega arith) in
    let first : m a ≡ c = ap m (plus_zero a) ∙ here in
    let more : (m a == 0) ≡ false = ground (arith, first) in
    let rest =
      text_at_lem fuel m (a + 1) cs
        (λ i lt. (ap m (shift a i) ∙ (h (suc i) (omega arith)).0, (h (suc i) (omega arith)).1))
        (ap m (shift a (length cs)) ∙ e) (omega arith) in
    rw more (rw rest (rw first refl))
  where
    plus_zero : (b : ℕ) → b ≡ b + 0
    plus_zero b = omega arith

    shift : (b i : ℕ) → b + 1 + i ≡ b + suc i
    shift b i = omega arith

pub length-numeral :
    (k radix v : ℕ) → 1 < radix → v < radix ^ k → 0 < k → length (numeral radix v) ≤ k
unfolding numeral
length-numeral k radix v lo fits some_k =
    ground (arith, low_digits-le k v radix v lo fits, length-flip (low_digits v radix v))

-- A digit's character is not 0.
IsDigit-char : {radix c : ℕ} → IsDigit radix c → c ≢ 0
IsDigit-char (d, lt, e) = ground (arith, e)

-- The numeral stands in memory after `itoa`.
pub itoa-numeral :
    (m : ℕ → ℕ) (v buf radix : ℕ)
    → 1 < radix
    → radix ≤ 36
    → ((i : ℕ)
        → i < length (numeral radix v)
        → (itoa m v buf radix (buf + i) ≡ get_or (numeral radix v) i 0)
          × (get_or (numeral radix v) i 0 ≢ 0))
      × (itoa m v buf radix (buf + length (numeral radix v)) ≡ 0)
unfolding numeral
itoa-numeral m v buf radix lo hi = elim (Bool-cases (v == 0)) [
  | inl none_left ↦
      let nothing : v ≡ 0 = (==_iff _ _).0 none_left in
      rw nothing (zero_case, unfold itoa in unfold store in ground arith)
  | inr some_left ↦
      let some_v : 0 < v = ground arith in
      let cs = low_digits v radix v in
      let size = length-flip cs in
      rw some_left (
        λ i lt.
            let same = get_or-flip cs i (omega (arith, size)) in
            (
              itoa-reversed m v buf radix (buf + i) some_v lo hi
                  ∙ ground (arith, size, same, back cs i),
              rw same (
                  IsDigit-char
                    (low_digits-IsDigit v radix v (length cs - 1 - i) lo (omega (arith, size)))),
            ),
        itoa-reversed m v buf radix (buf + length (flip cs)) some_v lo hi ∙ ground (arith, size),
      )
]
  where
    back :
        (ds : List ℕ) (i : ℕ)
        → get_or ds (buf + length ds - 1 - (buf + i)) 0 ≡ get_or ds (length ds - 1 - i) 0
    back ds i = ap (λ k. get_or ds k 0) (omega arith)

    zero_case :
        (i : ℕ)
        → i < 1
        → (itoa m 0 buf radix (buf + i) ≡ get_or zero_digit i 0) × (get_or zero_digit i 0 ≢ 0)
    zero_case zero lt = (unfold itoa in unfold store in ground arith, omega arith)
    zero_case (suc i) lt = absurd (omega arith)

-- The two conversions of unsigned numbers put the numeral, in hexadecimal and in decimal.
pub hex_lem : (conv : ℕ → ℕ) (v : ℕ) → v < 2 ^ 32 → hex conv v ≡ some (numeral 16 v)
unfolding hex
hex_lem conv v h =
    let (chars, ended) = itoa-numeral conv v 0 16 (omega arith) (omega arith) in
    text_at_lem 64 (itoa conv v 0 16) 0 (numeral 16 v) chars ended
      (omega (arith, length-numeral 8 16 v (omega arith) h (omega arith)))

pub unsigned_lem : (conv : ℕ → ℕ) (v : ℕ) → v < 2 ^ 32 → unsigned conv v ≡ some (numeral 10 v)
unfolding unsigned
unsigned_lem conv v h =
    let (chars, ended) = itoa-numeral conv v 0 10 (omega arith) (omega arith) in
    text_at_lem 36 (itoa conv v 0 10) 0 (numeral 10 v) chars ended
      (omega (arith, length-numeral 10 10 v (omega arith) (omega arith) (omega arith)))

-- The numeral of an `int32_t`.
unfoldable pub integer : ℕ → List ℕ
integer v = if ltb v (2 ^ 31) then numeral 10 v else b'-' ∷ numeral 10 (2 ^ 32 - v)

cons_chars :
    (m : ℕ → ℕ) (c : ℕ) (cs : List ℕ)
    → m 0 ≡ c
    → c ≢ 0
    → ((i : ℕ) → i < length cs → (m (1 + i) ≡ get_or cs i 0) × (get_or cs i 0 ≢ 0))
    → (i : ℕ) → i < length (c ∷ cs)
    → (m (0 + i) ≡ get_or (c ∷ cs) i 0) × (get_or (c ∷ cs) i 0 ≢ 0)
cons_chars m c cs first some_c others zero lt = (first, some_c)
cons_chars m c cs first some_c others (suc i) lt =
    let (same, some_char) = others i (omega arith) in (ap m (shift i) ∙ same, some_char)
  where
    shift : (j : ℕ) → 0 + suc j ≡ 1 + j
    shift j = omega arith

pub signed_lem : (conv : ℕ → ℕ) (v : ℕ) → v < 2 ^ 32 → signed conv v ≡ some (integer v)
unfolding signed integer
signed_lem conv v h = elim (Bool-cases (ltb v (2 ^ 31))) [
  | inl positive ↦ rw positive (unfold unsigned in unsigned_lem conv v h)
  | inr negative ↦
      let w = 2 ^ 32 - v in
      let m = itoa (store conv 0 b'-') w 1 10 in
      let word : w % 2 ^ 32 ≡ w = ground arith in
      let (chars, ended) = itoa-numeral (store conv 0 b'-') w 1 10 (omega arith) (omega arith) in
      let kept : m 0 ≡ b'-' =
        itoa-reversed (store conv 0 b'-') w 1 10 0 (omega arith) (omega arith) (omega arith)
        ∙ unfold store in ground arith in
      rw (negative, word)
        (text_at_lem 36 m 0 (b'-' ∷ numeral 10 w)
          (cons_chars m b'-' (numeral 10 w) kept (omega arith) chars)
          (ap m (shift (length (numeral 10 w))) ∙ ended)
          (omega (arith, length-numeral 10 10 w (omega arith) (omega arith) (omega arith))))
]
  where
    shift : (j : ℕ) → 0 + suc j ≡ 1 + j
    shift j = omega arith

fill_zeros_lem :
    (m : ℕ → ℕ) (i todo a : ℕ)
    → fill_zeros m i todo a ≡ (if leb i a && ltb a (i + todo) then b'0' else m a)
unfolding fill_zeros store
fill_zeros_lem m i zero a = ground arith
fill_zeros_lem m i (suc todo) a = ground (arith, fill_zeros_lem (store m i b'0') (i + 1) todo a)

-- A text with zeros before it.
get_or-padded :
    (k : ℕ) (cs : List ℕ) (i : ℕ)
    → get_or (replicate k b'0' ++ cs) i 0 ≡ (if ltb i k then b'0' else get_or cs (i - k) 0)
get_or-padded zero cs i = ground arith
get_or-padded (suc k) cs zero = ground arith
get_or-padded (suc k) cs (suc i) = ground (arith, get_or-padded k cs i)

-- The numeral with zeros before it up to eight digits.
unfoldable pub eight_digits : ℕ → List ℕ
eight_digits v = replicate (8 - length (numeral 16 v)) b'0' ++ numeral 16 v

pub full_hex_lem : (conv : ℕ → ℕ) (v : ℕ) → v < 2 ^ 32 → full_hex conv v ≡ some (eight_digits v)
unfolding eight_digits full_hex
full_hex_lem conv v h =
    let m = itoa conv v 8 16 in
    let cs = numeral 16 v in
    let n = length cs in
    let (chars, ended) = itoa-numeral conv v 8 16 (omega arith) (omega arith) in
    let short = length-numeral 8 16 v (omega arith) h (omega arith) in
    let found : strlen 56 m 8 0 ≡ some n =
      strlen_from 56 m 8 0 n ended (λ i lt. some_char m cs i (chars i lt)) (omega arith)
        (omega (arith, short)) in
    let m' = fill_zeros m n (8 - n) in
    let lead : List ℕ = replicate (8 - n) b'0' in
    let size = length-append lead cs in
    let zeros : length lead ≡ 8 - n = length-replicate (8 - n) b'0' in
    rw (full_hex, found)
      (text_at_lem 64 m' n (lead ++ cs)
        (λ i lt. elim (Bool-cases (ltb i (8 - n))) [
          | inl before ↦ (
            ground (arith, fill_zeros_lem m n (8 - n) (n + i), get_or-padded (8 - n) cs i),
            ground (arith, get_or-padded (8 - n) cs i),
          )
          | inr behind ↦
              let past : 8 - n ≤ i = ground arith in
              let (same, some_digit) = chars (i - (8 - n)) (omega (arith, size, zeros)) in
              (
                ground (
                  arith,
                  short,
                  fill_zeros_lem m n (8 - n) (n + i),
                  get_or-padded (8 - n) cs i,
                  same,
                ),
                ground (arith, get_or-padded (8 - n) cs i),
              )
        ])
        (ground
          (arith, short, size, zeros, ended, fill_zeros_lem m n (8 - n) (n + length (lead ++ cs))))
        (omega (arith, short, size, zeros)))
  where
    some_char :
        (f : ℕ → ℕ) (ds : List ℕ) (i : ℕ)
        → (f (8 + i) ≡ get_or ds i 0) × (get_or ds i 0 ≢ 0)
        → f (8 + i) ≢ 0
    some_char f ds i h' e = h'.1 (sym h'.0 ∙ e)

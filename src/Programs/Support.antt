-- ===== src/Programs/Support.antt =====
-- The string routines against the texts that they work on.
use cheet_os.Base.{
  ℕ, zero, suc, ◌+◌, ◌<◌, ◌≡◌, refl, ◌≢◌, ◌∙◌, ap, sym, some, List, [], ◌∷◌, ◌==◌, if◌then◌else◌,
  arith, length, false, Bool-cases, inl, inr, All, sub32,
}
use cheet_os.Printf.{text_at}
use cheet_os.Programs.{ece391_strlen, ece391_strcmp}

-- The text at an address, with the 0 that ends it.
abbrev pub Holds : (ℕ → ℕ) → ℕ → List ℕ → Type 0
Holds m a [] = m a ≡ 0
Holds m a (c ∷ cs) = (m a ≡ c) × (c ≢ 0) × Holds m (a + 1) cs

pub text_at_lem :
    (m : ℕ → ℕ) (text : List ℕ) (fuel a : ℕ)
    → Holds m a text
    → length text < fuel
    → text_at fuel m a ≡ some text
unfolding text_at
text_at_lem m text zero a h lt = absurd (omega arith)
text_at_lem m [] (suc fuel) a h lt = rw h refl
text_at_lem m (c ∷ cs) (suc fuel) a h lt =
    let (here, on, rest) = h in
    let more : (m a == 0) ≡ false = ground arith in
    rw more (rw (text_at_lem m cs fuel (a + 1) rest (omega arith)) (ap (λ x. some (x ∷ cs)) here))

pub ece391_strlen_lem :
    (m : ℕ → ℕ) (text : List ℕ) (fuel a : ℕ)
    → Holds m a text
    → length text < fuel
    → ece391_strlen fuel m a ≡ some (a + length text)
unfolding ece391_strlen
ece391_strlen_lem m text zero a h lt = absurd (omega arith)
ece391_strlen_lem m [] (suc fuel) a h lt = rw h (ap some (omega arith))
ece391_strlen_lem m (c ∷ cs) (suc fuel) a h lt =
    let (here, on, rest) = h in
    let more : (m a == 0) ≡ false = ground arith in
    rw more (rw (ece391_strlen_lem m cs fuel (a + 1) rest (omega arith)) (ap some (omega arith)))

-- What the comparison of two texts gives, the 0 behind each of them included.
unfoldable pub compared : List ℕ → List ℕ → ℕ
compared [] [] = 0
compared [] (y ∷ ys) = sub32 0 y
compared (x ∷ xs) [] = sub32 x 0
compared (x ∷ xs) (y ∷ ys) = if x == y then compared xs ys else sub32 x y

abbrev pub IsByte : ℕ → Type 0
IsByte c = c < 256

compared-zero :
    (xs ys : List ℕ) (m1 m2 : ℕ → ℕ) (i : ℕ)
    → Holds m1 i xs
    → Holds m2 i ys
    → All IsByte xs
    → All IsByte ys
    → compared xs ys ≡ 0
    → xs ≡ ys
unfolding compared
compared-zero [] [] m1 m2 i h1 h2 b1 b2 e = refl
compared-zero [] (y ∷ ys) m1 m2 i h1 h2 b1 b2 e =
    let l : y < 256 = b2.0 in let on : y ≢ 0 = h2.1 in ground arith
compared-zero (x ∷ xs) [] m1 m2 i h1 h2 b1 b2 e =
    let l : x < 256 = b1.0 in let on : x ≢ 0 = h1.1 in ground arith
compared-zero (x ∷ xs) (y ∷ ys) m1 m2 i h1 h2 b1 b2 e =
    let l1 : x < 256 = b1.0 in
    let l2 : y < 256 = b2.0 in
    elim (Bool-cases (x == y)) [
      | inl same ↦
          let head : x ≡ y = ground arith in
          rw head
            (ap (λ l. y ∷ l) (compared-zero xs ys m1 m2 (i + 1) h1.2 h2.2 b1.1 b2.1 (ground arith)))
      | inr differ ↦ ground arith
    ]

compared_self : (xs : List ℕ) → compared xs xs ≡ 0
unfolding compared
compared_self [] = refl
compared_self (x ∷ xs) = ground (arith, compared_self xs)

compares :
    (xs ys : List ℕ) (fuel : ℕ) (s1 s2 : ℕ → ℕ) (i : ℕ)
    → Holds s1 i xs
    → Holds s2 i ys
    → length xs < fuel
    → ece391_strcmp fuel s1 s2 i ≡ some (compared xs ys)
unfolding ece391_strcmp compared
compares xs ys zero s1 s2 i h1 h2 lt = absurd (omega arith)
compares [] [] (suc fuel) s1 s2 i h1 h2 lt = rw (h1, h2) refl
compares [] (y ∷ ys) (suc fuel) s1 s2 i h1 h2 lt =
    let (here, on, rest) = h2 in
    let other : (0 == y) ≡ false = ground arith in rw (h1, here, other) refl
compares (x ∷ xs) [] (suc fuel) s1 s2 i h1 h2 lt =
    let (here, on, rest) = h1 in
    let other : (x == 0) ≡ false = ground arith in rw (h2, here, other) refl
compares (x ∷ xs) (y ∷ ys) (suc fuel) s1 s2 i h1 h2 lt =
    let (here1, on1, rest1) = h1 in
    let (here2, on2, rest2) = h2 in
    let more : (x == 0) ≡ false = ground arith in
    rw (here1, here2, more)
      (rw (compares xs ys fuel s1 s2 (i + 1) rest1 rest2 (omega arith))
        (elim (Bool-cases (x == y)) [ inl e ↦ rw e refl | inr e ↦ rw e refl ]))

-- On two texts of bytes, with fuel for each character of the first and its end, `ece391_strcmp` returns
-- the difference of the first two characters that differ, as a word, and this is 0 exactly for equal texts.
pub ece391_strcmp_lem :
    (xs ys : List ℕ) (fuel : ℕ) (s1 s2 : ℕ → ℕ)
    → Holds s1 0 xs
    → Holds s2 0 ys
    → All IsByte xs
    → All IsByte ys
    → length xs < fuel
    → (ece391_strcmp fuel s1 s2 0 ≡ some (compared xs ys))
      × (compared xs ys ≡ 0 → xs ≡ ys)
      × (xs ≡ ys → compared xs ys ≡ 0)
ece391_strcmp_lem xs ys fuel s1 s2 h1 h2 b1 b2 lt = (
  compares xs ys fuel s1 s2 0 h1 h2 lt,
  compared-zero xs ys s1 s2 0 h1 h2 b1 b2,
  λ e. ap (compared xs) (sym e) ∙ compared_self xs,
)

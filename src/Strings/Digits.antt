-- ===== src/Strings/Digits.antt =====
-- The digits of a number, the lowest first, and what they are worth.
use native.Mathlib.Nat.{mod-lt, div-lt_self, mod-add-div, div-lt_iff_lt-mul, pow-zero, pow-suc}
use cheet_os.Base.{
  ℕ, zero, suc, ◌+◌, ◌-◌, ◌*◌, ◌/◌, ◌^◌, ◌%◌, ◌<◌, ◌≤◌, ◌≡◌, refl, ◌≢◌, ap, List, [], ◌∷◌, ltb,
  ◌==◌, if◌then◌else◌, arith, length, true, false, Bool-cases, inl, inr, get_or, ==_iff,
}
use cheet_os.Strings.{digit_of}

-- The digits that `itoa` writes, the lowest first, on fuel.
unfoldable pub low_digits : (fuel radix v : ℕ) → List ℕ
low_digits zero radix v = []
low_digits (suc fuel) radix v =
    let rest = low_digits fuel radix (v / radix) in
    if v == 0 then [] else digit_of (v % radix) ∷ rest

-- What a digit's character stands for.
unfoldable pub digit_value : ℕ → ℕ
digit_value c = if ltb c b'A' then c - b'0' else c - b'A' + 10

pub digit_value-digit_of : (d : ℕ) → d < 36 → digit_value (digit_of d) ≡ d
unfolding digit_value
digit_value-digit_of d h = ground arith

-- What digits are worth, the lowest first.
unfoldable pub worth : (radix : ℕ) → List ℕ → ℕ
worth radix [] = 0
worth radix (c ∷ cs) = digit_value c + radix * worth radix cs

pub worth-low_digits :
    (fuel radix v : ℕ)
    → 1 < radix
    → radix ≤ 36
    → v ≤ fuel
    → worth radix (low_digits fuel radix v) ≡ v
unfolding worth low_digits
worth-low_digits zero radix v lo hi h = omega arith
worth-low_digits (suc fuel) radix v lo hi h = elim (Bool-cases (v == 0)) [
  | inl none_left ↦ rw none_left (ground arith)
  | inr some_left ↦
      let some_v : 0 < v = ground arith in
      let less : v / radix < v = div-lt_self some_v lo in
      let small : v % radix < radix = mod-lt v (omega arith) in
      let ih = worth-low_digits fuel radix (v / radix) lo hi (omega arith) in
      rw some_left
        (rw ih (rw (digit_value-digit_of (v % radix) (omega arith)) (mod-add-div v radix)))
]

-- The character of a digit below the radix.
abbrev pub IsDigit : (radix c : ℕ) → Type 0
IsDigit radix c = (d : ℕ) × (d < radix) × (c ≡ digit_of d)

IsDigit-cons :
    {radix : ℕ} (c : ℕ) (cs : List ℕ) (i : ℕ)
    → IsDigit radix c
    → ((j : ℕ) → j < length cs → IsDigit radix (get_or cs j 0))
    → i < length (c ∷ cs)
    → IsDigit radix (get_or (c ∷ cs) i 0)
IsDigit-cons c cs zero first others h = first
IsDigit-cons c cs (suc i) first others h = others i (omega arith)

pub low_digits-IsDigit :
    (fuel radix v i : ℕ)
    → 1 < radix
    → i < length (low_digits fuel radix v)
    → IsDigit radix (get_or (low_digits fuel radix v) i 0)
unfolding low_digits
low_digits-IsDigit zero radix v i lo = λ h. absurd (omega arith)
low_digits-IsDigit (suc fuel) radix v i lo = elim (Bool-cases (v == 0)) [
  | inl done ↦ rw done (λ h. absurd (omega arith))
  | inr more ↦ rw more (
      IsDigit-cons (digit_of (v % radix)) (low_digits fuel radix (v / radix)) i
        (v % radix, mod-lt v (omega arith), refl)
        (λ j. low_digits-IsDigit fuel radix (v / radix) j lo))
]

low_digits-zero : (fuel radix : ℕ) → low_digits fuel radix 0 ≡ []
unfolding low_digits
low_digits-zero zero radix = refl
low_digits-zero (suc fuel) radix = refl

top_cons :
    (c : ℕ) (cs : List ℕ)
    → 0 < length cs
    → get_or cs (length cs - 1) 0 ≢ b'0'
    → get_or (c ∷ cs) (length (c ∷ cs) - 1) 0 ≢ b'0'
top_cons c [] some_c h = absurd (omega arith)
top_cons c (x ∷ xs) some_c h = rw (same (length xs)) h
  where
    same : (n : ℕ) → suc (suc n) - 1 ≡ suc (suc n - 1)
    same n = omega arith

digit_of-zero : (d : ℕ) → 0 < d → d < 36 → digit_of d ≢ b'0'
digit_of-zero d lo hi = ground arith

-- There is a digit, and the highest one is not 0.
pub low_digits-top :
    (fuel radix v : ℕ)
    → 1 < radix
    → radix ≤ 36
    → 0 < v
    → v ≤ fuel
    → let cs = low_digits fuel radix v in (0 < length cs) × (get_or cs (length cs - 1) 0 ≢ b'0')
unfolding low_digits
low_digits-top zero radix v lo hi some_v h = absurd (omega arith)
low_digits-top (suc fuel) radix v lo hi some_v h =
    let some_left : (v == 0) ≡ false = ground arith in
    let less : v / radix < v = div-lt_self some_v lo in
    let small : v % radix < radix = mod-lt v (omega arith) in
    let cs = low_digits fuel radix (v / radix) in
    elim (Bool-cases (v / radix == 0)) [
      | inl last ↦
          let none_left : v / radix ≡ 0 = (==_iff _ _).0 last in
          let whole : v % radix ≡ v =
            omega (arith, mod-add-div v radix, ap (λ (t : ℕ). radix * t) none_left) in
          let alone : cs ≡ [] = rw none_left (low_digits-zero fuel radix) in
          rw (some_left, alone)
            (omega arith, rw whole (digit_of-zero v some_v (omega (arith, whole))))
      | inr rest ↦
          let (longer, top) =
            low_digits-top fuel radix (v / radix) lo hi (ground arith) (omega arith) in
          rw some_left (omega arith, top_cons (digit_of (v % radix)) cs longer top)
    ]

-- A number below a power has no more digits than that.
pub low_digits-le :
    (k fuel radix v : ℕ) → 1 < radix → v < radix ^ k → length (low_digits fuel radix v) ≤ k
unfolding low_digits
low_digits-le k zero radix v lo h = omega arith
low_digits-le zero (suc fuel) radix v lo h =
    let nothing : (v == 0) ≡ true = ground (arith, pow-zero radix) in rw nothing (omega arith)
low_digits-le (suc k) (suc fuel) radix v lo h =
    let below : v / radix < radix ^ k =
      (div-lt_iff_lt-mul {k = radix} (omega arith)).1 (rw (← pow-suc radix k) h) in
    ground (arith, low_digits-le k fuel radix (v / radix) lo below)

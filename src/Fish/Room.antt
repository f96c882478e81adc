-- ===== src/Fish/Room.antt =====
-- Different structs of the array are no more than the array has.
use cheet_os.Base.{
  ℕ, zero, suc, ◌<◌, ◌≤◌, ◌≡◌, ◌≢◌, refl, ap, subst, true, ◌∙◌, ◌⊎◌, inl, inr, List, [], ◌∷◌, ◌==◌,
  if◌then◌else◌, false, Bool-cases, arith, All, length, Option,
}
use cheet_os.Fish.Blinks.{Blink, num_blinks}
use cheet_os.Fish.Chain.{Chain}

abbrev Distinct : List ℕ → Type 0
Distinct [] = Unit
Distinct (i ∷ is) = All (λ j. i ≢ j) is × Distinct is

pub without : (n : ℕ) → List ℕ → List ℕ
without n [] = []
without n (i ∷ is) = let rest = without n is in if i == n then rest else i ∷ rest

without_absent : (n : ℕ) (is : List ℕ) → All (λ j. n ≢ j) is → without n is ≡ is
unfolding without
without_absent n [] h = refl
without_absent n (i ∷ is) (ne, h) =
    let other : (i == n) ≡ false = ground arith in
    rw other (ap (λ l. i ∷ l) (without_absent n is h))

without-All :
    {P Q : ℕ → Type 0} (n : ℕ) (is : List ℕ)
    → ((i : ℕ) → i ≢ n → P i → Q i)
    → All P is
    → All Q (without n is)
unfolding without
without-All n [] f h = tt
without-All n (i ∷ is) f (p, h) = elim (Bool-cases (i == n)) [
  | inl e ↦ rw e (without-All n is f h)
  | inr e ↦ rw e (f i (ground arith) p, without-All n is f h)
]

without-Distinct : (n : ℕ) (is : List ℕ) → Distinct is → Distinct (without n is)
unfolding without
without-Distinct n [] h = tt
without-Distinct n (i ∷ is) (apart, h) = elim (Bool-cases (i == n)) [
  | inl e ↦ rw e (without-Distinct n is h)
  | inr e ↦ rw e (without-All n is (λ j ne a. a) apart, without-Distinct n is h)
]

without-length : (n : ℕ) (is : List ℕ) → Distinct is → length is ≤ suc (length (without n is))
unfolding without
without-length n [] h = omega arith
without-length n (i ∷ is) (apart, h) = elim (Bool-cases (i == n)) [
  | inl e ↦
      let same : i ≡ n = ground arith in
      rw e (rw (without_absent n is (rw (← same) apart)) (omega arith))
  | inr e ↦ rw e (let l = without-length n is h in omega (arith, l))
]

without_same : (n i : ℕ) (is : List ℕ) → (i == n) ≡ true → without n (i ∷ is) ≡ without n is
unfolding without
without_same n i is e = rw e refl

without_other : (n i : ℕ) (is : List ℕ) → (i == n) ≡ false → without n (i ∷ is) ≡ i ∷ without n is
unfolding without
without_other n i is e = rw e refl

shorter : (n : ℕ) (is : List ℕ) → length (without n is) < suc (length is)
unfolding without
shorter n [] = omega arith
shorter n (i ∷ is) = elim (Bool-cases (i == n)) [
  | inl e ↦ let l = shorter n is in rw e (omega (arith, l))
  | inr e ↦ let l = shorter n is in rw e (omega (arith, l))
]

without_back :
    (n : ℕ) (is : List ℕ) (j : ℕ) → j ≢ n → All (λ i. j ≢ i) (without n is) → All (λ i. j ≢ i) is
without_back n [] j ne away = tt
without_back n (i ∷ is) j ne away = elim (Bool-cases (i == n)) [
  | inl e ↦
      let same : i ≡ n = ground arith in
      (
        (λ z. ne (z ∙ same)),
        without_back n is j ne (subst (All (λ k. j ≢ k)) (without_same n i is e) away),
      )
  | inr e ↦
      let (first, rest) = subst (All (λ k. j ≢ k)) (without_other n i is e) away in
      (first, without_back n is j ne rest)
]

-- Either the number is not in the list, or the list without it is shorter and apart from no less.
pub without-absent_or :
    (n : ℕ) (is : List ℕ)
    → All (λ i. n ≢ i) is
      ⊎ ((length (without n is) < length is)
          × ((j : ℕ) → j ≢ n → All (λ i. j ≢ i) (without n is) → All (λ i. j ≢ i) is))
unfolding without
without-absent_or n [] = inl tt
without-absent_or n (i ∷ is) = elim (Bool-cases (i == n)) [
  | inl e ↦
      let same : i ≡ n = ground arith in
      rw e (inr (shorter n is, λ j ne away. ((λ z. ne (z ∙ same)), without_back n is j ne away)))
  | inr e ↦ rw e (elim (without-absent_or n is) [
    | inl absent ↦ inl ((λ z. absurd (ground arith)), absent)
    | inr (fewer, back) ↦ inr (omega (arith, fewer), λ j ne away. (away.0, back j ne away.1))
  ])
]

Distinct-length : (n : ℕ) (is : List ℕ) → All (λ i. i < n) is → Distinct is → length is ≤ n
Distinct-length zero [] small h = omega arith
Distinct-length zero (i ∷ is) (lt, small) h = absurd (omega (arith, lt))
Distinct-length (suc n) is small h =
    let fewer =
      Distinct-length n (without n is) (without-All n is (λ i ne lt. omega arith) small)
        (without-Distinct n is h) in
    omega (arith, fewer, without-length n is h)

Chain-Distinct :
    (m : ℕ → Blink) (p : Option ℕ) (is : List ℕ) (bs : List Blink)
    → Chain m p is bs
    → All (λ i. i < num_blinks) is × Distinct is
Chain-Distinct m p [] bs chain = (tt, tt)
Chain-Distinct m p (i ∷ is) [] chain = absurd chain
Chain-Distinct m p (i ∷ is) (b ∷ bs) (at, lt, shown, real, apart, chain) =
    let (small, distinct) = Chain-Distinct m (m i).next is bs chain in
    ((lt, small), (apart, distinct))

pub Chain-length :
    (m : ℕ → Blink) (p : Option ℕ) (is : List ℕ) (bs : List Blink)
    → Chain m p is bs
    → length is ≤ num_blinks
Chain-length m p is bs chain =
    let (small, distinct) = Chain-Distinct m p is bs chain in
    Distinct-length num_blinks is small distinct

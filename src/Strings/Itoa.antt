-- ===== src/Strings/Itoa.antt =====
-- `itoa` writes the numeral of its value.
use cheet_os.Base.{
  ℕ, zero, suc, ◌+◌, ◌-◌, ◌*◌, ◌/◌, ◌%◌, ◌^◌, ◌<◌, ◌≤◌, ◌≡◌, refl, ◌≢◌, ◌∙◌, ap, sym, List, [], ◌∷◌,
  ltb, leb, ◌==◌, ◌&&◌, if◌then◌else◌, arith, length, get_or, false, Bool-cases, inl, inr, ==_iff,
}
use cheet_os.Screen.{store}
use cheet_os.Strings.{digit_of, write_digits, itoa, strrev}
use cheet_os.Strings.Text.{swap_from_lem}
use cheet_os.Strings.Digits.{
  low_digits, digit_value, worth, worth-low_digits, IsDigit, low_digits-top, low_digits-IsDigit,
  low_digits-le,
}

get_or-cons :
    (c : ℕ) (cs : List ℕ) (k : ℕ)
    → get_or (c ∷ cs) k 0 ≡ (if k == 0 then c else get_or cs (k - 1) 0)
get_or-cons c cs zero = refl
get_or-cons c cs (suc k) = ground arith

-- The digits stand behind one another from `newbuf` on.
write_digits_lem :
    (fuel : ℕ) (m : ℕ → ℕ) (v newbuf radix a : ℕ)
    → let cs = low_digits fuel radix v in
      let (m', end) = write_digits fuel m v newbuf radix in
      (end ≡ newbuf + length cs)
      × (m' a
          ≡ (if leb newbuf a && ltb a (newbuf + length cs) then get_or cs (a - newbuf) 0 else m a))
unfolding write_digits low_digits
write_digits_lem zero m v newbuf radix a = (omega arith, ground arith)
write_digits_lem (suc fuel) m v newbuf radix a = elim (Bool-cases (v == 0)) [
  | inl done ↦ rw done (omega arith, ground arith)
  | inr more ↦
      let c = digit_of (v % radix) in
      let (ends, holds) =
        write_digits_lem fuel (store m newbuf c) (v / radix) (newbuf + 1) radix a in
      rw more (
        omega (arith, ends),
        holds
            ∙ unfold store in
              ground (
                arith,
                get_or-cons c (low_digits fuel radix (v / radix)) (a - newbuf),
                ap (λ k. get_or (low_digits fuel radix (v / radix)) k 0) (shift a),
              ),
      )
]
  where
    shift : (b : ℕ) → b - (newbuf + 1) ≡ b - newbuf - 1
    shift b = omega arith

-- What the `n` characters from `a` on are worth as a numeral, the highest digit first.
unfoldable pub read_number : (radix : ℕ) → (ℕ → ℕ) → (a n : ℕ) → ℕ
read_number radix m a zero = 0
read_number radix m a (suc n) = read_number radix m a n * radix + digit_value (m (a + n))

read_number-worth :
    (radix : ℕ) (m : ℕ → ℕ) (a : ℕ) (cs : List ℕ)
    → ((i : ℕ) → i < length cs → m (a + i) ≡ get_or cs (length cs - 1 - i) 0)
    → read_number radix m a (length cs) ≡ worth radix cs
unfolding read_number worth
read_number-worth radix m a [] h = refl
read_number-worth radix m a (c ∷ cs) h =
    let lowest : m (a + length cs) ≡ c =
      h (length cs) (omega arith)
      ∙ ground (arith, get_or-cons c cs (suc (length cs) - 1 - length cs)) in
    let ih = read_number-worth radix m a cs (λ i lt.
      h i (omega arith)
      ∙ ground (
        arith,
        get_or-cons c cs (suc (length cs) - 1 - i),
        ap (λ k. get_or cs k 0) (shift (length cs) i lt),
      )) in
    rw (ih, lowest) (grind arith)
  where
    shift : (n i : ℕ) → i < n → suc n - 1 - i - 1 ≡ n - 1 - i
    shift n i lt = omega arith

-- The `n` bytes from `buf` on are the numeral of `v`, without leading zeros, and a 0 ends it.
pub record IsNumeral (radix v : ℕ) (m : ℕ → ℕ) (buf n : ℕ) : Type 0 where
  pub value : read_number radix m buf n ≡ v
  pub digits : (i : ℕ) → i < n → IsDigit radix (m (buf + i))
  pub some_digit : 0 < n
  pub no_zero : 1 < n → m buf ≢ b'0'
  pub ended : m (buf + n) ≡ 0

-- Memory after `itoa` of a value that is not 0.
pub itoa-reversed :
    (m : ℕ → ℕ) (v buf radix a : ℕ)
    → 0 < v
    → 1 < radix
    → radix ≤ 36
    → let cs = low_digits v radix v in
      itoa m v buf radix a ≡ (
        if leb buf a && ltb a (buf + length cs)
        then get_or cs (buf + length cs - 1 - a) 0
        else if a == buf + length cs
        then 0
        else m a)
unfolding itoa strrev store
itoa-reversed m v buf radix a some_v lo hi =
    let cs = low_digits v radix v in
    let written = (write_digits v m v buf radix).0 in
    let some_left : (v == 0) ≡ false = ground arith in
    let (ends, here) = write_digits_lem v m v buf radix a in
    let (_, mirror) = write_digits_lem v m v buf radix (buf + 0 + (buf + (length cs - 1) - a)) in
    let (longer, top) = low_digits-top v radix v lo hi some_v (omega arith) in
    rw (some_left, ends)
      (ground (
        arith,
        longer,
        swap_from_lem (buf + length cs - buf) (store written (buf + length cs) 0) buf 0
            (buf + length cs - buf - 1) a,
        here,
        mirror,
      ))

zero-IsNumeral :
    (m : ℕ → ℕ) (buf radix : ℕ) → 1 < radix → IsNumeral radix 0 (itoa m 0 buf radix) buf 1
unfolding itoa read_number digit_value store
zero-IsNumeral m buf radix lo = record {
  value = ground arith;
  digits = λ i lt. (0, omega arith, ground arith);
  some_digit = omega arith;
  no_zero = λ h. absurd (omega arith);
  ended = ground arith;
}

positive-IsNumeral :
    (m : ℕ → ℕ) (v buf radix : ℕ)
    → 0 < v
    → 1 < radix
    → radix ≤ 36
    → IsNumeral radix v (itoa m v buf radix) buf (length (low_digits v radix v))
positive-IsNumeral m v buf radix some_v lo hi =
    let cs = low_digits v radix v in
    let (longer, top) = low_digits-top v radix v lo hi some_v (omega arith) in
    let at = λ (a : ℕ). itoa-reversed m v buf radix a some_v lo hi in
    let place = λ (i : ℕ) (lt : i < length cs). place_of cs i lt in
    let held : (i : ℕ)
        → i < length cs
        → itoa m v buf radix (buf + i) ≡ get_or cs (length cs - 1 - i) 0 =
      λ i lt. at (buf + i) ∙ ground (arith, place i lt) in
    record {
      value =
          read_number-worth radix (itoa m v buf radix) buf cs held
          ∙ worth-low_digits v radix v lo hi (omega arith);
      digits = λ i lt.
          rw (held i lt) (low_digits-IsDigit v radix v (length cs - 1 - i) lo (omega arith));
      some_digit = longer;
      no_zero = λ h e.
          top (first cs longer ∙ sym (held 0 longer) ∙ ap (itoa m v buf radix) (omega arith) ∙ e);
      ended = at (buf + length cs) ∙ ground arith;
    }
  where
    place_of :
        (ds : List ℕ) (i : ℕ)
        → i < length ds
        → get_or ds (buf + length ds - 1 - (buf + i)) 0 ≡ get_or ds (length ds - 1 - i) 0
    place_of ds i lt = ap (λ k. get_or ds k 0) (omega arith)

    first :
        (ds : List ℕ)
        → 0 < length ds
        → get_or ds (length ds - 1) 0 ≡ get_or ds (length ds - 1 - 0) 0
    first ds lt = ap (λ k. get_or ds k 0) (omega arith)

-- `itoa` with a radix from 2 to 36 writes the numeral of its value, without leading zeros and with a
-- terminator, which read back gives the value. A value below `radix ^ k` has at most `k` digits, and
-- no byte but the digits and the terminator is written.
pub itoa_lem :
    (m : ℕ → ℕ) (v buf radix k a : ℕ)
    → 1 < radix
    → radix ≤ 36
    → v < radix ^ k
    → 0 < k
    → (n : ℕ) × (n ≤ k)
      × IsNumeral radix v (itoa m v buf radix) buf n
      × (itoa m v buf radix a
          ≡ (if leb buf a && leb a (buf + n) then itoa m v buf radix a else m a))
itoa_lem m v buf radix k a lo hi fits some_k = elim (Bool-cases (v == 0)) [
  | inl none_left ↦
      let nothing : v ≡ 0 = (==_iff _ _).0 none_left in
      rw nothing
        (1, omega arith, zero-IsNumeral m buf radix lo, unfold itoa in unfold store in ground arith)
  | inr some_left ↦
      let some_v : 0 < v = ground arith in
      (
        length (low_digits v radix v),
        low_digits-le k v radix v lo fits,
        positive-IsNumeral m v buf radix some_v lo hi,
        ground (arith, itoa-reversed m v buf radix a some_v lo hi),
      )
]

-- ===== src/Fish/Chain.antt =====
-- The list of blinks as a list of values, apart from where they lie in the array.
use cheet_os.Base.{
  ℕ, zero, suc, ◌+◌, ◌*◌, ◌<◌, ◌≤◌, ◌≡◌, ◌≢◌, refl, ◌∙◌, sym, ap, ◌⊎◌, inl, inr, List, [], ◌∷◌,
  Option, none, some, ◌==◌, leb, Bool-cases, arith, All, true, false, minus_one,
}
use cheet_os.Screen.{store}
use cheet_os.Fish.Blinks.{
  Blink, Board, num_blinks, put, malloc_from, mp1_malloc, mp1_poke, add_at, mp1_ioctl_add,
}

-- A blink without its link.
abbrev pub seen : Blink → Blink
seen b = record b { next = none }

-- From the pointer `p` on the list has the structs `is`, all of them different, with the values `bs`; none
-- of them is free.
abbrev pub Chain : (ℕ → Blink) → Option ℕ → List ℕ → List Blink → Type 0
Chain m p [] [] = p ≡ none
Chain m p (i ∷ is) (b ∷ bs) =
    (p ≡ some i)
    × (i < num_blinks)
    × (seen (m i) ≡ b)
    × (b.location ≢ 0)
    × All (λ j. i ≢ j) is
    × Chain m (m i).next is bs
Chain m p _ _ = ⊥

pub put_self : (m : ℕ → Blink) (i : ℕ) (b : Blink) → put m i b i ≡ b
unfolding put
put_self m i b = let same : (i == i) ≡ true = ground arith in rw same refl

pub put_other : (m : ℕ → Blink) (i j : ℕ) (b : Blink) → i ≢ j → put m i b j ≡ m j
unfolding put
put_other m i j b ne = let other : (j == i) ≡ false = ground arith in rw other refl

pub All-map {ℓ} :
    {A : Type ℓ} {P Q : A → Type 0} → ((a : A) → P a → Q a) → (xs : List A) → All P xs → All Q xs
All-map f [] h = tt
All-map f (a ∷ xs) (h, t) = (f a h, All-map f xs t)

-- A list does not depend on the other structs.
pub Chain-kept :
    (m q : ℕ → Blink) (p : Option ℕ) (is : List ℕ) (bs : List Blink)
    → All (λ j. q j ≡ m j) is
    → Chain m p is bs
    → Chain q p is bs
Chain-kept m q p [] [] same chain = chain
Chain-kept m q p [] (b ∷ bs) same chain = absurd chain
Chain-kept m q p (i ∷ is) [] same chain = absurd chain
Chain-kept m q p (i ∷ is) (b ∷ bs) (here, same) (at, lt, shown, real, apart, chain) = (
  at,
  lt,
  ap seen here ∙ shown,
  real,
  apart,
  rw here (Chain-kept m q (m i).next is bs same chain),
)

-- A free struct is none of the list's.
pub Chain-apart :
    (m : ℕ → Blink) (n : ℕ) (p : Option ℕ) (is : List ℕ) (bs : List Blink)
    → (m n).location ≡ 0
    → Chain m p is bs
    → All (λ j. n ≢ j) is
Chain-apart m n p [] bs free chain = tt
Chain-apart m n p (i ∷ is) [] free chain = absurd chain
Chain-apart m n p (i ∷ is) (b ∷ bs) free (at, lt, shown, real, apart, chain) = (
  λ e. real (sym (ap (λ (x : Blink). x.location) shown) ∙ ap (λ j. (m j).location) (sym e) ∙ free),
  Chain-apart m n (m i).next is bs free chain,
)

-- The board holds a list of blinks.
pub record Shows (s : Board) (bs : List Blink) : Type 0 where
  pub structs : List ℕ
  pub chain : Chain s.blink_array s.mp1_list_head structs bs

-- The first free struct, if there is one.
pub malloc_from_lem :
    (m : ℕ → Blink) (todo i : ℕ)
    → ((n : ℕ) × (malloc_from m todo i ≡ some n) × (n < i + todo) × ((m n).location ≡ 0))
      ⊎ ((malloc_from m todo i ≡ none) × ((j : ℕ) → i ≤ j → j < i + todo → (m j).location ≢ 0))
unfolding malloc_from
malloc_from_lem m zero i = inr (refl, λ j lo hi. absurd (omega arith))
malloc_from_lem m (suc todo) i = elim (Bool-cases ((m i).location == 0)) [
  | inl free ↦ rw free (inl (i, refl, omega arith, ground arith))
  | inr busy ↦ rw busy (elim (malloc_from_lem m todo (i + 1)) [
    | inl (n, e, lt, free) ↦ inl (n, e, omega arith, free)
    | inr (e, all) ↦ inr (e, λ j lo hi. ground (arith, all j))
  ])
]

-- The blink that is added.
abbrev pub lit : Blink → Blink
lit b = record b { status = 1; countdown = b.on_length; next = none }

abbrev pub Added : Blink → Board → List Blink → ℕ × Board → Type 0
Added b s bs (value, q) =
    ((value ≡ 0)
      × (b.location < num_blinks)
      × Shows q (lit b ∷ bs)
      × (q.vmem ≡ store s.vmem (b.location * 2) b.on_char))
    ⊎ ((value ≡ minus_one)
        × (q ≡ s)
        × ((num_blinks ≤ b.location) ⊎ ((i : ℕ) → i < num_blinks → (s.blink_array i).location ≢ 0)))

-- Adding a blink at a place other than 0 to a board that shows a list: it goes to the front of the list, on,
-- with its whole time to go, and its character is at its place in video memory; or, for a place that is not
-- on the screen or when no struct is free, -1 is returned and nothing changes.
pub mp1_ioctl_add_lem :
    (b : Blink) (s : Board) (bs : List Blink)
    → Shows s bs
    → b.location ≢ 0
    → Added b s bs (mp1_ioctl_add b s)
unfolding mp1_ioctl_add mp1_malloc add_at mp1_poke
mp1_ioctl_add_lem b s bs shows real = elim (Bool-cases (leb num_blinks b.location)) [
  | inl off ↦ rw off (inr (refl, refl, inl (ground arith)))
  | inr on ↦ rw on (elim (malloc_from_lem s.blink_array num_blinks 0) [
    | inr (e, full) ↦ rw e (inr (refl, refl, inr (λ i lt. full i (omega arith) (omega arith))))
    | inl (n, e, lt, free) ↦
        let b' : Blink = record b { status = 1; countdown = b.on_length; next = s.mp1_list_head } in
        let apart = Chain-apart s.blink_array n s.mp1_list_head shows.structs bs free shows.chain in
        let here = put_self s.blink_array n b' in
        let kept : Chain (put s.blink_array n b') s.mp1_list_head shows.structs bs =
          Chain-kept s.blink_array (put s.blink_array n b') s.mp1_list_head shows.structs bs
            (All-map (λ j ne. put_other s.blink_array n j b' ne) shows.structs apart) shows.chain in
        rw e (
          inl (
            refl,
            ground arith,
            record {
              structs = n ∷ shows.structs;
              chain = (refl, omega arith, ap seen here, real, apart, rw here kept);
            },
            refl,
          ))
  ])
]

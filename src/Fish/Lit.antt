-- ===== src/Fish/Lit.antt =====
-- Adding many blinks: the list that a board shows then.
use cheet_os.Base.{
  ℕ, zero, suc, ◌+◌, ◌<◌, ◌≤◌, ◌≡◌, ◌≢◌, refl, ◌∙◌, sym, ap, inl, inr, List, [], ◌∷◌, Option, none,
  leb, arith, All, length, false,
}
use cheet_os.Fish.Blinks.{
  Blink, Board, num_blinks, put, mp1_malloc, mp1_poke, add_at, mp1_ioctl_add,
}
use cheet_os.Fish.Chain.{
  seen, lit, Chain, Chain-kept, Chain-apart, All-map, put_self, put_other, Shows, malloc_from_lem,
}
use cheet_os.Fish.Room.{without, without-absent_or}
use cheet_os.Fish.Frames.{add_all}

-- A list shorter than `n` misses a number below `n`.
missing : (n : ℕ) (is : List ℕ) → length is < n → (j : ℕ) × (j < n) × All (λ i. j ≢ i) is
missing zero is lt = absurd (omega (arith, lt))
missing (suc n) is lt = elim (without-absent_or n is) [
  | inl absent ↦ (n, omega arith, absent)
  | inr (fewer, back) ↦
      let (j, below, apart) = missing n (without n is) (omega (arith, lt, fewer)) in
      (j, omega (arith, below), back j (λ e. absurd (omega (arith, e, below))) apart)
]

-- The board holds a list of blinks, and every struct outside of it is free.
record Exact (s : Board) (bs : List Blink) : Type 0 where
  structs : List ℕ
  chain : Chain s.blink_array s.mp1_list_head structs bs
  free : (j : ℕ) → All (λ i. j ≢ i) structs → (s.blink_array j).location ≡ 0

Chain-lengths :
    (m : ℕ → Blink) (p : Option ℕ) (is : List ℕ) (bs : List Blink)
    → Chain m p is bs
    → length is ≡ length bs
Chain-lengths m p [] [] chain = refl
Chain-lengths m p [] (b ∷ bs) chain = absurd chain
Chain-lengths m p (i ∷ is) [] chain = absurd chain
Chain-lengths m p (i ∷ is) (b ∷ bs) (at, lt, shown, real, apart, chain) =
    ap suc (Chain-lengths m (m i).next is bs chain)

-- A place on the screen that `mp1_malloc` does not take for a free struct's.
abbrev pub OnScreen : Blink → Type 0
OnScreen b = (b.location ≢ 0) × (b.location < num_blinks)

add-Exact :
    (b : Blink) (s : Board) (bs : List Blink)
    → Exact s bs
    → OnScreen b
    → length bs < num_blinks
    → Exact (mp1_ioctl_add b s).1 (lit b ∷ bs)
unfolding mp1_ioctl_add mp1_malloc add_at mp1_poke
add-Exact b s bs exact (real, lt) room =
    let on : leb num_blinks b.location ≡ false = ground arith in
    let m = s.blink_array in
    rw on (elim (malloc_from_lem m num_blinks 0) [
      | inr (e, full) ↦
          let (j, below, apart) = missing num_blinks exact.structs (
            let l = Chain-lengths m s.mp1_list_head exact.structs bs exact.chain in
            omega (arith, l, room)) in
          absurd (full j (omega arith) (omega (arith, below)) (exact.free j apart))
      | inl (n, e, below, free) ↦
          let b' : Blink = record b {
            status = 1;
            countdown = b.on_length;
            next = s.mp1_list_head;
          } in
          let apart = Chain-apart m n s.mp1_list_head exact.structs bs free exact.chain in
          let here = put_self m n b' in
          let kept : Chain (put m n b') s.mp1_list_head exact.structs bs =
            Chain-kept m (put m n b') s.mp1_list_head exact.structs bs
              (All-map (λ j ne. put_other m n j b' ne) exact.structs apart) exact.chain in
          rw e (record {
            structs = n ∷ exact.structs;
            chain = (refl, omega arith, ap seen here, real, apart, rw here kept);
            free = λ j away.
                ap (λ (x : Blink). x.location) (put_other m n j b' (λ z. away.0 (sym z)))
                ∙ exact.free j away.1;
          })
    ])

-- The list when these blinks have been added one after the other.
unfoldable pub all_lit : List Blink → List Blink → List Blink
all_lit [] old = old
all_lit (b ∷ bs) old = all_lit bs (lit b ∷ old)

add_all-Exact :
    (bs : List Blink) (s : Board) (old : List Blink)
    → Exact s old
    → All OnScreen bs
    → length bs + length old ≤ num_blinks
    → Exact (add_all bs s) (all_lit bs old)
unfolding add_all all_lit
add_all-Exact [] s old exact on room = exact
add_all-Exact (b ∷ bs) s old exact (on, more) room =
    add_all-Exact bs (mp1_ioctl_add b s).1 (lit b ∷ old)
      (add-Exact b s old exact on (omega (arith, room))) more (omega (arith, room))

-- On a board of free structs.
pub add_all-Shows :
    (bs : List Blink) (s : Board)
    → s.mp1_list_head ≡ none
    → ((j : ℕ) → (s.blink_array j).location ≡ 0)
    → All OnScreen bs
    → length bs ≤ num_blinks
    → Shows (add_all bs s) (all_lit bs [])
add_all-Shows bs s head free on room =
    let exact : Exact s [] = record { structs = []; chain = head; free = λ j away. free j } in
    let all = add_all-Exact bs s [] exact on (omega (arith, room)) in
    record { structs = all.structs; chain = all.chain }

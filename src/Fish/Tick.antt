-- ===== src/Fish/Tick.antt =====
-- A tick of the clock on the list of blinks.
use cheet_os.Base.{
  ℕ, zero, suc, ◌+◌, ◌-◌, ◌%◌, leb, ◌*◌, ◌^◌, ◌≤◌, ◌≡◌, ◌≢◌, refl, ◌∙◌, sym, ap, inl, inr, List, [],
  ◌∷◌, Option, some, ◌==◌, ltb, not, ◌&&◌, if◌then◌else◌, true, false, Bool, Bool-cases, arith, All,
  length,
}
use cheet_os.Screen.{store}
use cheet_os.Fish.Blinks.{
  Blink, Board, num_blinks, put, decremented, mp1_poke, tasklet_step, tasklet_loop, mp1_rtc_tasklet,
}
use cheet_os.Fish.Room.{Chain-length}
use cheet_os.Fish.Chain.{seen, Chain, Chain-kept, All-map, put_self, put_other, Shows}

-- The count of a blink goes on to between 1 and 32767.
abbrev pub waits : Blink → Bool
waits b = ltb 1 (b.countdown % 2 ^ 16) && leb (b.countdown % 2 ^ 16) (2 ^ 15)

-- A blink counts down; when its time is over, one that is off comes on for its on length, and one that is
-- on goes off for its off length.
unfoldable pub tick : Blink → Blink
tick b =
    if waits b
    then record b { countdown = b.countdown % 2 ^ 16 - 1 }
    else if b.status % 2 == 0
    then record b { countdown = b.on_length; status = b.status + 1 }
    else record b { countdown = b.off_length; status = b.status - 1 }

unfoldable pub ticks : List Blink → List Blink
ticks [] = []
ticks (b ∷ bs) = tick b ∷ ticks bs

-- The character of a blink that changes.
abbrev pub lit_char : Blink → ℕ
lit_char b = if b.status % 2 == 0 then b.on_char else b.off_char

-- What the changing blinks write to video memory, in the order of the list.
unfoldable pub shine : List Blink → (ℕ → ℕ) → ℕ → ℕ
shine [] v = v
shine (b ∷ bs) v = shine bs (if waits b then v else store v (b.location * 2) (lit_char b))

goes_on :
    (c : ℕ)
    → (not (decremented c == 0) && ltb (decremented c) (2 ^ 15))
      ≡ (ltb 1 (c % 2 ^ 16) && leb (c % 2 ^ 16) (2 ^ 15))
goes_on c = ground arith

tasklet_step_lem :
    (i : ℕ) (s : Board)
    → tasklet_step i s ≡ record s {
      blink_array = put s.blink_array i (tick (s.blink_array i));
      vmem =
          if waits (s.blink_array i)
          then s.vmem
          else store s.vmem ((s.blink_array i).location * 2) (lit_char (s.blink_array i));
    }
unfolding tasklet_step mp1_poke tick
tasklet_step_lem i s =
    let b = s.blink_array i in
    let same = goes_on b.countdown in
    elim (Bool-cases (waits b)) [
      | inl e ↦
          let left : decremented b.countdown ≡ b.countdown % 2 ^ 16 - 1 = ground arith in
          rw (same, e, left) refl
      | inr e ↦ elim (Bool-cases (b.status % 2 == 0)) [
        | inl even ↦
            let odd : (b.status % 2 == 1) ≡ false = ground arith in rw (same, e, even, odd) refl
        | inr odd ↦
            let one : (b.status % 2 == 1) ≡ true = ground arith in rw (same, e, odd, one) refl
      ]
    ]

-- A tick changes only the countdown and the status.
tick_lem :
    (b : Blink) → tick b ≡ record b { countdown = (tick b).countdown; status = (tick b).status }
unfolding tick
tick_lem b = elim (Bool-cases (waits b)) [
  | inl w ↦ rw w refl
  | inr w ↦ elim (Bool-cases (b.status % 2 == 0)) [
    | inl even ↦ rw (w, even) refl
    | inr odd ↦ rw (w, odd) refl
  ]
]

seen-tick : (b c : Blink) → seen b ≡ c → seen (tick b) ≡ tick c
unfolding tick
seen-tick b c e = rw (← e) (elim (Bool-cases (waits b)) [
  | inl w ↦ rw w refl
  | inr w ↦ elim (Bool-cases (b.status % 2 == 0)) [
    | inl even ↦ rw (w, even) refl
    | inr odd ↦ rw (w, odd) refl
  ]
])

tick-location : (b : Blink) → (tick b).location ≡ b.location
tick-location b = ap (λ (x : Blink). x.location) (tick_lem b)

tick-next : (b : Blink) → (tick b).next ≡ b.next
tick-next b = ap (λ (x : Blink). x.next) (tick_lem b)

-- The state after the first round, by its parts.
stepped : (i : ℕ) → Board → Board
stepped i s = record s {
  blink_array = put s.blink_array i (tick (s.blink_array i));
  vmem =
      if waits (s.blink_array i)
      then s.vmem
      else store s.vmem ((s.blink_array i).location * 2) (lit_char (s.blink_array i));
}

loop_stepped :
    (fuel i : ℕ) (s : Board)
    → tasklet_loop (suc fuel) (some i) s ≡ tasklet_loop fuel (s.blink_array i).next (stepped i s)
unfolding tasklet_loop stepped
loop_stepped fuel i s =
    ap (λ (d : Board). tasklet_loop fuel (d.blink_array i).next d) (tasklet_step_lem i s)
    ∙ ap (λ p. tasklet_loop fuel p (stepped i s))
        (ap (λ (b : Blink). b.next) (put_self s.blink_array i (tick (s.blink_array i)))
          ∙ tick-next (s.blink_array i))

first_shine :
    (i : ℕ) (s : Board) (b : Blink)
    → seen (s.blink_array i) ≡ b
    → (stepped i s).vmem ≡ (if waits b then s.vmem else store s.vmem (b.location * 2) (lit_char b))
unfolding stepped
first_shine i s b shown = rw (← shown) refl

-- What a walk over a list leaves.
record Ticked (s : Board) (p : Option ℕ) (is : List ℕ) (bs : List Blink) (q : Board) : Type 0 where
  chain : Chain q.blink_array p is (ticks bs)
  head : q.mp1_list_head ≡ s.mp1_list_head
  vmem : q.vmem ≡ shine bs s.vmem
  others : (j : ℕ) → All (λ i. j ≢ i) is → q.blink_array j ≡ s.blink_array j

tasklet_loop_lem :
    (fuel : ℕ) (p : Option ℕ) (s : Board) (is : List ℕ) (bs : List Blink)
    → Chain s.blink_array p is bs
    → length is ≤ fuel
    → (q : Board) × (tasklet_loop fuel p s ≡ some q) × Ticked s p is bs q
unfolding tasklet_loop ticks shine stepped
tasklet_loop_lem fuel p s [] [] chain enough =
    rw chain (s, refl, record { chain = refl; head = refl; vmem = refl; others = λ j away. refl })
tasklet_loop_lem fuel p s [] (b ∷ bs) chain enough = absurd chain
tasklet_loop_lem fuel p s (i ∷ is) [] chain enough = absurd chain
tasklet_loop_lem zero p s (i ∷ is) (b ∷ bs) chain enough = absurd (omega arith)
tasklet_loop_lem (suc fuel) p s (i ∷ is) (b ∷ bs) (at, lt, shown, real, apart, chain) enough =
    let m = s.blink_array in
    let after : Chain (stepped i s).blink_array (m i).next is bs =
      Chain-kept m (stepped i s).blink_array (m i).next is bs
        (All-map (λ j ne. put_other m i j (tick (m i)) ne) is apart) chain in
    let (q, ran, ticked) =
      tasklet_loop_lem fuel (m i).next (stepped i s) is bs after (omega arith) in
    let stays : q.blink_array i ≡ tick (m i) = ticked.others i apart ∙ put_self m i (tick (m i)) in
    (
      q,
      rw at (loop_stepped fuel i s ∙ ran),
      record {
        chain = (
          at,
          lt,
          ap seen stays ∙ seen-tick (m i) b shown,
          (λ e. real (sym (tick-location b) ∙ e)),
          apart,
          rw (ap (λ (x : Blink). x.next) stays ∙ tick-next (m i)) ticked.chain,
        );
        head = ticked.head;
        vmem = ticked.vmem ∙ ap (shine bs) (first_shine i s b shown);
        others =
            λ j away. ticked.others j away.1 ∙ put_other m i j (tick (m i)) (λ e. away.0 (sym e));
      },
    )

-- A tick of the clock on a board that shows a list of blinks comes to an end, and the board shows the list
-- in which each blink has counted down by 1, or, where that does not leave from 1 to 32767, has changed
-- between on and off and starts the length of the state that it is in now; video memory has the characters
-- of those that changed, the one for on where a blink came on and the one for off where it went off.
pub mp1_rtc_tasklet_lem :
    (s : Board) (bs : List Blink)
    → Shows s bs
    → (q : Board) × (mp1_rtc_tasklet s ≡ some q) × Shows q (ticks bs) × (q.vmem ≡ shine bs s.vmem)
unfolding mp1_rtc_tasklet
mp1_rtc_tasklet_lem s bs shows =
    let (q, ran, ticked) =
      tasklet_loop_lem num_blinks s.mp1_list_head s shows.structs bs shows.chain
        (Chain-length s.blink_array s.mp1_list_head shows.structs bs shows.chain) in
    (q, ran, record { structs = shows.structs; chain = rw ticked.head ticked.chain }, ticked.vmem)

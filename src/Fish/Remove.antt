-- ===== src/Fish/Remove.antt =====
-- Taking a blink out of the list.
use cheet_os.Base.{
  ℕ, zero, suc, ◌+◌, ◌%◌, ◌^◌, ◌<◌, ◌≤◌, ◌≡◌, ◌≢◌, refl, ◌∙◌, sym, ap, ◌⊎◌, inl, inr, List, [], ◌∷◌,
  Option, none, some, ◌==◌, if◌then◌else◌, Bool-cases, arith, All, length, true, false, minus_one,
}
use cheet_os.Fish.Blinks.{
  Blink, Board, num_blinks, cleared, put, find_loop, mp1_find_helper, load, set_link, unlink_from,
  remove_at, mp1_free, mp1_ioctl_remove,
}
use cheet_os.Fish.Room.{Chain-length}
use cheet_os.Fish.Chain.{seen, Chain, Chain-kept, All-map, put_self, put_other, Shows}

-- The list without the first blink at a place, and whether there is one.
unfoldable pub removed : (location : ℕ) → List Blink → List Blink
removed location [] = []
removed location (b ∷ bs) =
    let rest = removed location bs in if b.location == location then bs else b ∷ rest

-- The struct `t` has the first blink at a place.
abbrev Hit : (location t : ℕ) → List ℕ → List Blink → Type 0
Hit location t (i ∷ is) (b ∷ bs) =
    ((b.location ≡ location) × (t ≡ i)) ⊎ ((b.location ≢ location) × Hit location t is bs)
Hit location t _ _ = ⊥

Hit-All :
    (P : ℕ → Type 0) (location t : ℕ) (is : List ℕ) (bs : List Blink)
    → Hit location t is bs
    → All P is
    → P t
Hit-All P location t [] bs hit all = absurd hit
Hit-All P location t (i ∷ is) [] hit all = absurd hit
Hit-All P location t (i ∷ is) (b ∷ bs) (inl (at, e)) (p, all) = rw e p
Hit-All P location t (i ∷ is) (b ∷ bs) (inr (ne, hit)) (p, all) = Hit-All P location t is bs hit all

find_loop_lem :
    (fuel location : ℕ) (m : ℕ → Blink) (p : Option ℕ) (is : List ℕ) (bs : List Blink)
    → Chain m p is bs
    → length is ≤ fuel
    → ((find_loop fuel location p m ≡ some none) × All (λ b. b.location ≢ location) bs)
      ⊎ ((t : ℕ) × (find_loop fuel location p m ≡ some (some t)) × Hit location t is bs)
unfolding find_loop
find_loop_lem fuel location m p [] [] chain enough = rw chain (inl (refl, tt))
find_loop_lem fuel location m p [] (b ∷ bs) chain enough = absurd chain
find_loop_lem fuel location m p (i ∷ is) [] chain enough = absurd chain
find_loop_lem zero location m p (i ∷ is) (b ∷ bs) chain enough = absurd (omega arith)
find_loop_lem (suc fuel) location m p (i ∷ is) (b ∷ bs) (at, lt, shown, real, apart, chain) enough =
    let place : (m i).location ≡ b.location = ap (λ (x : Blink). x.location) shown in
    rw at (elim (Bool-cases (b.location == location)) [
      | inl e ↦ rw (place, e) (inr (i, refl, inl (ground arith, refl)))
      | inr e ↦
          let ne : b.location ≢ location = ground arith in
          rw (place, e)
            (elim (find_loop_lem fuel location m (m i).next is bs chain (omega arith)) [
              | inl (missing, all) ↦ inl (missing, (ne, all))
              | inr (t, found, hit) ↦ inr (t, found, inr (ne, hit))
            ])
    ])

-- The link to be followed is in none of these structs.
abbrev Aside : Option ℕ → List ℕ → Type 0
Aside none is = Unit
Aside (some j) is = All (λ i. j ≢ i) is

-- What the removal of `t` behind the link `c` leaves.
record Unlinked (location t : ℕ) (c : Option ℕ) (s : Board) (is : List ℕ) (bs : List Blink)
    (q : Board) : Type 0 where
  structs : List ℕ
  chain : Chain q.blink_array (load c q) structs (removed location bs)
  gone : All (λ i. t ≢ i) structs
  fewer : (j : ℕ) → All (λ i. j ≢ i) is → All (λ i. j ≢ i) structs
  vmem : q.vmem ≡ s.vmem
  values : (j : ℕ) → seen (q.blink_array j) ≡ seen (s.blink_array j)
  others : (j : ℕ) → c ≢ some j → All (λ i. j ≢ i) is → q.blink_array j ≡ s.blink_array j
  head : (j : ℕ) → c ≡ some j → q.mp1_list_head ≡ s.mp1_list_head

load-set_link : (c p : Option ℕ) (s : Board) → load c (set_link c p s) ≡ p
unfolding load set_link
load-set_link none p s = refl
load-set_link (some j) p s =
    ap (λ (b : Blink). b.next) (put_self s.blink_array j (record (s.blink_array j) { next = p }))

unlink_here :
    (fuel t : ℕ) (c : Option ℕ) (s : Board)
    → load c s ≡ some t
    → unlink_from (suc fuel) t c s ≡ some (set_link c (s.blink_array t).next s)
unfolding unlink_from
unlink_here fuel t c s at =
    let here : (t == t) ≡ true = ground arith in rw (at, unlink_from) (rw here refl)

unlink_later :
    (fuel t i : ℕ) (c : Option ℕ) (s : Board)
    → load c s ≡ some i
    → i ≢ t
    → unlink_from (suc fuel) t c s ≡ unlink_from fuel t (some i) s
unfolding unlink_from
unlink_later fuel t i c s at ne =
    let other : (i == t) ≡ false = ground arith in rw (at, unlink_from) (rw other refl)

set_link-Unlinked :
    (location i : ℕ) (c : Option ℕ) (s : Board) (is : List ℕ) (b : Blink) (bs : List Blink)
    → b.location ≡ location
    → Aside c (i ∷ is)
    → All (λ j. i ≢ j) is
    → Chain s.blink_array (s.blink_array i).next is bs
    → Unlinked location i c s (i ∷ is) (b ∷ bs) (set_link c (s.blink_array i).next s)
unfolding removed set_link
set_link-Unlinked location i none s is b bs at aside apart chain =
    let e : (b.location == location) ≡ true = ground arith in
    record {
      structs = is;
      chain = rw (e, load-set_link none (s.blink_array i).next s) chain;
      gone = apart;
      fewer = λ j away. away.1;
      vmem = refl;
      values = λ j. refl;
      others = λ j ne away. refl;
      head = λ j e. cc;
    }
set_link-Unlinked location i (some c) s is b bs at aside apart chain =
    let e : (b.location == location) ≡ true = ground arith in
    let m = s.blink_array in
    let linked : Blink = record (m c) { next = (m i).next } in
    record {
      structs = is;
      chain =
          rw (e, load-set_link (some c) (m i).next s)
            (Chain-kept m (put m c linked) (m i).next is bs
              (All-map (λ j ne. put_other m c j linked ne) is aside.1) chain);
      gone = apart;
      fewer = λ j away. away.1;
      vmem = refl;
      values = λ j. elim (Bool-cases (c == j)) [
        | inl same ↦ let here : c ≡ j = ground arith in rw (← here) (ap seen (put_self m c linked))
        | inr other ↦ ap seen (put_other m c j linked (ground arith))
      ];
      others = λ j ne away. put_other m c j linked (λ e. ne (ap some e));
      head = λ j e. refl;
    }

-- The link before is as it was when the removal is further on.
load_kept :
    (location t i : ℕ) (c : Option ℕ) (s : Board) (is : List ℕ) (bs : List Blink) (q : Board)
    → load c s ≡ some i
    → Aside c (i ∷ is)
    → Unlinked location t (some i) s is bs q
    → load c q ≡ some i
unfolding load
load_kept location t i none s is bs q at aside rest = rest.head i refl ∙ at
load_kept location t i (some j) s is bs q at aside rest =
    ap (λ (b : Blink). b.next) (rest.others j (λ e. aside.0 (some-injective e)) aside.1) ∙ at
  where
    some-injective : {a b : ℕ} → some b ≡ some a → a ≡ b
    some-injective e = cc

later :
    (location t i : ℕ) (c : Option ℕ) (s : Board) (is : List ℕ) (b : Blink) (bs : List Blink)
    (q : Board)
    → load c s ≡ some i
    → i < num_blinks
    → seen (s.blink_array i) ≡ b
    → b.location ≢ 0
    → All (λ j. i ≢ j) is
    → Aside c (i ∷ is)
    → b.location ≢ location
    → i ≢ t
    → Unlinked location t (some i) s is bs q
    → Unlinked location t c s (i ∷ is) (b ∷ bs) q
unfolding removed
later location t i c s is b bs q at lt shown real apart aside ne differ rest =
    let no : (b.location == location) ≡ false = ground arith in
    record {
      structs = i ∷ rest.structs;
      chain = rw no (
        load_kept location t i c s is bs q at aside rest,
        lt,
        rest.values i ∙ shown,
        real,
        rest.fewer i apart,
        unfold load in rest.chain,
      );
      gone = ((λ e. differ (sym e)), rest.gone);
      fewer = λ j away. (away.0, rest.fewer j away.1);
      vmem = rest.vmem;
      values = rest.values;
      others = λ j apart_c away. rest.others j (λ e. away.0 (cc)) away.1;
      head = λ j e. rest.head i refl;
    }

unlink_from-Unlinked :
    (fuel location t : ℕ) (c : Option ℕ) (s : Board) (is : List ℕ) (bs : List Blink)
    → Chain s.blink_array (load c s) is bs
    → Aside c is
    → length is < fuel
    → Hit location t is bs
    → (q : Board) × (unlink_from fuel t c s ≡ some q) × Unlinked location t c s is bs q
unfolding unlink_from
unlink_from-Unlinked fuel location t c s [] bs chain aside enough hit = absurd hit
unlink_from-Unlinked fuel location t c s (i ∷ is) [] chain aside enough hit = absurd hit
unlink_from-Unlinked zero location t c s (i ∷ is) (b ∷ bs) chain aside enough hit =
    absurd (omega arith)
unlink_from-Unlinked (suc fuel) location t c s (i ∷ is) (b ∷ bs) (at, lt, shown, real, apart, chain)
      aside enough (inl (place, e)) =
    rw e (
      set_link c (s.blink_array i).next s,
      unlink_here fuel i c s at,
      set_link-Unlinked location i c s is b bs place aside apart chain,
    )
unlink_from-Unlinked (suc fuel) location t c s (i ∷ is) (b ∷ bs) (at, lt, shown, real, apart, chain)
      aside enough (inr (ne, hit)) =
    let differ : i ≢ t = Hit-All (λ j. i ≢ j) location t is bs hit apart in
    let (q, ran, rest) =
      unlink_from-Unlinked fuel location t (some i) s is bs (unfold load in chain) apart
        (omega arith) hit in
    (
      q,
      unlink_later fuel t i c s at differ ∙ ran,
      later location t i c s is b bs q at lt shown real apart aside ne differ rest,
    )

-- The struct that is out of the list is cleared.
free-Shows :
    (location t : ℕ) (s : Board) (is : List ℕ) (bs : List Blink) (q : Board)
    → Unlinked location t none s is bs q
    → Shows (mp1_free t q) (removed location bs)
unfolding mp1_free
free-Shows location t s is bs q rest = record {
  structs = rest.structs;
  chain =
      Chain-kept q.blink_array (put q.blink_array t cleared) q.mp1_list_head rest.structs
        (removed location bs)
        (All-map (λ j ne. put_other q.blink_array t j cleared ne) rest.structs rest.gone)
        (unfold load in rest.chain);
}

removed_none :
    (location : ℕ) (bs : List Blink)
    → All (λ b. b.location ≢ location) bs
    → removed location bs ≡ bs
unfolding removed
removed_none location [] all = refl
removed_none location (b ∷ bs) (ne, all) =
    let other : (b.location == location) ≡ false = ground arith in
    rw other (ap (λ l. b ∷ l) (removed_none location bs all))

removed_less :
    (location t : ℕ) (is : List ℕ) (bs : List Blink)
    → Hit location t is bs
    → length (removed location bs) < length bs
unfolding removed
removed_less location t [] bs hit = absurd hit
removed_less location t (i ∷ is) [] hit = absurd hit
removed_less location t (i ∷ is) (b ∷ bs) hit = elim (Bool-cases (b.location == location)) [
  | inl e ↦ rw e (omega arith)
  | inr e ↦ rw e (elim hit [
    | inl (at, _) ↦ absurd (ground arith)
    | inr (ne, further) ↦ let less = removed_less location t is bs further in omega (arith, less)
  ])
]

-- Removing at a place, on a board that shows a list of blinks, comes to an end. If a blink of the list is
-- at the place, the first such is taken out and 0 is returned; otherwise -1 is, and nothing changes. Video
-- memory stays as it is.
pub mp1_ioctl_remove_lem :
    (location : ℕ) (s : Board) (bs : List Blink)
    → location < 2 ^ 16
    → Shows s bs
    → (q : Board) × (v : ℕ) × (mp1_ioctl_remove location s ≡ some (v, q))
      × Shows q (removed location bs)
      × (q.vmem ≡ s.vmem)
      × (((v ≡ 0) × (length (removed location bs) < length bs))
          ⊎ ((v ≡ minus_one) × (q ≡ s) × All (λ b. b.location ≢ location) bs))
unfolding mp1_ioctl_remove mp1_find_helper remove_at
mp1_ioctl_remove_lem location s bs word shows =
    let is = shows.structs in
    let few = Chain-length s.blink_array s.mp1_list_head is bs shows.chain in
    let whole : location % 2 ^ 16 ≡ location = omega arith in
    rw (whole, mp1_ioctl_remove)
      (elim (find_loop_lem num_blinks location s.blink_array s.mp1_list_head is bs shows.chain
        few) [
          | inl (missing, all) ↦
              rw (missing, mp1_ioctl_remove)
                (
                  s,
                  minus_one,
                  refl,
                  rw (removed_none location bs all) shows,
                  refl,
                  inr (refl, refl, all),
                )
          | inr (t, found, hit) ↦
              let (q, ran, rest) =
                unlink_from-Unlinked (num_blinks + 1) location t none s is bs
                  (unfold load in shows.chain) tt (omega arith) hit in
              rw (found, mp1_ioctl_remove)
                (rw (ran, remove_at)
                  (
                    mp1_free t q,
                    0,
                    refl,
                    free-Shows location t s is bs q rest,
                    unfold mp1_free in rest.vmem,
                    inl (refl, removed_less location t is bs hit),
                  ))
        ])

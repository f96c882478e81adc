-- ===== src/Tasks/Slots.antt =====
-- The process slots, and where the control blocks and the kernel stacks stand.
use cheet_os.Base.{
  ℕ, zero, suc, ◌+◌, ◌-◌, ◌<◌, ◌≤◌, ◌≡◌, refl, ◌≢◌, ◌⊎◌, inl, inr, ap, sym, List, [], ◌∷◌, ◌==◌,
  Bool-cases, ==_iff, get_or, set, minus_one, arith,
}
use native.Mathlib.Decide.{ℕ_discrete}
use cheet_os.Tasks.{
  next_from, get_next_process_number, num_max_processes, pcb_address, stack_top, current_pcb,
}

-- A free slot below `bound`, the first one, marked as taken; or none, with nothing changed.
abbrev pub Slot : (bound : ℕ) → List ℕ → ℕ × List ℕ → Type 0
Slot bound pids (n, after) =
    ((n < bound)
      × (get_or pids n 0 ≡ 0)
      × ((i : ℕ) → i < n → get_or pids i 0 ≢ 0)
      × (after ≡ set pids n 1))
    ⊎ ((n ≡ minus_one) × (after ≡ pids) × ((i : ℕ) → i < bound → get_or pids i 0 ≢ 0))

next_from-Slot :
    (pids : List ℕ) (todo i : ℕ)
    → ((j : ℕ) → j < i → get_or pids j 0 ≢ 0)
    → Slot (i + todo) pids (next_from pids todo i)
unfolding next_from
next_from-Slot pids zero i busy = inr (refl, refl, λ j lt. busy j (omega arith))
next_from-Slot pids (suc todo) i busy = elim (Bool-cases (get_or pids i 0 == 0)) [
  | inl free ↦ rw free (inl (omega arith, (==_iff _ _).0 free, busy, refl))
  | inr taken ↦
      let rest = next_from-Slot pids todo (i + 1) (λ j lt. elim (ℕ_discrete j i) [
        | yes e ↦ rw e (ground arith)
        | no ne ↦ busy j (omega arith)
      ]) in
      rw taken (elim rest [
        | inl (lt, free, first, set_it) ↦ inl (omega arith, free, first, set_it)
        | inr (no_slot, same, all) ↦ inr (no_slot, same, λ j lt. all j (omega arith))
      ])
]

-- `get_next_process_number` returns the first of the six slots that is free and marks it as taken; if
-- none is free it returns -1 and changes nothing.
pub get_next_process_number_lem :
    (pids : List ℕ) → Slot num_max_processes pids (get_next_process_number pids)
unfolding get_next_process_number
get_next_process_number_lem pids = next_from-Slot pids 6 0 (λ j lt. absurd (omega arith))

-- For a process below 6, every address of its kernel stack of 8 KB, from the top down to the
-- control block, leads to the control block that `execute` fills and `halt` reads, and two processes
-- have different ones.
pub current_pcb-stack :
    (n m depth : ℕ)
    → n < 6
    → m < 6
    → n ≢ m
    → depth ≤ 0x1FFC
    → (current_pcb (stack_top n - depth) ≡ pcb_address n) × (pcb_address n ≢ pcb_address m)
unfolding current_pcb stack_top pcb_address
current_pcb-stack n m depth hn hm ne h = (omega arith, omega arith)

-- Taking a free slot twice and giving it back.
pub set_back :
    (pids : List ℕ) (n : ℕ) → get_or pids n 0 ≡ 0 → set (set (set pids n 1) n 1) n 0 ≡ pids
set_back [] n h = refl
set_back (x ∷ xs) zero h = ap (λ y. y ∷ xs) (sym h)
set_back (x ∷ xs) (suc n) h = ap (λ ys. x ∷ ys) (set_back xs n h)

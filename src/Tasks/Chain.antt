-- ===== src/Tasks/Chain.antt =====
-- The chain of control blocks from a process to the calls of `execute` that have not returned, and
-- what a further `execute` does to it.
use cheet_os.Base.{
  ℕ, ◌<◌, ltb, ◌≡◌, refl, ◌≢◌, ◌∙◌, ap, sym, inl, inr, List, [], ◌∷◌, true, false, some, ◌==◌,
  Bool-cases, get_or, set, length, arith, get_or-set_ne, get_or-set_self, length-set,
}
use cheet_os.Files.Table.{IsTable, init_file_array-IsTable}
use cheet_os.Tasks.{
  Kernel, Pcb, Frame, Ending, refused, enters, waits, overruns, program_room, num_max_processes,
  pcb_address, filled, launch, start, execute,
}
use cheet_os.Tasks.Cases.{execute-cases, taking}

-- What a control block keeps of the `execute` that made it: the caller's number and its frame.
abbrev pub link : Pcb → ℕ × ℕ × ℕ × ℕ
link b = (b.parent_num, b.parent_esp, b.parent_ebp, b.exec_ret_addr)

abbrev pub caller : (parent : ℕ) → Frame → ℕ × ℕ × ℕ × ℕ
caller parent f = (parent, f.esp, f.ebp, f.end_of_execute)

-- What holds of each process whose call has not returned.
abbrev pub Each : (ℕ → Type 0) → (current : ℕ) → List (ℕ × Frame) → Type 0
Each holds c [] = Unit
Each holds c ((p, f) ∷ calls) = holds c × Each holds p calls

-- The chain of control blocks from the current process on: each has a slot of its own and leads to the
-- call that made it.
abbrev pub Chain : Kernel → (current : ℕ) → List (ℕ × Frame) → Type 0
Chain k c [] = Unit
Chain k c ((p, f) ∷ calls) =
    (c < num_max_processes)
    × (get_or k.pid_array c 0 ≢ 0)
    × (link (k.pcb (pcb_address c)) ≡ caller p f)
    × Each (λ i. c ≢ i) p calls
    × Chain k p calls

-- What an ending leaves of the slots and the links.
abbrev pub Kept : (k q : Kernel) → Type 0
Kept k q =
    (length q.pid_array ≡ num_max_processes)
    × ((i : ℕ) → get_or k.pid_array i 0 ≢ 0 → get_or q.pid_array i 0 ≢ 0)

pub record Spawns (frame : Frame) (k q : Kernel) : Type 0 where
  pub kept : Kept k q
  pub lt : q.curr_process < num_max_processes
  pub free : get_or k.pid_array q.curr_process 0 ≡ 0
  pub slot : get_or q.pid_array q.curr_process 0 ≢ 0
  pub linked : link (q.pcb (pcb_address q.curr_process)) ≡ caller k.curr_process frame
  pub table : IsTable (q.pcb (pcb_address q.curr_process)).file_array
  pub others : (a : ℕ) → a ≢ pcb_address q.curr_process → q.pcb a ≡ k.pcb a

abbrev pub After : Frame → Kernel → Ending → Type 0
After frame k (refused v q) = Kept k q × (q.curr_process ≡ k.curr_process) × (q.pcb ≡ k.pcb)
After frame k (enters e s q) = Spawns frame k q
After frame k waits = ⊥
After frame k overruns = Unit

slot_taken : (pids : List ℕ) (n : ℕ) → n < length pids → get_or (set pids n 1) n 0 ≢ 0
slot_taken pids n lt e = absurd (omega (arith, e, get_or-set_self pids n 1 0 lt))

slots_kept :
    (pids : List ℕ) (n i : ℕ)
    → n < length pids
    → get_or pids i 0 ≢ 0
    → get_or (set pids n 1) i 0 ≢ 0
slots_kept pids n i lt h = elim (Bool-cases (i == n)) [
  | inl same ↦ let e : i ≡ n = ground arith in rw e (slot_taken pids n lt)
  | inr other ↦ let ne : n ≢ i = ground arith in rw (get_or-set_ne pids n i 1 0 ne) h
]

module _ (frame : Frame) (k : Kernel) (size : length k.pid_array ≡ num_max_processes) where
  start-After :
      (args : List ℕ) (n size : ℕ) (read : ℕ) (bytes : List ℕ)
      → n < num_max_processes
      → get_or k.pid_array n 0 ≡ 0
      → (program_room < length bytes → After frame k overruns)
      → After frame k (start frame args n size (taking k n) (some (read, bytes)))
  unfolding start launch filled
  start-After args n todo read bytes lt free over =
      elim (Bool-cases (ltb program_room (length bytes))) [
        | inl e ↦ rw e tt
        | inr room ↦ rw room (elim (Bool-cases (read == todo)) [
          | inr other ↦ rw other (
            (
              length-set k.pid_array n 1 ∙ size,
              λ i h. slots_kept k.pid_array n i (omega (arith, size)) h,
            ),
            refl,
            refl,
          )
          | inl all ↦
              let here : (pcb_address n == pcb_address n) ≡ true = ground arith in
              let grown : length (set k.pid_array n 1) ≡ num_max_processes =
                length-set k.pid_array n 1 ∙ size in
              rw all (record {
                kept = (
                  length-set (set k.pid_array n 1) n 1 ∙ grown,
                  λ i h.
                      slots_kept (set k.pid_array n 1) n i (omega (arith, grown))
                        (slots_kept k.pid_array n i (omega (arith, size)) h),
                );
                lt = lt;
                free = free;
                slot = slot_taken (set k.pid_array n 1) n (omega (arith, grown));
                linked = rw here refl;
                table = rw here (init_file_array-IsTable (k.pcb (pcb_address n)).file_array);
                others =
                    λ a ne. let away : (a == pcb_address n) ≡ false = ground arith in rw away refl;
              })
        ])
      ]

  pub execute-After : (command : List ℕ) → After frame k (execute frame command k)
  execute-After command =
      execute-cases frame k (After frame k) (λ v. ((size, λ i h. h), refl, refl))
        ((size, λ i h. h), refl, refl) start-After command (λ o. tt)

pub Each-all :
    (holds : ℕ → Type 0) (c : ℕ) (calls : List (ℕ × Frame))
    → ((i : ℕ) → holds i)
    → Each holds c calls
Each-all holds c [] all = tt
Each-all holds c ((p, f) ∷ calls) all = (all c, Each-all holds p calls all)

-- A free number is none of a chain's.
pub Chain-apart :
    (k : Kernel) (n c : ℕ) (calls : List (ℕ × Frame))
    → get_or k.pid_array n 0 ≡ 0
    → Chain k c calls
    → Each (λ i. n ≢ i) c calls
Chain-apart k n c [] free chain = tt
Chain-apart k n c ((p, f) ∷ calls) free chain =
    let busy : get_or k.pid_array c 0 ≢ 0 = chain.1 in
    (
      (λ e. busy (ap (λ i. get_or k.pid_array i 0) (sym e) ∙ free)),
      Chain-apart k n p calls free chain.4,
    )

-- A chain stays one when the slots and the links of its processes do.
pub Chain-kept :
    (k q : Kernel) (holds : ℕ → Type 0) (c : ℕ) (calls : List (ℕ × Frame))
    → ((i : ℕ) → holds i → get_or k.pid_array i 0 ≢ 0 → get_or q.pid_array i 0 ≢ 0)
    → ((i : ℕ)
        → i < num_max_processes
        → holds i
        → link (q.pcb (pcb_address i)) ≡ link (k.pcb (pcb_address i)))
    → Each holds c calls
    → Chain k c calls
    → Chain q c calls
Chain-kept k q holds c [] slots links each chain = tt
Chain-kept k q holds c ((p, f) ∷ calls) slots links each chain = (
  chain.0,
  slots c each.0 chain.1,
  links c chain.0 each.0 ∙ chain.2,
  chain.3,
  Chain-kept k q holds p calls slots links each.1 chain.4,
)

-- What follows, for each process of a chain, from two facts about it.
pub Each-map :
    (k : Kernel) (first second third : ℕ → Type 0) (c : ℕ) (calls : List (ℕ × Frame))
    → ((i : ℕ) → i < num_max_processes → first i → second i → third i)
    → Chain k c calls
    → Each first c calls
    → Each second c calls
    → Each third c calls
Each-map k first second third c [] f chain a b = tt
Each-map k first second third c ((p, frame) ∷ calls) f chain a b =
    (f c chain.0 a.0 b.0, Each-map k first second third p calls f chain.4 a.1 b.1)

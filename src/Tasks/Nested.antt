-- ===== src/Tasks/Nested.antt =====
-- Runs of many processes: programs are executed and halt, nested in one another.
use cheet_os.Base.{
  ℕ, ◌<◌, ◌≡◌, refl, ◌≢◌, ◌∙◌, ap, List, [], ◌∷◌, get_or, length, arith, get_or-set_ne,
  get_or-set_self, length-set, subst,
}
use cheet_os.Tasks.{
  Kernel, Frame, refused, enters, num_max_processes, pcb_address, stack_top, execute, halt, Return,
}
use cheet_os.Tasks.Chain.{
  link, Each-all, Chain, Chain-apart, Chain-kept, Kept, Spawns, After, execute-After,
}

-- The states that are reached from a first one, with the calls of `execute` that have not returned, the
-- last one first. Between `execute` and `halt` a program works: that changes neither the slots nor the
-- current process nor any link.
pub data Reached (first : Kernel) : Kernel → List (ℕ × Frame) → Type 0 where
  begins : Reached first first []
  works :
      {k q : Kernel} {calls : List (ℕ × Frame)}
      → Reached first k calls
      → q.curr_process ≡ k.curr_process
      → q.pid_array ≡ k.pid_array
      → ((a : ℕ) → link (q.pcb a) ≡ link (k.pcb a))
      → Reached first q calls
  executes :
      {k q : Kernel} {calls : List (ℕ × Frame)} {e s : ℕ}
      → Reached first k calls
      → (frame : Frame) (command : List ℕ) → execute frame command k ≡ enters e s q
      → Reached first q ((k.curr_process, frame) ∷ calls)
  refuses :
      {k q : Kernel} {calls : List (ℕ × Frame)} {v : ℕ}
      → Reached first k calls
      → (frame : Frame) (command : List ℕ) → execute frame command k ≡ refused v q
      → Reached first q calls
  halts :
      {k : Kernel} {parent : ℕ} {frame : Frame} {calls : List (ℕ × Frame)}
      → Reached first k ((parent, frame) ∷ calls)
      → (status : ℕ) → Reached first (halt status k).1 calls

-- What every reached state keeps.
pub record Sound (k : Kernel) (calls : List (ℕ × Frame)) : Type 0 where
  pub size : length k.pid_array ≡ num_max_processes
  pub chain : Chain k k.curr_process calls

pub executes-Sound :
    {k q : Kernel} {calls : List (ℕ × Frame)} (frame : Frame)
    → Sound k calls
    → Spawns frame k q
    → Sound q ((k.curr_process, frame) ∷ calls)
unfolding pcb_address
executes-Sound {k} {q} {calls} frame sound made =
    let apart = Chain-apart k q.curr_process k.curr_process calls made.free sound.chain in
    record {
      size = made.kept.0;
      chain = (
        made.lt,
        made.slot,
        made.linked,
        apart,
        Chain-kept k q (λ i. q.curr_process ≢ i) k.curr_process calls
            (λ i away busy. made.kept.1 i busy)
            (λ i lt away. ap link (
              made.others (pcb_address i) (λ e. away (let l = made.lt in omega (arith, e, l, lt)))))
            apart sound.chain,
      );
    }

pub refuses-Sound :
    {k q : Kernel} {calls : List (ℕ × Frame)}
    → Sound k calls
    → Kept k q × (q.curr_process ≡ k.curr_process) × (q.pcb ≡ k.pcb)
    → Sound q calls
refuses-Sound {k} {q} {calls} sound (kept, process, blocks) = record {
  size = kept.0;
  chain = rw process (
      Chain-kept k q (λ i. Unit) k.curr_process calls (λ i each. kept.1 i)
        (λ i lt each. ap link (ap (λ b. b (pcb_address i)) blocks))
        (Each-all (λ i. Unit) k.curr_process calls (λ i. tt)) sound.chain);
}

pub works-Sound :
    {k q : Kernel} {calls : List (ℕ × Frame)}
    → Sound k calls
    → q.curr_process ≡ k.curr_process
    → q.pid_array ≡ k.pid_array
    → ((a : ℕ) → link (q.pcb a) ≡ link (k.pcb a))
    → Sound q calls
works-Sound {k} {q} {calls} sound process slots links = record {
  size = ap (λ pids. length pids) slots ∙ sound.size;
  chain = rw process (
      Chain-kept k q (λ i. Unit) k.curr_process calls (λ i each busy. rw slots busy)
        (λ i lt each. links (pcb_address i)) (Each-all (λ i. Unit) k.curr_process calls (λ i. tt))
        sound.chain);
}

pub halts-Sound :
    {k : Kernel} {p : ℕ} {f : Frame} {calls : List (ℕ × Frame)} (status : ℕ)
    → Sound k ((p, f) ∷ calls)
    → Sound (halt status k).1 calls
unfolding halt
halts-Sound {k} {p} {f} {calls} status sound =
    let q = (halt status k).1 in
    let parent : (k.pcb (pcb_address k.curr_process)).parent_num ≡ p =
      ap (λ (l : ℕ × ℕ × ℕ × ℕ). l.0) sound.chain.2 in
    record {
      size = length-set k.pid_array k.curr_process 0 ∙ sound.size;
      chain = rw parent (
          Chain-kept k q (λ i. k.curr_process ≢ i) p calls
            (λ i away busy. rw (get_or-set_ne k.pid_array k.curr_process i 0 0 away) busy)
            (λ i lt away. refl) sound.chain.3 sound.chain.4);
    }

Reached-Sound :
    {first k : Kernel} {calls : List (ℕ × Frame)}
    → length first.pid_array ≡ num_max_processes
    → Reached first k calls
    → Sound k calls
Reached-Sound size begins = record { size = size; chain = tt }
Reached-Sound size (works run process slots links) =
    works-Sound (Reached-Sound size run) process slots links
Reached-Sound size (executes {k} run frame command entered) =
    let sound = Reached-Sound size run in
    executes-Sound frame sound
      (subst (After frame k) entered (execute-After frame k sound.size command))
Reached-Sound size (refuses {k} run frame command refused_) =
    let sound = Reached-Sound size run in
    refuses-Sound sound (subst (After frame k) refused_ (execute-After frame k sound.size command))
Reached-Sound size (halts run status) = halts-Sound status (Reached-Sound size run)

-- What a `halt` gives back to the call that made the process, and what it leaves.
abbrev pub Returns : (parent : ℕ) → Frame → (status : ℕ) → (k : Kernel) → Return × Kernel → Type 0
Returns parent frame status k (r, q) =
    (r ≡ record {
      exec_ret_addr = frame.end_of_execute;
      parent_ebp = frame.ebp;
      parent_esp = frame.esp;
      status = status;
    })
    × (q.curr_process ≡ parent)
    × (q.esp0 ≡ stack_top parent)
    × (get_or q.pid_array k.curr_process 0 ≡ 0)

pub halts-Returns :
    {k : Kernel} {parent : ℕ} {frame : Frame} {calls : List (ℕ × Frame)} (status : ℕ)
    → Sound k ((parent, frame) ∷ calls)
    → Returns parent frame status k (halt status k)
unfolding halt
halts-Returns {k} {parent} {frame} status sound =
    let linked = sound.chain.2 in
    let here : k.curr_process < length k.pid_array = omega (arith, sound.chain.0, sound.size) in
    (
      ap
          (λ (l : ℕ × ℕ × ℕ × ℕ). record {
            exec_ret_addr = l.3;
            parent_ebp = l.2;
            parent_esp = l.1;
            status = status;
          })
          linked,
      ap (λ (l : ℕ × ℕ × ℕ × ℕ). l.0) linked,
      ap (λ (l : ℕ × ℕ × ℕ × ℕ). stack_top l.0) linked,
      get_or-set_self k.pid_array k.curr_process 0 0 here,
    )

-- In whatever order programs are executed, refused and halt, a `halt` returns to the last `execute` that
-- has not returned: to its label, its stack and its frame, with the status; the process that called it is
-- the current one again, on its own kernel stack, and the slot of the one that halts is free. The kernel
-- starts with six slots.
pub Reached-halt :
    {first k : Kernel} {parent : ℕ} {frame : Frame} {calls : List (ℕ × Frame)}
    → length first.pid_array ≡ num_max_processes
    → Reached first k ((parent, frame) ∷ calls)
    → (status : ℕ) → Returns parent frame status k (halt status k)
Reached-halt size run status = halts-Returns status (Reached-Sound size run)

-- ===== src/Syscalls/Session.antt =====
-- Whole sessions: programs are started from the kernel and make system calls, in any order.
use cheet_os.Base.{ℕ, ◌^◌, ◌<◌, ◌≡◌, List, [], ◌∷◌, length, subst}
use cheet_os.Tasks.{Kernel, Frame, enters, num_max_processes, pcb_address, current_pcb, execute}
use cheet_os.Tasks
use cheet_os.Tasks.Chain.{After, execute-After}
use cheet_os.Syscalls.State.{System}
use cheet_os.Syscalls.{Trap, returned, entered, resumed, system_call}
use cheet_os.Syscalls.Sound.{Live, kept-Live, executes-Live}
use cheet_os.Syscalls.Served.{system_call-Served}
use cheet_os.Syscalls.Endings.{Served}

-- A trap of the current process: its registers are words, and it runs on its kernel stack.
pub record Traps (t : Trap) (s : System) : Type 0 where
  pub ebx : t.ebx < 2 ^ 32
  pub ecx : t.ecx < 2 ^ 32
  pub stack : current_pcb t.frame.esp ≡ pcb_address s.kernel.curr_process

-- The states that are reached from a first one, with the calls of `execute` that have not returned, the
-- last one first. The kernel starts programs when no call is left. Between the system calls programs write
-- to memory and the devices interrupt: that changes no slot, no control block and not the current process.
pub data Reached (first : System) : System → List (ℕ × Frame) → Type 0 where
  begins : Reached first first []
  works :
      {s q : System} {calls : List (ℕ × Frame)}
      → Reached first s calls
      → q.kernel.curr_process ≡ s.kernel.curr_process
      → q.kernel.pid_array ≡ s.kernel.pid_array
      → q.kernel.pcb ≡ s.kernel.pcb
      → Reached first q calls
  starts :
      {s : System} {k : Kernel} {e top : ℕ}
      → Reached first s []
      → (frame : Frame) (command : List ℕ) → execute frame command s.kernel ≡ enters e top k
      → Reached first (record s { kernel = k }) ((s.kernel.curr_process, frame) ∷ [])
  returns :
      {s q : System} {call : ℕ × Frame} {calls : List (ℕ × Frame)} {v : ℕ}
      → Reached first s (call ∷ calls)
      → (t : Trap) → Traps t s
      → system_call t s ≡ returned v q
      → Reached first q (call ∷ calls)
  enters_program :
      {s q : System} {call : ℕ × Frame} {calls : List (ℕ × Frame)} {e top : ℕ}
      → Reached first s (call ∷ calls)
      → (t : Trap) → Traps t s
      → system_call t s ≡ entered e top q
      → Reached first q ((s.kernel.curr_process, t.frame) ∷ call ∷ calls)
  resumes :
      {s q : System} {call : ℕ × Frame} {calls : List (ℕ × Frame)} {r : Tasks.Return}
      → Reached first s (call ∷ calls)
      → (t : Trap) → Traps t s
      → system_call t s ≡ resumed r q
      → Reached first q calls

module _ {first : System} (size : length first.kernel.pid_array ≡ num_max_processes) where
  Reached-Live :
      {s : System} {calls : List (ℕ × Frame)} → Reached first s calls → Live s.kernel calls
  Reached-Live begins = record { sound = record { size = size; chain = tt }; tables = tt }
  Reached-Live (works {s} {q} run process slots blocks) =
      kept-Live q.kernel (Reached-Live run) process slots blocks
  Reached-Live (starts {s} run frame command e) =
      let live = Reached-Live run in
      executes-Live frame live
        (subst (After frame s.kernel) e (execute-After frame s.kernel live.sound.size command))
  Reached-Live (returns {s} {q} {call} {calls} run t traps e) =
      (subst (Served t s call calls) e
        (system_call-Served t s call calls (Reached-Live run) traps.stack traps.ebx traps.ecx)).0
  Reached-Live (enters_program {s} {q} {call} {calls} run t traps e) =
      subst (Served t s call calls) e
        (system_call-Served t s call calls (Reached-Live run) traps.stack traps.ebx traps.ecx)
  Reached-Live (resumes {s} {q} {call} {calls} run t traps e) =
      (subst (Served t s call calls) e
        (system_call-Served t s call calls (Reached-Live run) traps.stack traps.ebx traps.ecx)).0

  -- However programs are started, trap and halt, the next trap of the current one, with words in its
  -- registers, never takes the kernel through a null table: the call returns to the program; or it enters a
  -- new one; or it goes back to the last `execute` that has not returned, with the low byte of the status
  -- that `halt` is given; or, for a `read`, it waits; and the control blocks and all their descriptors are
  -- sound afterwards. It strays only for a stated reason: a pointer that the call uses does not lead into
  -- the program's page with the room that it may take there (for `execute`, the null pointer included), the
  -- arguments of `execute` take 128 bytes or more, or its file does not fit in the page. The kernel starts
  -- with six slots, and a trap is taken on the kernel stack of its process.
  pub Reached-system_call :
      {s : System} {call : ℕ × Frame} {calls : List (ℕ × Frame)}
      → Reached first s (call ∷ calls)
      → (t : Trap) → Traps t s
      → Served t s call calls (system_call t s)
  Reached-system_call {s} {call} {calls} run t traps =
      system_call-Served t s call calls (Reached-Live run) traps.stack traps.ebx traps.ecx

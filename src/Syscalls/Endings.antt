-- ===== src/Syscalls/Endings.antt =====
-- How a system call may end, for the theorems on the calls.
use cheet_os.Base.{ℕ, ◌%◌, ◌+◌, ◌≡◌, ◌≢◌, length, ◌⊎◌, List, ◌∷◌, true, false, none, some}
use cheet_os.Files.{file}
use cheet_os.Tasks.{Frame, current_pcb}
use cheet_os.Tasks.Cases.{Overflows}
use cheet_os.Tasks.Nested.{Returns}
use cheet_os.Syscalls.State.{System, process_of, user_text, inside}
use cheet_os.Syscalls.{
  Trap, Result, returned, entered, resumed, waiting, crashed, strays, read_uses, write_uses,
  read_room,
}
use cheet_os.Syscalls.Sound.{Live}

-- Why a system call strays. A pointer that it uses does not lead into the program's page with the room that
-- the call takes there, for the descriptor's driver, for a text and its terminator, for the arguments of
-- the process or for an address; or the command overruns the buffer of `execute` or the page.
abbrev pub Strays : Trap → System → Type 0
Strays t s =
    let p = process_of t.frame.esp s in
    let driver = (file p t.ebx).file_ops_table_ptr in
    ((t.eax ≡ 3) × (read_uses t.ebx p ≡ true) × (inside t.ecx (read_room driver t.edx) ≡ false))
    ⊎ ((t.eax ≡ 4) × (write_uses t.ebx p ≡ true) × (inside t.ecx t.edx ≡ false))
    ⊎ ((t.eax ≡ 5) × (t.ebx ≢ 0) × (user_text s t.ebx ≡ none))
    ⊎ ((t.eax ≡ 2) × (user_text s t.ebx ≡ none))
    ⊎ ((t.eax ≡ 2)
        × ((command : List ℕ) × (user_text s t.ebx ≡ some command) × Overflows s.kernel command))
    ⊎ ((t.eax ≡ 7)
        × (t.ebx ≢ 0)
        × (inside t.ebx (length (s.kernel.pcb (current_pcb t.frame.esp)).arg + 1) ≡ false))
    ⊎ ((t.eax ≡ 8) × (inside t.ebx 4 ≡ false))

-- How a system call may end: it returns to the same process; a new program is entered, and its call is the
-- last one; it goes back to the last call of `execute`, with the status; it waits for what `read` reads;
-- or it strays, for one of the reasons above. Each that does not stray leaves the kernel as the next call
-- expects it.
abbrev pub Served : Trap → System → (ℕ × Frame) → List (ℕ × Frame) → Result → Type 0
Served t s call calls (returned v q) =
    Live q.kernel (call ∷ calls) × (q.kernel.curr_process ≡ s.kernel.curr_process)
Served t s call calls (entered e stack q) =
    Live q.kernel ((s.kernel.curr_process, t.frame) ∷ call ∷ calls)
Served t s call calls (resumed r q) =
    Live q.kernel calls × Returns call.0 call.1 (t.ebx % 256) s.kernel (r, q.kernel)
Served t s call calls waiting = t.eax ≡ 3
Served t s call calls crashed = ⊥
Served t s call calls strays = Strays t s

-- ===== src/Syscalls.antt =====
-- student-distrib/interr.S and syscalls.c: the system calls of a program, from the registers that it
-- traps with to its return, over the whole kernel.
pub mod State
pub mod Sound
pub mod Messages
pub mod Endings
pub mod Served
pub mod Session
mod Tests
use cheet_os.Base.{
  ℕ, zero, suc, ◌+◌, ◌-◌, ◌*◌, ◌/◌, ◌%◌, ◌^◌, Bool, true, false, not, ◌&&◌, ◌||◌, Option, none,
  some, List, [], ◌∷◌, ◌==◌, ltb, leb, if◌then◌else◌, get_or, bytes, minus_one, lt_signed, min,
  length,
}
use cheet_os.Io.{Device}
use cheet_os.Screen.{Screen}
use cheet_os.Printf.{printf}
use cheet_os.Printf
use cheet_os.Strings.{store_dword}
use cheet_os.Paging.{vidmap}
use cheet_os.Terminal.{max_input_chars, terminal_read, terminal_write}
use cheet_os.Filesys.{filename_len}
use cheet_os.Files.{
  Process, Outcome, returns, waits, faults, Events, open_file, close, read, write, Ops, no_ops,
  terminal_ops, file_ops, directory_ops, rtc_ops, file, file_avail, out_of_table, from_terminal,
}
use cheet_os.Tasks.{Kernel, Frame, Ending, Return, execute, halt, getargs, current_pcb}
use cheet_os.Tasks
use cheet_os.Syscalls.State.{
  System, process_of, with_process, user_at, with_user, inside, user_text,
}

-- The registers of the trap, and what the handler's stack and the compiler supply: the frame that
-- `execute` would save, the chip, the events that a call may wait for, and what the stack holds where
-- `printf` has its buffer.
pub record Trap : Type 0 where
  pub eax : ℕ
  pub ebx : ℕ
  pub ecx : ℕ
  pub edx : ℕ
  pub frame : Frame
  pub device : Device
  pub events : Events
  pub conv : ℕ → ℕ

-- How a system call ends: it returns a value to its program, it enters a new program, it goes back to
-- the `execute` of the parent, it waits for ever, or the kernel jumps through a null table. A call whose
-- pointer leads out of the program's page, or whose command overruns a buffer of the kernel, strays: what
-- it does there is not followed.
pub data Result : Type 0 where
  returned : (value : ℕ) → System → Result
  entered : (entry_point stack : ℕ) → System → Result
  resumed : Return → System → Result
  waiting : Result
  crashed : Result
  strays : Result

-- Whether the driver's `read` stores through its pointer, and how many bytes at most.
abbrev pub stores_through : Ops → (fd : ℕ) → Bool
stores_through no_ops fd = false
stores_through terminal_ops fd = fd == 0
stores_through file_ops fd = not (fd == 1 || fd == 0)
stores_through directory_ops fd = true
stores_through rtc_ops fd = false

abbrev pub read_room : Ops → (nbytes : ℕ) → ℕ
read_room terminal_ops nbytes = min max_input_chars nbytes + 1
read_room directory_ops nbytes = filename_len + 1
read_room _ nbytes = nbytes

-- Whether the driver's `write` looks at its pointer: those of files only return -1.
abbrev pub loads_through : Ops → (fd : ℕ) → Bool
loads_through terminal_ops fd = fd == 1
loads_through _ fd = false

abbrev pub is_open : (fd : ℕ) → Process → Bool
is_open fd p = not (out_of_table 0 fd) && not ((file p fd).flags == file_avail)

abbrev pub read_uses : (fd : ℕ) → Process → Bool
read_uses fd p = is_open fd p && stores_through (file p fd).file_ops_table_ptr fd

abbrev pub write_uses : (fd : ℕ) → Process → Bool
write_uses fd p = is_open fd p && loads_through (file p fd).file_ops_table_ptr fd

module _ (t : Trap) where
  -- A call of filesys.c or of the drivers has returned; what it has stored goes to the program's memory.
  unfoldable pub after_file : (pointer : Option ℕ) → System → Outcome → Result
  after_file pointer s waits = waiting
  after_file pointer s faults = crashed
  after_file none s (returns value buf p) = returned value (with_process t.frame.esp p s)
  after_file (some at) s (returns value none p) = returned value (with_process t.frame.esp p s)
  after_file (some at) s (returns value (some buf) p) =
      returned value (with_user at buf (with_process t.frame.esp p s))

  -- `read` through the null pointer: the terminal tests for it, the other drivers store there.
  unfoldable pub read_null : Ops → System → Process → Result
  read_null terminal_ops s p =
      after_file none s (from_terminal p (terminal_read t.ebx none t.edx t.events.keys p.terminal))
  read_null o s p = strays

  unfoldable pub call_read : System → Result
  unfolding read_null
  call_read s =
      let p = process_of t.frame.esp s in
      let done = read t.device t.events t.ebx (user_at s t.ecx) t.edx p in
      let driver = (file p t.ebx).file_ops_table_ptr in
      if not (read_uses t.ebx p)
      then after_file none s done
      else if t.ecx == 0
      then read_null driver s p
      else if inside t.ecx (read_room driver t.edx)
      then after_file (some t.ecx) s done
      else strays

  -- `write` to the terminal through the null pointer.
  unfoldable pub write_null : System → Process → Result
  write_null s p =
      let (value, terminal) = terminal_write t.ebx none t.edx p.terminal in
      returned value (with_process t.frame.esp (record p { terminal = terminal }) s)

  unfoldable pub call_write : System → Result
  unfolding write_null
  call_write s =
      let p = process_of t.frame.esp s in
      let done = write t.ebx (user_at s t.ecx) t.edx p in
      if not (write_uses t.ebx p)
      then after_file none s done
      else if t.ecx == 0
      then write_null s p
      else if inside t.ecx t.edx
      then after_file none s done
      else strays

  unfoldable pub call_close : System → Result
  call_close s = after_file none s (close t.ebx (process_of t.frame.esp s))

  unfoldable pub open_named : System → Option (List ℕ) → Result
  open_named s name =
      let (fd, p) = open_file t.device name (process_of t.frame.esp s) in
      returned fd (with_process t.frame.esp p s)

  unfoldable pub open_text : System → Option (List ℕ) → Result
  unfolding open_named
  open_text s none = strays
  open_text s (some name) = open_named s (some name)

  unfoldable pub call_open : System → Result
  unfolding open_named open_text
  call_open s = if t.ebx == 0 then open_named s none else open_text s (user_text s t.ebx)

  unfoldable pub after_execute : System → Ending → Result
  after_execute s (Tasks.refused value k) = returned value (record s { kernel = k })
  after_execute s (Tasks.enters entry_point stack k) =
      entered entry_point stack (record s { kernel = k })
  after_execute s Tasks.waits = waiting
  after_execute s Tasks.overruns = strays

  unfoldable pub run_command : System → Option (List ℕ) → Result
  unfolding after_execute
  run_command s none = strays
  run_command s (some command) = after_execute s (execute t.frame command s.kernel)

  -- A null pointer strays too: `strtok` takes it for a call that goes on with its last string.
  unfoldable pub call_execute : System → Result
  unfolding run_command
  call_execute s = run_command s (user_text s t.ebx)

  -- `halt` takes a byte, and `return_to_execute` gives it to the parent.
  unfoldable pub call_halt : System → Result
  call_halt s = let (r, k) = halt (t.ebx % 256) s.kernel in resumed r (record s { kernel = k })

  -- What `getargs` has stored, the arguments and a terminator; what it refuses stores nothing.
  unfoldable pub after_getargs : System → ℕ × Option (ℕ → ℕ) → Result
  after_getargs s (value, none) = returned value s
  after_getargs s (value, some b) =
      if not (value == 0)
      then returned value s
      else if inside t.ebx (length (s.kernel.pcb (current_pcb t.frame.esp)).arg + 1)
      then returned value (with_user t.ebx b s)
      else strays

  unfoldable pub call_getargs : System → Result
  unfolding after_getargs
  call_getargs s =
      after_getargs s
        (getargs t.frame.esp (if t.ebx == 0 then none else some (user_at s t.ebx)) t.ecx s.kernel)

  -- The pointer that `vidmap` stores; its test lets the last bytes of the page and one address behind pass.
  unfoldable pub store_start : (value : ℕ) → Option ℕ → System → Result
  store_start value none s = returned value s
  store_start value (some start) s =
      if inside t.ebx 4
      then returned value (with_user t.ebx (store_dword (user_at s t.ebx) 0 start) s)
      else strays

  unfoldable pub call_vidmap : System → Result
  unfolding store_start
  call_vidmap s =
      let (value, start, paging) = vidmap t.ebx s.kernel.paging in
      store_start value start (record s { kernel = record s.kernel { paging = paging } })

  -- A message has been printed; the call returns -1.
  unfoldable pub after_message : System → Option (ℕ × Screen) → Result
  after_message s none = crashed
  after_message s (some (count, screen)) =
      returned minus_one (record s { kernel = record s.kernel { screen = screen } })

  -- The frame of a call of `printf` with words for arguments.
  unfoldable pub arguments : List ℕ → Printf.Frame
  arguments words = record {
    words = λ i. get_or words i 0;
    memory = λ a. 0;
    bound = 1;
    conv = t.conv;
  }

  unfoldable pub set_handler : System → Result
  set_handler s = after_message s (
      printf (arguments (t.ebx ∷ t.ecx ∷ [])) (bytes "## set_handler() : %d, %x\n") s.kernel.screen)

  unfoldable pub sigreturn : System → Result
  sigreturn s = after_message s (printf (arguments []) (bytes "## sigreturn()\n") s.kernel.screen)

  -- The jump table, and the test of the number before it.
  unfoldable pub system_call : System → Result
  system_call s =
      if lt_signed t.eax 1
      then returned minus_one s
      else if lt_signed 10 t.eax
      then returned minus_one s
      else if t.eax == 1
      then call_halt s
      else if t.eax == 2
      then call_execute s
      else if t.eax == 3
      then call_read s
      else if t.eax == 4
      then call_write s
      else if t.eax == 5
      then call_open s
      else if t.eax == 6
      then call_close s
      else if t.eax == 7
      then call_getargs s
      else if t.eax == 8
      then call_vidmap s
      else if t.eax == 9
      then set_handler s
      else sigreturn s

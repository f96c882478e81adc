-- ===== src/Tasks/Calls.antt =====
-- `execute`, and `halt` and `getargs` after it.
use cheet_os.Base.{
  ℕ, ◌<◌, ltb, length, ◌≡◌, refl, inl, inr, List, true, some, ◌==◌, Bool-cases, get_or, set, arith,
}
use cheet_os.Tasks.{
  Kernel, Frame, Ending, refused, enters, waits, overruns, program_room, pcb_address, stack_top,
  map_process, filled, launch, start, execute, Return, halt,
}
use cheet_os.Tasks.Slots.{set_back}
use cheet_os.Tasks.Cases.{Overflows, execute-cases}

-- What `halt` gives right after the program was entered: the caller's frame, and its kernel state,
-- with the caller's user page mapped again.
pub record Resumes (frame : Frame) (status : ℕ) (k : Kernel) (r : Return) (q : Kernel)
    : Type 0 where
  pub address : r.exec_ret_addr ≡ frame.end_of_execute
  pub ebp : r.parent_ebp ≡ frame.ebp
  pub esp : r.parent_esp ≡ frame.esp
  pub status_kept : r.status ≡ status
  pub process : q.curr_process ≡ k.curr_process
  pub slots : q.pid_array ≡ k.pid_array
  pub stack : q.esp0 ≡ stack_top k.curr_process
  pub image : q.image ≡ k.image

-- A refusal changes neither the current process nor its stack nor any control block.
pub record Stays (k q : Kernel) : Type 0 where
  pub process : q.curr_process ≡ k.curr_process
  pub stack : q.esp0 ≡ k.esp0
  pub blocks : q.pcb ≡ k.pcb
  pub image : q.image ≡ k.image

abbrev pub Balanced : Frame → (status : ℕ) → Kernel → (command : List ℕ) → Ending → Type 0
Balanced frame status k command (refused v q) = Stays k q
Balanced frame status k command (enters e s q) =
    Resumes frame status k (halt status q).0 (halt status q).1
Balanced frame status k command waits = ⊥
Balanced frame status k command overruns = Overflows k command

module _ (frame : Frame) (status : ℕ) (k : Kernel) where
  stays : Stays k k
  stays = record { process = refl; stack = refl; blocks = refl; image = refl }

  start-Balanced :
      (command args : List ℕ) (n size : ℕ) (read : ℕ) (bytes : List ℕ)
      → get_or k.pid_array n 0 ≡ 0
      → (program_room < length bytes → Overflows k command)
      → Balanced frame status k command (
          start frame args n size
            (record k { pid_array = set k.pid_array n 1; paging = map_process n k.paging })
            (some (read, bytes)))
  unfolding start launch halt filled
  start-Balanced command args n size read bytes free over =
      elim (Bool-cases (ltb program_room (length bytes))) [
        | inl e ↦ rw e (over (ground arith))
        | inr room ↦ rw room (elim (Bool-cases (read == size)) [
          | inr other ↦
              rw other (record { process = refl; stack = refl; blocks = refl; image = refl })
          | inl all ↦
              let here : (pcb_address n == pcb_address n) ≡ true = ground arith in
              rw all (record {
                address = rw here refl;
                ebp = rw here refl;
                esp = rw here refl;
                status_kept = refl;
                process = rw here refl;
                slots = set_back k.pid_array n free;
                stack = rw here refl;
                image = refl;
              })
        ])
      ]

  -- `execute` ends for every command and every kernel state, and writes behind the end of its buffer or
  -- of the program's page only where the arguments take 128 bytes or more or the file does not fit in the
  -- page from 0x8048000 on. If it returns, the current process,
  -- `tss.esp0`, the image and every control block are as they were; if it enters a program, a
  -- `halt` with any status right after that returns to the label, the stack and the frame of that
  -- `execute` with that status, makes the process that called `execute` the current one again on
  -- its own kernel stack, and leaves the slots and the image as they were before.
  pub execute-halt : (command : List ℕ) → Balanced frame status k command (execute frame command k)
  execute-halt command =
      execute-cases frame k (Balanced frame status k command) (λ v. stays)
        (record { process = refl; stack = refl; blocks = refl; image = refl })
        (λ args n size read bytes lt free over.
          start-Balanced command args n size read bytes free over)
        command (λ o. o)

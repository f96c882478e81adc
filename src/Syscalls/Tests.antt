-- ===== src/Syscalls/Tests.antt =====
-- A program that the kernel has started halts, with a status that does not fit in a byte.
use cheet_os.Base.{◌-◌, ◌≡◌, refl, ◌∙◌, ap, sym, [], ◌∷◌, arith}
use cheet_os.Command.Words.{words_of, join}
use cheet_os.Tasks.{Ending, enters, refused, waits, overruns, stack_top, pcb_address, execute}
use cheet_os.Tasks.Slots.{current_pcb-stack}
use cheet_os.Tasks.Runs.{Runs}
use cheet_os.Tasks.Tests
use cheet_os.Syscalls.State.{System}
use cheet_os.Syscalls.{Trap, system_call}
use cheet_os.Syscalls.Endings.{Served}
use cheet_os.Syscalls.Session.{Traps, Reached, begins, starts, Reached-system_call}

abbrev idle : System
idle = record {
  kernel = Tests.kernel;
  keyboard = record { ctrl_stat = 0; shift_stat = 0; alt_stat = 0; caps_stat = 0; pushed_key = 0 };
  rtc = record {
    intflag = 0;
    rtc_call_count = 0;
    pic = record { master_mask = 0xFF; slave_mask = 0xFF; log = [] };
  };
}

abbrev busy : System
busy = record idle { kernel = Tests.running_p }

started :
    (o : Ending)
    → Runs Tests.kernel 1 1 (join (words_of Tests.rest)) o
    → (Tests.ended o).curr_process ≡ 1
started (enters e s q) h = h.process
started (refused v q) h = absurd h
started waits h = absurd h
started overruns h = absurd h

busy-Reached : Reached idle busy ((0, Tests.frame) ∷ [])
busy-Reached =
    starts begins Tests.frame Tests.command
      (Tests.is_enters (execute Tests.frame Tests.command Tests.kernel) Tests.p-Runs)

-- `halt(263)` from 64 bytes below the top of the stack of process 1.
abbrev halt_trap : Trap
halt_trap = record {
  eax = 1;
  ebx = 263;
  ecx = 0;
  edx = 0;
  frame = record { esp = stack_top 1 - 64; ebp = stack_top 1; end_of_execute = 0x401234 };
  device = λ log. 0;
  events = record { keys = []; ticks = [] };
  conv = λ i. 0;
}

halt_trap-Traps : Traps halt_trap busy
halt_trap-Traps = record {
  ebx = omega arith;
  ecx = omega arith;
  stack =
      (current_pcb-stack 1 0 64 (omega arith) (omega arith) (omega arith) (omega arith)).0
      ∙ ap pcb_address
          (sym (started (execute Tests.frame Tests.command Tests.kernel) Tests.p-Runs));
}

Reached-system_call_example : Served halt_trap busy (0, Tests.frame) [] (system_call halt_trap busy)
Reached-system_call_example = Reached-system_call refl busy-Reached halt_trap halt_trap-Traps

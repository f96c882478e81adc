-- ===== src/Interrupts.antt =====
-- student-distrib/idt.c: the interrupt table and the handlers of exceptions.
pub mod Gates
pub mod Panic
mod Tests
use cheet_os.Base.{
  ℕ, zero, suc, ◌+◌, ◌-◌, ◌/◌, ◌%◌, ◌^◌, Bool, true, false, Option, none, some, List, [], ◌∷◌, ◌==◌,
  if◌then◌else◌, bytes,
}
use mathlib.Core.Option
use cheet_os.Screen.{Screen, blue_screen}
use cheet_os.Printf.{Frame, printf}

-- `idt_desc_t`
pub record Gate : Type 0 where
  pub offset_15_00 : ℕ
  pub seg_selector : ℕ
  pub reserved4 : ℕ
  pub reserved3 : ℕ
  pub reserved2 : ℕ
  pub reserved1 : ℕ
  pub size : ℕ
  pub reserved0 : ℕ
  pub dpl : ℕ
  pub present : ℕ
  pub offset_31_16 : ℕ

abbrev pub kernel_cs : ℕ
kernel_cs = 0x10

-- An entry as x86_desc.S has it, 0x00008E0000100000.
abbrev pub initial_gate : Gate
initial_gate = record {
  offset_15_00 = 0;
  seg_selector = kernel_cs;
  reserved4 = 0;
  reserved3 = 0;
  reserved2 = 1;
  reserved1 = 1;
  size = 1;
  reserved0 = 0;
  dpl = 0;
  present = 1;
  offset_31_16 = 0;
}

-- The labels whose addresses go into the table.
pub data Handler : Type 0 where
  at_divide_error at_debug at_nmi at_breakpoint at_overflow at_bounds at_invalid_op
        at_device_not_available at_double_fault at_segment_overrun at_invalid_tss
        at_segment_not_present at_stack_segment at_general_protection at_page_fault at_generic_error
        at_fp at_alignment_check at_machine_check at_system_call_handler at_rtc_handler
        at_key_handler :
      Handler

-- The addresses are the linker's.
abbrev pub Addresses : Type 0
Addresses = Handler → ℕ

abbrev pub Table : Type 0
Table = ℕ → Gate

-- `SET_IDT_ENTRY` on entry `i`
unfoldable pub set_idt_entry : Addresses → (i : ℕ) → Handler → Table → Table
set_idt_entry address i handler idt v =
    if v == i
    then record (idt v) {
      offset_31_16 = address handler / 2 ^ 16 % 2 ^ 16;
      offset_15_00 = address handler % 2 ^ 16;
    }
    else idt v

-- The first 19 lines of `init_idt`, from entry `i` on.
unfoldable pub set_entries : Addresses → (i : ℕ) → List Handler → Table → Table
set_entries address i [] idt = idt
set_entries address i (h ∷ hs) idt = set_entries address (i + 1) hs (set_idt_entry address i h idt)

-- The two loops that follow, with `todo` entries to go.
unfoldable pub set_generic : Addresses → (i todo : ℕ) → Table → Table
set_generic address i zero idt = idt
set_generic address i (suc todo) idt =
    set_generic address (i + 1) todo (set_idt_entry address i at_generic_error idt)

abbrev pub exceptions : List Handler
exceptions =
    at_divide_error ∷ at_debug ∷ at_nmi ∷ at_breakpoint ∷ at_overflow ∷ at_bounds ∷ at_invalid_op
    ∷ at_device_not_available ∷ at_double_fault ∷ at_segment_overrun ∷ at_invalid_tss
    ∷ at_segment_not_present ∷ at_stack_segment ∷ at_general_protection ∷ at_page_fault
    ∷ at_generic_error ∷ at_fp ∷ at_alignment_check ∷ at_machine_check ∷ []

unfoldable pub init_idt : Addresses → Table → Table
init_idt address idt =
    set_generic address 32 224 (set_generic address 19 13 (set_entries address 0 exceptions idt))

-- The machine after `stop`: it spins for ever, with this screen and this interrupt flag.
pub record Stopped : Type 0 where
  pub screen : Screen
  pub interrupts : Bool

unfoldable pub stop : Screen → Stopped
stop s = record { screen = s; interrupts = false }

-- The body that the handlers share: the blue screen, a message, and the end.
unfoldable pub panic : Frame → (message : List ℕ) → Screen → Option Stopped
panic f message s = Option.map (λ (r : ℕ × Screen). stop r.1) (printf f message (blue_screen s))

unfoldable pub divide_error : Frame → Screen → Option Stopped
divide_error f s = panic f (bytes "Division by 0") s

unfoldable pub debug : Frame → Screen → Option Stopped
debug f s = panic f (bytes "Debug Exception") s

unfoldable pub nmi : Frame → Screen → Option Stopped
nmi f s = panic f (bytes "Non-Maskable Interrupt") s

unfoldable pub breakpoint : Frame → Screen → Option Stopped
breakpoint f s = panic f (bytes "Breakpoint (INT3)") s

unfoldable pub overflow : Frame → Screen → Option Stopped
overflow f s = panic f (bytes "Overflow with EFLAGS[OF] Set") s

unfoldable pub bounds : Frame → Screen → Option Stopped
bounds f s = panic f (bytes "Debug Exception") s

unfoldable pub invalid_op : Frame → Screen → Option Stopped
invalid_op f s = panic f (bytes "Invalid Opcode") s

unfoldable pub device_not_available : Frame → Screen → Option Stopped
device_not_available f s = panic f (bytes "Floating Point Unit Missing") s

unfoldable pub double_fault : Frame → Screen → Option Stopped
double_fault f s = panic f (bytes "Double Fault") s

unfoldable pub segment_overrun : Frame → Screen → Option Stopped
segment_overrun f s = panic f (bytes "Coprocessor Segment Overrun") s

unfoldable pub invalid_tss : Frame → Screen → Option Stopped
invalid_tss f s = panic f (bytes "Invalid TSS") s

unfoldable pub segment_not_present : Frame → Screen → Option Stopped
segment_not_present f s = panic f (bytes "Segment Not Present") s

unfoldable pub stack_segment : Frame → Screen → Option Stopped
stack_segment f s = panic f (bytes "Stack Exception") s

unfoldable pub general_protection : Frame → Screen → Option Stopped
general_protection f s = panic f (bytes "General Protection Exception") s

unfoldable pub page_fault : Frame → Screen → Option Stopped
page_fault f s = panic f (bytes "Page Fault") s

unfoldable pub generic_error : Frame → Screen → Option Stopped
generic_error f s = panic f (bytes "Undefined Exception") s

unfoldable pub fp : Frame → Screen → Option Stopped
fp f s = panic f (bytes "Floating Point Error") s

unfoldable pub alignment_check : Frame → Screen → Option Stopped
alignment_check f s = panic f (bytes "Alignment Check") s

unfoldable pub machine_check : Frame → Screen → Option Stopped
machine_check f s = panic f (bytes "Machine Check Exception") s

-- The handler of an exception that a label stands for.
unfoldable pub run_handler : Handler → Frame → Screen → Option Stopped
run_handler at_divide_error f s = divide_error f s
run_handler at_debug f s = debug f s
run_handler at_nmi f s = nmi f s
run_handler at_breakpoint f s = breakpoint f s
run_handler at_overflow f s = overflow f s
run_handler at_bounds f s = bounds f s
run_handler at_invalid_op f s = invalid_op f s
run_handler at_device_not_available f s = device_not_available f s
run_handler at_double_fault f s = double_fault f s
run_handler at_segment_overrun f s = segment_overrun f s
run_handler at_invalid_tss f s = invalid_tss f s
run_handler at_segment_not_present f s = segment_not_present f s
run_handler at_stack_segment f s = stack_segment f s
run_handler at_general_protection f s = general_protection f s
run_handler at_page_fault f s = page_fault f s
run_handler at_generic_error f s = generic_error f s
run_handler at_fp f s = fp f s
run_handler at_alignment_check f s = alignment_check f s
run_handler at_machine_check f s = machine_check f s
run_handler at_system_call_handler f s = none
run_handler at_rtc_handler f s = none
run_handler at_key_handler f s = none

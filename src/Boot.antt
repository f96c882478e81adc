-- ===== src/Boot.antt =====
-- student-distrib/kernel.c: `entry`, from the boot loader to the end of its preparations, before
-- `launch_tests` and the first program.
pub mod Ready
pub mod Reports
pub mod Ends
mod Tests
use cheet_os.Base.{
  ℕ, zero, suc, ◌+◌, ◌-◌, ◌*◌, ◌/◌, ◌%◌, ◌^◌, Bool, true, false, not, ◌&&◌, Option, none, some,
  List, [], ◌∷◌, ◌==◌, ltb, if◌then◌else◌, get_or, bytes, ◌>>=◌, bit_and,
}
use mathlib.Core.Option
use cheet_os.Io.{Device}
use cheet_os.Filesys.{Image}
use cheet_os.Pic.{i8259_init, enable_irq}
use cheet_os.Rtc.{Rtc, rtc_init}
use cheet_os.Screen.{Screen, clear}
use cheet_os.Paging.{Paging, paging_init}
use cheet_os.Printf.{Frame, printf}
use cheet_os.Interrupts.{
  Table, Addresses, Gate, kernel_cs, set_idt_entry, init_idt, at_system_call_handler,
  at_rtc_handler, at_key_handler,
}

-- `seg_desc_t`
pub record Segment : Type 0 where
  pub seg_lim_15_00 : ℕ
  pub base_15_00 : ℕ
  pub base_23_16 : ℕ
  pub type : ℕ
  pub sys : ℕ
  pub dpl : ℕ
  pub present : ℕ
  pub seg_lim_19_16 : ℕ
  pub avail : ℕ
  pub reserved : ℕ
  pub opsize : ℕ
  pub granularity : ℕ
  pub base_31_24 : ℕ

-- `SET_LDT_PARAMS` and `SET_TSS_PARAMS`, which have one text.
unfoldable pub set_params : (address limit : ℕ) → Segment → Segment
set_params address limit d = record d {
  base_31_24 = address / 2 ^ 24 % 2 ^ 8;
  base_23_16 = address / 2 ^ 16 % 2 ^ 8;
  base_15_00 = address % 2 ^ 16;
  seg_lim_19_16 = limit / 2 ^ 16 % 2 ^ 4;
  seg_lim_15_00 = limit % 2 ^ 16;
}

-- What the code leaves in the two local descriptors; the fields that `set_params` sets start with what
-- the stack holds there.
unfoldable pub ldt_segment : (stack : Segment) → Segment
ldt_segment stack = record stack {
  granularity = 0;
  opsize = 1;
  reserved = 0;
  avail = 0;
  present = 1;
  dpl = 0;
  sys = 0;
  type = 2;
}

abbrev pub tss_size : ℕ
tss_size = 104

unfoldable pub tss_segment : (stack : Segment) → Segment
tss_segment stack = record stack {
  granularity = 0;
  opsize = 0;
  reserved = 0;
  avail = 0;
  seg_lim_19_16 = bit_and tss_size 0x000F0000 % 2 ^ 4;
  present = 1;
  dpl = 0;
  sys = 0;
  type = 9;
  seg_lim_15_00 = bit_and tss_size 0x0000FFFF;
}

-- The kernel's state, with the two descriptors and the fields of the TSS that `entry` sets.
pub record Machine : Type 0 where
  pub screen : Screen
  pub rtc : Rtc
  pub idt : Table
  pub paging : Paging
  pub image : Image
  pub ldt_desc : Segment
  pub tss_desc : Segment
  pub ldt_segment_selector : ℕ
  pub ss0 : ℕ
  pub esp0 : ℕ
  pub interrupts : Bool

-- What is not the kernel's own: the linker's addresses and sizes, the chip, the memory that the boot
-- loader has filled, and what the stack holds.
pub record Loader : Type 0 where
  pub address : Addresses
  pub device : Device
  pub ldt : ℕ
  pub ldt_size : ℕ
  pub tss : ℕ
  pub tss_limit : ℕ
  pub memory : ℕ → ℕ
  pub bound : ℕ
  pub conv : ℕ → ℕ
  pub stack : Segment

abbrev pub multiboot_bootloader_magic : ℕ
multiboot_bootloader_magic = 0x2BADB002

abbrev pub system_trap : ℕ
system_trap = 0x80

-- Entry 0x80 is opened to user mode.
unfoldable pub open_trap : Table → Table
open_trap idt v =
    if v == system_trap then record (idt v) { dpl = 3; seg_selector = kernel_cs } else idt v

-- The table as `entry` completes it.
unfoldable pub set_gates : Addresses → Table → Table
set_gates address idt =
    let trapped = set_idt_entry address system_trap at_system_call_handler (init_idt address idt) in
    set_idt_entry address 0x21 at_key_handler
      (set_idt_entry address 0x28 at_rtc_handler (open_trap trapped))

-- How `entry` goes on: it returns, with a message on the screen, or it runs the tests and then the first
-- program for ever; or a loop over the boot loader's data has not ended.
pub data Outcome : Type 0 where
  returned : Screen → Outcome
  running : Machine → Outcome
  stuck : Outcome

returning : Option Screen → Outcome
returning none = stuck
returning (some s) = returned s

module _ (b : Loader) where
  -- From the descriptors to `filesys_init`, with the `bootBlock_addr` that has been found.
  unfoldable pub start_up : (boot_block_addr : ℕ) → Machine → Machine
  start_up boot_block_addr m =
      let rtc' = rtc_init b.device (record m.rtc { pic = i8259_init m.rtc.pic }) in
      record m {
        ldt_desc = set_params b.ldt b.ldt_size (ldt_segment b.stack);
        tss_desc = set_params b.tss b.tss_limit (tss_segment b.stack);
        ldt_segment_selector = 0x38;
        ss0 = 0x18;
        esp0 = 0x800000;
        idt = set_gates b.address m.idt;
        rtc = record rtc' { pic = enable_irq 8 (enable_irq 1 rtc'.pic) };
        paging = paging_init m.paging;
        image = record m.image { fs_ptr = boot_block_addr };
      }

  -- A word of the boot loader's memory.
  unfoldable pub word : ℕ → ℕ
  word a =
      b.memory a % 256
      + b.memory (a + 1) % 256 * 2 ^ 8
      + b.memory (a + 2) % 256 * 2 ^ 16
      + b.memory (a + 3) % 256 * 2 ^ 24

  -- `printf` with these arguments.
  unfoldable pub say : (format : List ℕ) → (words : List ℕ) → Screen → Option Screen
  say format words s =
      Option.map (λ (r : ℕ × Screen). r.1)
        (printf
          (record {
            words = λ i. get_or words i 0;
            memory = b.memory;
            bound = b.bound;
            conv = b.conv;
          })
          format s)

  -- `CHECK_FLAG`
  unfoldable pub check_flag : (flags bit : ℕ) → Bool
  check_flag flags bit = flags / 2 ^ bit % 2 == 1

  unfoldable pub say_if : Bool → (format : List ℕ) → (words : List ℕ) → Screen → Option Screen
  say_if test format words s = if test then say format words s else some s

  -- `*((char*) a)`, with its sign
  unfoldable pub char_at : ℕ → ℕ
  char_at a = let c = b.memory a % 256 in if ltb c 128 then c else c + (2 ^ 32 - 256)

  -- The loop over the first bytes of a module.
  unfoldable pub say_bytes : (todo i start : ℕ) → Screen → Option Screen
  say_bytes zero i start s = some s
  say_bytes (suc todo) i start s = do
    s' ← say (bytes "0x%x ") (char_at (start + i) ∷ []) s
    say_bytes todo (i + 1) start s'

  -- The loop over the modules, with `todo` to go; the result has the last `bootBlock_addr`.
  unfoldable pub load_modules :
      (todo mod_count at boot_block_addr : ℕ) → Screen → Option (ℕ × Screen)
  load_modules zero mod_count at boot_block_addr s = some (boot_block_addr, s)
  load_modules (suc todo) mod_count at boot_block_addr s = do
    s1 ← say (bytes "Module %d loaded at address: 0x%#x\n") (mod_count ∷ word at ∷ []) s
    s2 ← say (bytes "Module %d ends at address: 0x%#x\n") (mod_count ∷ word (at + 4) ∷ []) s1
    s3 ← say (bytes "First few bytes of module:\n") [] s2
    s4 ← say_bytes 16 0 (word at) s3
    s5 ← say (bytes "\n") [] s4
    load_modules todo (mod_count + 1) (at + 16) (word at) s5

  -- The loop over the memory map, on fuel; `none` when it is not at its end by then.
  unfoldable pub say_map : (fuel mmap end : ℕ) → Screen → Option Screen
  say_map zero mmap end s = none
  say_map (suc fuel) mmap end s =
      let next = (mmap + word mmap + 4) % 2 ^ 32 in
      let format =
        bytes "    size = 0x%x, base_addr = 0x%#x%#x\n    type = 0x%x,  length    = 0x%#x%#x\n" in
      let entry =
        word mmap
        ∷ word (mmap + 8)
        ∷ word (mmap + 4)
        ∷ word (mmap + 20)
        ∷ word (mmap + 16)
        ∷ word (mmap + 12)
        ∷ [] in
      let rest = say format entry s >>= say_map fuel next end in
      if ltb mmap end then rest else some s

  -- The report on the information at `addr`, up to the modules.
  unfoldable pub report : (addr : ℕ) → Screen → Option Screen
  report addr s = do
    let flags = word addr
    s1 ← say (bytes "flags = 0x%#x\n") (flags ∷ []) s
    s2 ←
        say_if (check_flag flags 0) (bytes "mem_lower = %uKB, mem_upper = %uKB\n")
          (word (addr + 4) ∷ word (addr + 8) ∷ []) s1
    s3 ← say_if (check_flag flags 1) (bytes "boot_device = 0x%#x\n") (word (addr + 12) ∷ []) s2
    say_if (check_flag flags 2) (bytes "cmdline = %s\n") (word (addr + 16) ∷ []) s3

  -- What it says of the section headers and the memory map.
  unfoldable pub report_rest : (fuel addr : ℕ) → Screen → Option Screen
  report_rest fuel addr s = do
    let flags = word addr
    s1 ←
        say_if (check_flag flags 5)
          (bytes "elf_sec: num = %u, size = 0x%#x, addr = 0x%#x, shndx = 0x%#x\n")
          (word (addr + 28) ∷ word (addr + 32) ∷ word (addr + 36) ∷ word (addr + 40) ∷ []) s
    s2 ←
        say_if (check_flag flags 6) (bytes "mmap_addr = 0x%#x, mmap_length = 0x%x\n")
          (word (addr + 48) ∷ word (addr + 44) ∷ []) s1
    let end = (word (addr + 48) + word (addr + 44)) % 2 ^ 32
    (if check_flag flags 6 then say_map fuel (word (addr + 48)) end s2 else some s2)

  -- The report up to the modules, and the loop over them.
  unfoldable pub find_modules : (addr : ℕ) → Screen → Option (ℕ × Screen)
  find_modules addr s = do
    s1 ← report addr s
    (if check_flag (word addr) 3
        then load_modules (word (addr + 20)) 0 (word (addr + 24)) 0 s1
        else some (0, s1))

  -- What follows the modules.
  unfoldable pub complete : (fuel addr : ℕ) → Machine → Option (ℕ × Screen) → Outcome
  unfolding returning
  complete fuel addr m none = stuck
  complete fuel addr m (some (boot_block_addr, s)) =
      if check_flag (word addr) 4 && check_flag (word addr) 5
      then returning (say (bytes "Both bits 4 and 5 are set.\n") [] s)
      else elim (report_rest fuel addr s) [
        | none ↦ stuck
        | some s1 ↦ elim (say (bytes "Enabling Interrupts\n") [] s1) [
          | none ↦ stuck
          | some s2 ↦
              running (record (start_up boot_block_addr m) { screen = s2; interrupts = true })
        ]
      ]

  unfoldable pub entry : (fuel magic addr : ℕ) → Machine → Outcome
  unfolding returning
  entry fuel magic addr m =
      let s = clear m.screen in
      if not (magic == multiboot_bootloader_magic)
      then returning (say (bytes "Invalid magic number: 0x%#x\n") (magic ∷ []) s)
      else complete fuel addr m (find_modules addr s)

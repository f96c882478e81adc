-- ===== src/Syscalls/State.antt =====
-- The state of the kernel as a whole, the part of it that a call on descriptors works on, and the memory
-- of the program that runs.
use cheet_os.Base.{
  ℕ, Bool, Option, none, List, ◌+◌, ◌-◌, ◌*◌, ◌/◌, ◌^◌, ◌&&◌, ◌==◌, leb, if◌then◌else◌,
}
use cheet_os.Printf.{text_at}
use cheet_os.Keyboard.{Keyboard}
use cheet_os.Rtc.{Rtc}
use cheet_os.Files.{Process}
use cheet_os.Tasks.{Kernel, current_pcb}

pub record System : Type 0 where
  pub kernel : Kernel
  pub keyboard : Keyboard
  pub rtc : Rtc

-- What `getCurrentProcessPCB` finds from the stack at `esp`, with the devices.
unfoldable pub process_of : (esp : ℕ) → System → Process
process_of esp s = record {
  image = s.kernel.image;
  file_array = (s.kernel.pcb (current_pcb esp)).file_array;
  terminal = record { keyboard = s.keyboard; screen = s.kernel.screen };
  rtc = s.rtc;
}

unfoldable pub with_process : (esp : ℕ) → Process → System → System
with_process esp p s = record {
  kernel = record s.kernel {
    screen = p.terminal.screen;
    pcb = λ a.
        if a == current_pcb esp
        then record (s.kernel.pcb a) { file_array = p.file_array }
        else s.kernel.pcb a;
  };
  keyboard = p.terminal.keyboard;
  rtc = p.rtc;
}

-- The physical address of the 4 MB page at 128 MB.
abbrev user_page : System → ℕ
user_page s = s.kernel.paging.page_directory 32 / 2 ^ 22 * 2 ^ 22

-- Whether `size` bytes from a pointer on lie in the program's page.
abbrev pub inside : (pointer size : ℕ) → Bool
inside pointer size = leb 0x08000000 pointer && leb (pointer + size) 0x08400000

-- The program's memory from a pointer into its page on.
unfoldable pub user_at : System → (pointer : ℕ) → ℕ → ℕ
user_at s pointer i = s.kernel.memory (user_page s + (pointer + i - 0x08000000))

-- The text at a pointer, if it lies in the program's page with its terminator.
unfoldable pub user_text : System → (pointer : ℕ) → Option (List ℕ)
user_text s pointer =
    if inside pointer 1 then text_at (0x08400000 - pointer) (user_at s pointer) 0 else none

-- The memory in which the bytes from a pointer into the page on have become `b`.
unfoldable pub with_user : (pointer : ℕ) → (ℕ → ℕ) → System → System
with_user pointer b s =
    let first = user_page s + (pointer - 0x08000000) in
    record s {
      kernel = record s.kernel {
        memory = λ a. if leb first a then b (a - first) else s.kernel.memory a;
      };
    }

-- ===== src/Tasks.antt =====
-- student-distrib/syscalls.c: `execute`, `halt` and `getargs`, and the process control blocks.
pub mod Slots
pub mod Cases
pub mod Calls
pub mod Chain
pub mod Nested
pub mod Runs
pub mod Pages
pub mod Tests
use cheet_os.Base.{
  ℕ, zero, suc, ◌+◌, ◌-◌, ◌*◌, ◌/◌, ◌%◌, ◌^◌, Bool, true, false, not, ◌&&◌, ◌||◌, Option, none,
  some, List, [], ◌∷◌, ◌==◌, ltb, leb, if◌then◌else◌, get_or, set, length, minus_one, lt_signed,
  align_down,
}
use cheet_os.Filesys.{Image, Dentry, read_dentry_by_name, read_data, flength}
use cheet_os.Files.{File, init_file_array, store_bytes}
use cheet_os.Screen.{Screen, store, puts}
use cheet_os.Paging.{Paging, update_page_directory}
use cheet_os.Command.{strtok, arguments_from}

-- `pcb_t`, less the fields that no modelled call uses; `arg` is the text before its terminator.
pub record Pcb : Type 0 where
  pub file_array : List File
  pub parent_num : ℕ
  pub parent_esp : ℕ
  pub parent_ebp : ℕ
  pub exec_ret_addr : ℕ
  pub arg : List ℕ
  pub num_char_in_arg : ℕ
  pub terminal_index : ℕ

-- The control blocks by address, `tss.esp0`, and the physical memory of the user's pages.
pub record Kernel : Type 0 where
  pub image : Image
  pub pid_array : List ℕ
  pub curr_process : ℕ
  pub pcb : ℕ → Pcb
  pub esp0 : ℕ
  pub paging : Paging
  pub memory : ℕ → ℕ
  pub screen : Screen

-- What the assembly lines of `execute` read: the two registers, and the label `end_of_execute`.
pub record Frame : Type 0 where
  pub esp : ℕ
  pub ebp : ℕ
  pub end_of_execute : ℕ

abbrev pub num_max_processes : ℕ
num_max_processes = 6

-- The loop with `todo` slots to go.
unfoldable pub next_from : List ℕ → (todo i : ℕ) → ℕ × List ℕ
next_from pids zero i = (minus_one, pids)
next_from pids (suc todo) i =
    let rest = next_from pids todo (i + 1) in
    if get_or pids i 0 == 0 then (i, set pids i 1) else rest

unfoldable pub get_next_process_number : List ℕ → ℕ × List ℕ
get_next_process_number pids = next_from pids num_max_processes 0

-- `BASE_PROCESS_POSITION - (n + 2) * PROCESS_OFFSET`, as `execute` and `halt` have it.
unfoldable pub pcb_address : ℕ → ℕ
pcb_address n = 0x800000 - (n + 2) * 0x2000

unfoldable pub stack_top : ℕ → ℕ
stack_top n = 0x800000 - (n + 1) * 0x2000 - 4

unfoldable pub current_pcb : (esp : ℕ) → ℕ
current_pcb esp = align_down esp 13

unfoldable pub map_process : ℕ → Paging → Paging
map_process n p = update_page_directory 0x08000000 (0x00800000 + n * 0x00400000) 0x87 p

-- The physical address of `program_image`, through the 4 MB page that is mapped at 128 MB.
unfoldable pub program_image : Paging → ℕ
program_image p = p.page_directory 32 / 2 ^ 22 * 2 ^ 22 + 0x48000

-- How `execute` ends: it returns to its caller, or it enters the program with a stack, or a loop in it
-- has not ended, or it has written behind the end of `buffer` or of the program's page, which is not
-- followed.
pub data Ending : Type 0 where
  refused : (value : ℕ) → Kernel → Ending
  enters : (entry_point stack : ℕ) → Kernel → Ending
  waits : Ending
  overruns : Ending

-- "You have reached the maximum number of processes! \n"
abbrev pub too_many : List ℕ
too_many =
    b'Y' ∷ b'o' ∷ b'u' ∷ b' ' ∷ b'h' ∷ b'a' ∷ b'v' ∷ b'e' ∷ b' ' ∷ b'r' ∷ b'e' ∷ b'a' ∷ b'c' ∷ b'h'
    ∷ b'e' ∷ b'd' ∷ b' ' ∷ b't' ∷ b'h' ∷ b'e' ∷ b' ' ∷ b'm' ∷ b'a' ∷ b'x' ∷ b'i' ∷ b'm' ∷ b'u'
    ∷ b'm' ∷ b' ' ∷ b'n' ∷ b'u' ∷ b'm' ∷ b'b' ∷ b'e' ∷ b'r' ∷ b' ' ∷ b'o' ∷ b'f' ∷ b' ' ∷ b'p'
    ∷ b'r' ∷ b'o' ∷ b'c' ∷ b'e' ∷ b's' ∷ b's' ∷ b'e' ∷ b's' ∷ b'!' ∷ b' ' ∷ b'\n' ∷ []

-- The control block that process `n` gets.
unfoldable pub filled : Frame → (parent terminal : ℕ) → (args : List ℕ) → Pcb → Pcb
filled frame parent terminal args b = record {
  file_array = init_file_array b.file_array;
  parent_num = parent;
  parent_esp = frame.esp;
  parent_ebp = frame.ebp;
  exec_ret_addr = frame.end_of_execute;
  arg = args;
  num_char_in_arg = length args % 256;
  terminal_index = terminal;
}

-- From the TSS to the context switch.
unfoldable pub launch : Frame → (args : List ℕ) → (n : ℕ) → Kernel → Kernel
launch frame args n k = record k {
  esp0 = stack_top n;
  pcb = λ a.
      if a == pcb_address n
      then filled frame k.curr_process (k.pcb (current_pcb frame.esp)).terminal_index args (k.pcb a)
      else k.pcb a;
  curr_process = n;
  pid_array = set k.pid_array n 1;
}

-- The word at `program_image + 24`.
unfoldable pub entry_point : Kernel → ℕ
entry_point k =
    let at = program_image k.paging + 24 in
    k.memory at
    + k.memory (at + 1) * 2 ^ 8
    + k.memory (at + 2) * 2 ^ 16
    + k.memory (at + 3) * 2 ^ 24

-- `buffer` and the `arg` of a control block have 128 bytes, the last one for the terminator.
abbrev pub buffer_size : ℕ
buffer_size = 128

-- The bytes from `program_image` to the end of the 4 MB page.
abbrev pub program_room : ℕ
program_room = 0x400000 - 0x48000

-- What follows the read of the program; the bytes that it has stored stay in memory.
unfoldable pub start : Frame → List ℕ → (n size : ℕ) → Kernel → Option (ℕ × List ℕ) → Ending
start frame args n size k none = waits
start frame args n size k (some (read, bytes)) =
    let loaded = record k { memory = store_bytes k.memory (program_image k.paging) bytes } in
    if ltb program_room (length bytes)
    then overruns
    else if not (read == size)
    then refused minus_one
        (record loaded { paging = map_process loaded.curr_process loaded.paging })
    else enters (entry_point loaded) (0x8000000 + 0x400000 - 4) (launch frame args n loaded)

-- What follows the arguments.
unfoldable pub create : Frame → Dentry → Kernel → Option (List ℕ) → Ending
create frame d k none = waits
create frame d k (some args) =
    let (n, pids) = get_next_process_number k.pid_array in
    if leb buffer_size (length args)
    then overruns
    else if n == minus_one
    then refused 256 (record k { screen = (puts too_many k.screen).1 })
    else let k' = record k { pid_array = pids; paging = map_process n k.paging } in
      let size = flength k.image d.inode_num in
      start frame args n size k' (read_data k.image d.inode_num 0 size)

-- The test of the first four bytes.
unfoldable pub is_program : Option (ℕ × List ℕ) → Bool
is_program none = false
is_program (some (read, b)) =
    read == 4
    && (get_or b 0 0 == 0x7F
        && (get_or b 1 0 == 0x45 && (get_or b 2 0 == 0x4C && get_or b 3 0 == 0x46)))

-- What follows the lookup, with the string that `strtok` has left.
unfoldable pub run_entry : Frame → (fuel : ℕ) → Option (List ℕ) → Kernel → Option Dentry → Ending
run_entry frame fuel last k none = refused minus_one k
run_entry frame fuel last k (some d) =
    if not (d.filetype == 2)
    then refused minus_one k
    else if not (is_program (read_data k.image d.inode_num 0 4))
    then refused minus_one k
    else create frame d k (arguments_from fuel last [])

unfoldable pub run_token : Frame → (fuel : ℕ) → Kernel → Option (List ℕ) × Option (List ℕ) → Ending
run_token frame fuel k (none, last) = refused minus_one k
run_token frame fuel k (some token, last) =
    if leb 31 (length token)
    then refused minus_one k
    else run_entry frame fuel last k (read_dentry_by_name k.image (some token))

-- A token takes at least one character, so the length of the command is fuel enough.
unfoldable pub execute : Frame → (command : List ℕ) → Kernel → Ending
execute frame command k = run_token frame (length command + 1) k (strtok (some command) none)

-- The arguments of `return_to_execute`.
pub record Return : Type 0 where
  pub exec_ret_addr : ℕ
  pub parent_ebp : ℕ
  pub parent_esp : ℕ
  pub status : ℕ

unfoldable pub halt : (status : ℕ) → Kernel → Return × Kernel
halt status k =
    let b = k.pcb (pcb_address k.curr_process) in
    (
      record {
        exec_ret_addr = b.exec_ret_addr;
        parent_ebp = b.parent_ebp;
        parent_esp = b.parent_esp;
        status = status;
      },
      record k {
        paging = map_process b.parent_num k.paging;
        esp0 = stack_top b.parent_num;
        pid_array = set k.pid_array k.curr_process 0;
        curr_process = b.parent_num;
      },
    )

-- `getargs` on the stack at `esp`, with the caller's memory from `buf` on.
unfoldable pub getargs : (esp : ℕ) → Option (ℕ → ℕ) → (nbytes : ℕ) → Kernel → ℕ × Option (ℕ → ℕ)
getargs esp none nbytes k = (minus_one, none)
getargs esp (some buf) nbytes k =
    let b = k.pcb (current_pcb esp) in
    if get_or b.arg 0 0 == 0
    then (minus_one, some buf)
    else if lt_signed nbytes b.num_char_in_arg
    then (minus_one, some buf)
    else (0, some (store (store_bytes buf 0 b.arg) (length b.arg) 0))

-- ===== src/Tasks/Tests.antt =====
-- A program "p" started with arguments by process 0, and the theorems at it.
use cheet_os.Base.{
  ℕ, zero, suc, ◌+◌, ◌*◌, ◌≢◌, ◌-◌, ◌<◌, ◌≡◌, refl, true, Option, none, some, List, [], ◌∷◌, ◌==◌,
  arith, length, if◌then◌else◌, get_or, minus_one, ltb, replicate,
}
use cheet_os.Filesys.{
  Image, Dentry, flength, byte_at, word_at, bytes_at, inode_count, data_count, inode_length,
  data_block_num, direntries, block_start, strncmp, strncmp_from, read_dentry_by_index,
  read_dentry_by_name, find_from, copy_block, read_blocks, read_data,
}
use cheet_os.Filesys.Contents.{HasBlocks}
use cheet_os.Files.{store_bytes}
use cheet_os.Screen.{store}
use cheet_os.Command.{scan_token, strtok_on, strtok}
use cheet_os.Command.Words.{words_of, words_from, join}
use cheet_os.Tasks.{
  Pcb, Kernel, Frame, next_from, get_next_process_number, stack_top, map_process, is_program,
  launch, execute, getargs, halt, Ending, enters, refused, waits, overruns,
}
use cheet_os.Paging.Maps.{process_page, update_page_directory_lem}
use cheet_os.Tasks.Pages.{process_pages_apart}
use cheet_os.Tasks.Calls.{Balanced, execute-halt}
use cheet_os.Tasks.Nested.{Reached, begins, executes, Reached-halt}
use cheet_os.Tasks.Runs.{Runs, execute-Runs, getargs-launch}

-- "p" has 28 bytes in data block 0.
abbrev contents : ℕ → ℕ
contents a =
    if a == 4
    then 2
    else if a == 8
    then 1
    else if a == 64
    then b'p'
    else if a == 96
    then 2
    else if a == 100
    then 1
    else if a == 8192
    then 28
    else if a == 12288
    then 0x7F
    else if a == 12289
    then 0x45
    else if a == 12290
    then 0x4C
    else if a == 12291
    then 0x46
    else if a == 12313
    then 0x80
    else 0

abbrev disk : Image
disk = record { mem = λ a. contents (a - 0x1000); fs_ptr = 0x1000 }

disk-HasBlocks : HasBlocks disk 1
unfolding inode_length data_block_num data_count word_at byte_at
disk-HasBlocks zero h = refl
disk-HasBlocks (suc i) h = absurd (omega arith)

abbrev p_entry : Dentry
p_entry = record {
  filename = b'p' ∷ replicate 31 0;
  filetype = 2;
  inode_num = 1;
  reserved = replicate 24 0;
}

abbrev no_pcb : Pcb
no_pcb = record {
  file_array = [];
  parent_num = 0;
  parent_esp = 0;
  parent_ebp = 0;
  exec_ret_addr = 0;
  arg = [];
  num_char_in_arg = 0;
  terminal_index = 0;
}

abbrev pub kernel : Kernel
kernel = record {
  image = disk;
  pid_array = 1 ∷ 0 ∷ 0 ∷ 0 ∷ 0 ∷ 0 ∷ [];
  curr_process = 0;
  pcb = λ a. no_pcb;
  esp0 = 0x7FDFFC;
  paging = record {
    page_directory = λ i. 0;
    page_table = λ i. 0;
    video_pages = λ i. 0;
    page_table_address = 0x410000;
    video_pages_address = 0x420000;
  };
  memory = λ a. 0;
  screen = record { video = λ a. 0; screen_x = 0; screen_y = 0; log = [] };
}

abbrev pub frame : Frame
frame = record { esp = 0x7FDF00; ebp = 0x7FDF80; end_of_execute = 0x401234 }

-- "p x  y"
abbrev pub command : List ℕ
command = b'p' ∷ b' ' ∷ b'x' ∷ b' ' ∷ b' ' ∷ b'y' ∷ []

abbrev pub rest : Option (List ℕ)
rest = some (b'x' ∷ b' ' ∷ b' ' ∷ b'y' ∷ [])

abbrev args : List ℕ
args = b'x' ∷ b' ' ∷ b'y' ∷ []

splits : strtok (some command) none ≡ (some (b'p' ∷ []), rest)
unfolding strtok strtok_on scan_token
splits = refl

finds_p : read_dentry_by_name disk (some (b'p' ∷ [])) ≡ some p_entry
unfolding read_dentry_by_name find_from strncmp strncmp_from read_dentry_by_index direntries
    bytes_at word_at byte_at
finds_p = refl

has_magic : is_program (read_data disk 1 0 4) ≡ true
unfolding is_program read_data read_blocks copy_block inode_count data_count inode_length
    data_block_num block_start word_at byte_at
has_magic = refl

takes_slot : get_next_process_number kernel.pid_array ≡ (1, 1 ∷ 1 ∷ 0 ∷ 0 ∷ 0 ∷ 0 ∷ [])
unfolding get_next_process_number next_from
takes_slot = refl

execute-halt_example : Balanced frame 7 kernel command (execute frame command kernel)
execute-halt_example = execute-halt frame 7 kernel command

two_words : length (join (words_of rest)) < 128
unfolding words_from join
two_words = omega arith

execute-Runs_example : Runs kernel 1 1 (join (words_of rest)) (execute frame command kernel)
execute-Runs_example =
    execute-Runs frame kernel command (b'p' ∷ []) rest p_entry 1 (1 ∷ 1 ∷ 0 ∷ 0 ∷ 0 ∷ 0 ∷ []) splits
      (omega arith) finds_p refl
      (unfold inode_count in unfold word_at in unfold byte_at in omega arith) disk-HasBlocks
      has_magic takes_slot (omega arith) two_words
      (unfold flength in unfold inode_length in unfold word_at in unfold byte_at in omega arith)

getargs-launch_example :
    let text = store (store_bytes (λ a. 9) 0 args) (length args) 0 in
    (getargs (stack_top 1 - 64) (some (λ a. 9)) 128 (launch frame args 1 kernel)
      ≡ (if ltb 128 (length args) then (minus_one, some (λ a. 9)) else (0, some text)))
    × ((i : ℕ)
        → text i
          ≡ (if ltb i (length args) then get_or args i 0 else if i == length args then 0 else 9))
getargs-launch_example =
    getargs-launch frame kernel 1 64 128 args (λ a. 9) (omega arith) (omega arith) (omega arith)
      (omega arith) (omega arith)

abbrev pub ended : Ending → Kernel
ended (refused v q) = q
ended (enters e s q) = q
ended waits = kernel
ended overruns = kernel

abbrev pub entered_at : Ending → ℕ
entered_at (enters e s q) = e
entered_at o = 0

abbrev pub entered_on : Ending → ℕ
entered_on (enters e s q) = s
entered_on o = 0

pub is_enters :
    (o : Ending)
    → Runs kernel 1 1 (join (words_of rest)) o
    → o ≡ enters (entered_at o) (entered_on o) (ended o)
is_enters (enters e s q) h = refl
is_enters (refused v q) h = absurd h
is_enters waits h = absurd h
is_enters overruns h = absurd h

-- The state in which "p" runs, called from the process 0.
abbrev pub running_p : Kernel
running_p = ended (execute frame command kernel)

pub p-Runs : Runs kernel 1 1 (join (words_of rest)) (execute frame command kernel)
p-Runs =
    execute-Runs frame kernel command (b'p' ∷ []) rest p_entry 1 (1 ∷ 1 ∷ 0 ∷ 0 ∷ 0 ∷ 0 ∷ []) splits
      (omega arith) finds_p refl
      (unfold inode_count in unfold word_at in unfold byte_at in omega arith) disk-HasBlocks
      has_magic takes_slot (omega arith) two_words
      (unfold flength in unfold inode_length in unfold word_at in unfold byte_at in omega arith)

running_p-Reached : Reached kernel running_p ((0, frame) ∷ [])
running_p-Reached = executes begins frame command (is_enters (execute frame command kernel) p-Runs)

Reached-halt_example :
    let (r, q) = halt 7 running_p in
    (r ≡ record {
      exec_ret_addr = 0x401234;
      parent_ebp = 0x7FDF80;
      parent_esp = 0x7FDF00;
      status = 7;
    })
    × (q.curr_process ≡ 0)
    × (q.esp0 ≡ stack_top 0)
    × (get_or q.pid_array running_p.curr_process 0 ≡ 0)
Reached-halt_example = Reached-halt refl running_p-Reached 7

process_pages_apart_example :
    (process_page 0 + 0x10 ≢ process_page 1 + 0x10)
    × (process_page 0 + 0x10 ≡ 0x800000 + 0 * 0x400000 + (0x08000010 - 0x08000000))
process_pages_apart_example =
    process_pages_apart kernel.paging 0 1 0x08000010 0x08000010 (process_page 0 + 0x10)
      (process_page 1 + 0x10) (omega arith) (omega arith) (omega arith) (omega arith) (omega arith)
      (omega arith) (omega arith)
      (unfold map_process in update_page_directory_lem kernel.paging 0 0x08000010 (omega arith))
      (unfold map_process in update_page_directory_lem kernel.paging 1 0x08000010 (omega arith))

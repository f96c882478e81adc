-- ===== src/Programs/Tests.antt =====
-- Runs of the programs on an image with the directory ".", the file "ab" of five characters, and
-- nothing else, and of the shell on three lines.
use cheet_os.Base.{
  ℕ, zero, suc, ◌-◌, ◌<◌, ◌≡◌, refl, ◌≢◌, All, ◌&&◌, not, Bool, true, some, List, [], ◌∷◌, ◌++◌,
  ◌==◌, arith, if◌then◌else◌, get_or, replicate, minus_one, ltb, bytes, length, ◌≤◌,
}
use mathlib.Core.Option
use cheet_os.Io.{Device}
use cheet_os.Filesys.{
  Image, Dentry, byte_at, word_at, bytes_at, inode_count, data_count, inode_length, data_block_num,
  direntries, strncmp, strncmp_from, read_dentry_by_index, read_dentry_by_name, find_from, flength,
  block_start,
}
use cheet_os.Filesys.Contents.{file_byte, slice, HasBlocks}
use cheet_os.Filesys.Directory
use cheet_os.Filesys.Directory.{text_from}
use cheet_os.Files.{terminal_file, Process, blank, free_from, Events}
use cheet_os.Tasks.{Kernel, Pcb, Frame, getargs}
use cheet_os.Programs.{cat, ls}
use cheet_os.Programs.Support.{IsByte, compared}
use cheet_os.Programs.Kernel.{kernel_calls}
use cheet_os.Programs.Cat.{Prints, cat-Prints}
use cheet_os.Programs.Listing.{listing, name_of}
use cheet_os.Programs.Ls.{ls-Prints}
use cheet_os.Programs.Shell.{shell, count_from}
use cheet_os.Programs.Counting.{numbers, count_from-numbers}
use cheet_os.Programs.Syserr.{err_open_lots}
use cheet_os.Programs.Syserr.Passes.{Passes, started}
use cheet_os.Programs.Syserr.Lots.{err_open_lots-Passes}
use cheet_os.Programs.Script.{Script, IsLine, scripted, executed, session, Event, wrote, ran}
use cheet_os.Programs.Session.{outcome, shell-session}

abbrev contents : ℕ → ℕ
contents a =
    if a == 4
    then 2
    else if a == 8
    then 2
    else if a == 64
    then b'.'
    else if a == 96
    then 1
    else if a == 128
    then b'a'
    else if a == 129
    then b'b'
    else if a == 160
    then 2
    else if a == 164
    then 1
    else if a == 8192
    then 5
    else if a == 8196
    then 1
    else if a == 16384
    then b'h'
    else if a == 16385
    then b'e'
    else if a == 16386
    then b'l'
    else if a == 16387
    then b'l'
    else if a == 16388
    then b'o'
    else 0

abbrev pub disk : Image
disk = record { mem = λ a. contents (a - 0x1000); fs_ptr = 0x1000 }

pub disk-HasBlocks : HasBlocks disk 1
unfolding inode_length data_block_num data_count word_at byte_at
disk-HasBlocks zero h = refl
disk-HasBlocks (suc i) h = absurd (omega arith)

abbrev pub ab : List ℕ
ab = b'a' ∷ b'b' ∷ []

abbrev pub ab_entry : Dentry
ab_entry = record {
  filename = ab ++ replicate 30 0;
  filetype = 2;
  inode_num = 1;
  reserved = replicate 24 0;
}

abbrev dot_entry : Dentry
dot_entry = record {
  filename = b'.' ∷ replicate 31 0;
  filetype = 1;
  inode_num = 0;
  reserved = replicate 24 0;
}

pub finds_ab : read_dentry_by_name disk (some ab) ≡ some ab_entry
unfolding read_dentry_by_name find_from strncmp strncmp_from read_dentry_by_index direntries
    bytes_at word_at byte_at
finds_ab = refl

finds_dot : read_dentry_by_name disk (some (bytes ".")) ≡ some dot_entry
unfolding read_dentry_by_name find_from strncmp strncmp_from read_dentry_by_index direntries
    bytes_at word_at byte_at
finds_dot = refl

abbrev text_test : List ℕ → Bool
text_test [] = true
text_test (c ∷ cs) = (not (c == 0) && (not (c == b'\n') && ltb c 256)) && text_test cs

pub is_text :
    (cs : List ℕ)
    → text_test cs ≡ true
    → ((i : ℕ) → i < length cs → (get_or cs i 0 ≢ 0) × (get_or cs i 0 ≢ b'\n')) × All IsByte cs
is_text [] h = ((λ i lt. absurd (omega arith)), tt)
is_text (c ∷ cs) h =
    let rest = is_text cs (ground arith) in
    let real : (c ≢ 0) × (c ≢ b'\n') = (ground arith, ground arith) in
    ((λ i lt. go i lt real rest.0), (ground arith, rest.1))
  where
    go :
        (i : ℕ)
        → i < length (c ∷ cs)
        → (c ≢ 0) × (c ≢ b'\n')
        → ((j : ℕ) → j < length cs → (get_or cs j 0 ≢ 0) × (get_or cs j 0 ≢ b'\n'))
        → (get_or (c ∷ cs) i 0 ≢ 0) × (get_or (c ∷ cs) i 0 ≢ b'\n')
    go zero lt real rest = real
    go (suc i) lt real rest = rest i (omega arith)

is_line : (line : List ℕ) → text_test line ≡ true → length line ≤ 128 → IsLine line
is_line line h short = let known = is_text line h in (short, known.0, known.1)

abbrev pub chip : Device
chip log = 0x26

abbrev pub process : Process
process = record {
  image = disk;
  file_array = terminal_file ∷ terminal_file ∷ replicate 6 blank;
  terminal = record {
    keyboard = record {
      ctrl_stat = 0;
      shift_stat = 0;
      alt_stat = 0;
      caps_stat = 0;
      pushed_key = 0;
    };
    screen = record { video = λ a. 0; screen_x = 0; screen_y = 0; log = [] };
  };
  rtc = record {
    intflag = 0;
    rtc_call_count = 0;
    pic = record { master_mask = 0xFF; slave_mask = 0xFF; log = [] };
  };
}

abbrev pcb : Pcb
pcb = record {
  file_array = [];
  parent_num = 0;
  parent_esp = 0;
  parent_ebp = 0;
  exec_ret_addr = 0;
  arg = ab;
  num_char_in_arg = 2;
  terminal_index = 0;
}

abbrev pub kernel : Kernel
kernel = record {
  image = disk;
  pid_array = 1 ∷ 1 ∷ 0 ∷ 0 ∷ 0 ∷ 0 ∷ [];
  curr_process = 1;
  pcb = λ a. pcb;
  esp0 = 0x7FBFFC;
  paging = record {
    page_directory = λ i. 0;
    page_table = λ i. 0;
    video_pages = λ i. 0;
    page_table_address = 0x410000;
    video_pages_address = 0x420000;
  };
  memory = λ a. 0;
  screen = process.terminal.screen;
}

abbrev pub nothing : Events
nothing = record { keys = []; ticks = [] }

pub size_of_file : flength disk 1 ≡ 5
unfolding flength inode_length word_at byte_at
size_of_file = refl

file_is_text : (i : ℕ) → i < flength disk 1 → file_byte disk 1 i ≢ 0
unfolding file_byte block_start data_block_num inode_count byte_at word_at
file_is_text zero lt = omega arith
file_is_text (suc zero) lt = omega arith
file_is_text (suc (suc zero)) lt = omega arith
file_is_text (suc (suc (suc zero))) lt = omega arith
file_is_text (suc (suc (suc (suc zero)))) lt = omega arith
file_is_text (suc (suc (suc (suc (suc i))))) lt = absurd (omega (arith, size_of_file))

cat-Prints_example :
    Prints
      (slice disk 1 0 5)
      process.terminal.screen
      (cat (kernel_calls chip nothing 40 0x7FBF00 kernel) 2 (λ a. 9) process)
unfolding getargs flength inode_count word_at byte_at free_from inode_length
cat-Prints_example =
    cat-Prints chip nothing 40 0x7FBF00 kernel 2 (λ a. 9) process ab ab_entry refl
      (λ i lt. ((is_text ab refl).0 i lt).0) (omega arith) (omega arith) refl refl (omega arith)
      finds_ab refl disk-HasBlocks (omega arith) file_is_text (omega arith)

names_are_known : (i : ℕ) → i < 2 → length (name_of disk i) ≢ 0
unfolding Directory.text text_from direntries bytes_at byte_at word_at
names_are_known zero lt = omega arith
names_are_known (suc zero) lt = omega arith
names_are_known (suc (suc i)) lt = absurd (omega arith)

third_is_empty : length (name_of disk 2) ≡ 0
unfolding Directory.text text_from direntries bytes_at byte_at word_at
third_is_empty = refl

ls-Prints_example :
    Prints
      (listing disk 0 2)
      process.terminal.screen
      (ls (kernel_calls chip nothing 40 0x7FBF00 kernel) 3 (λ a. 9) process)
unfolding free_from
ls-Prints_example =
    ls-Prints chip nothing 40 0x7FBF00 kernel 3 2 (λ a. 9) process dot_entry (omega arith)
      names_are_known third_is_empty (omega arith) (omega arith) refl refl (omega arith) finds_dot
      refl

abbrev statuses : List ℕ → ℕ
statuses line = if get_or line 0 0 == b'l' then 0 else minus_one

abbrev script : List (List ℕ)
script = bytes "ls" ∷ [] ∷ bytes "xx" ∷ bytes "exit" ∷ []

session_of_script :
    session statuses script
    ≡ some (
        wrote (bytes "391OS> ")
        ∷ ran (bytes "ls")
        ∷ wrote (bytes "391OS> ")
        ∷ wrote (bytes "391OS> ")
        ∷ ran (bytes "xx")
        ∷ wrote (bytes "no such command\n")
        ∷ wrote (bytes "391OS> ")
        ∷ [])
unfolding session compared
session_of_script = refl

shell-session_example :
    outcome (shell scripted (executed statuses) 4 (λ a. 0) (record { lines = script; events = [] }))
    ≡ Option.map {B = ℕ × List Event}
        (λ es. (0, wrote (bytes "Starting 391 Shell\n") ∷ es))
        (session statuses script)
shell-session_example =
    shell-session statuses 4 script (λ a. 0)
      (
        is_line (bytes "ls") refl (omega arith),
        (
          is_line [] refl (omega arith),
          (
            is_line (bytes "xx") refl (omega arith),
            (is_line (bytes "exit") refl (omega arith), tt),
          ),
        ),
      )
      (omega arith)

abbrev counting : Script
counting = record { lines = []; events = wrote (bytes "Enter") ∷ [] }

count_from-numbers_example :
    outcome (count_from scripted 100 0 (λ a. 0) counting)
    ≡ some (0, counting.events ++ numbers 0 100)
count_from-numbers_example = count_from-numbers 100 0 (λ a. 0) counting (omega arith)

err_open_lots-Passes_example :
    Passes (bytes "err_open_lots: PASS\n") (started disk process.terminal process.rtc) (
      err_open_lots
        (kernel_calls chip nothing 40 0x7FBF00 kernel)
        (started disk process.terminal process.rtc))
err_open_lots-Passes_example =
    err_open_lots-Passes chip nothing 40 0x7FBF00 kernel (omega arith) disk process.terminal
      process.rtc dot_entry finds_dot refl

abbrev a_frame : Frame
a_frame = record { esp = 0x7FDF00; ebp = 0x7FDF80; end_of_execute = 0x401234 }

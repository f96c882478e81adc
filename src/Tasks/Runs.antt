-- ===== src/Tasks/Runs.antt =====
-- `execute` of a program that is in order, and `getargs` in it.
use cheet_os.Base.{
  ℕ, ◌+◌, ◌-◌, ◌%◌, ◌^◌, ◌<◌, ◌≤◌, min, ◌≡◌, refl, ◌≢◌, ap, List, true, false, Option, none, some,
  ◌==◌, ltb, leb, if◌then◌else◌, get_or, length, minus_one, arith, lt_signed, bit_or_byte,
}
use cheet_os.Filesys.{Dentry, flength, inode_count, read_data, read_dentry_by_name}
use cheet_os.Filesys.Contents.{file_byte, slice, HasBlocks, length-slice}
use cheet_os.Filesys.Read.{read_data_lem}
use cheet_os.Files.{store_bytes}
use cheet_os.Files.Sequence.{store_bytes_lem, get_or-slice}
use cheet_os.Screen.{store}
use cheet_os.Paging.{update_page_directory}
use cheet_os.Paging.Walk.{translate}
use cheet_os.Paging.Maps.{process_page, update_page_directory_lem}
use cheet_os.Command.{strtok}
use cheet_os.Command.Words.{left, words_of, join, strtok_on-left, arguments_from-join}
use cheet_os.Tasks.{
  Kernel, Frame, Ending, refused, enters, waits, overruns, buffer_size, program_room,
  get_next_process_number, pcb_address, stack_top, current_pcb, map_process, program_image, filled,
  launch, start, create, is_program, run_entry, run_token, execute, getargs,
}

-- Process `n` runs the file of the entry with the arguments: its page is mapped and starts, 0x48000
-- bytes in, with the file's bytes, and the stack begins with the last word of the page.
pub record Started (k : Kernel) (n inode stack : ℕ) (args : List ℕ) (q : Kernel) : Type 0 where
  pub process : q.curr_process ≡ n
  pub top : stack ≡ 0x083FFFFC
  pub kernel_stack : q.esp0 ≡ stack_top n
  pub page :
      (a : ℕ)
      → 0x08000000 ≤ a
      → a < 0x08400000
      → translate q.paging a ≡ some (process_page n + (a - 0x08000000))
  pub loaded :
      (i : ℕ)
      → i < flength k.image inode
      → q.memory (process_page n + 0x48000 + i) ≡ file_byte k.image inode i
  pub arguments : (q.pcb (pcb_address n)).arg ≡ args
  pub parent : (q.pcb (pcb_address n)).parent_num ≡ k.curr_process

abbrev pub Runs : Kernel → (n inode : ℕ) → (args : List ℕ) → Ending → Type 0
Runs k n inode args (refused v q) = ⊥
Runs k n inode args (enters e stack q) = Started k n inode stack args q
Runs k n inode args waits = ⊥
Runs k n inode args overruns = ⊥

program_image-map_process :
    (k : Kernel) (n : ℕ) → n < 6 → program_image (map_process n k.paging) ≡ process_page n + 0x48000
unfolding program_image map_process update_page_directory store
program_image-map_process k n h = ground (arith, bit_or_byte (process_page n) 0x87)

start-Runs :
    (frame : Frame) (k : Kernel) (n inode : ℕ) (args pids : List ℕ)
    → n < 6
    → flength k.image inode ≤ program_room
    → let size = flength k.image inode in
      let k' = record k { pid_array = pids; paging = map_process n k.paging } in
      Runs k n inode args (start frame args n size k' (some (size, slice k.image inode 0 size)))
unfolding start launch filled
start-Runs frame k n inode args pids h room =
    let size = flength k.image inode in
    let same : (size == size) ≡ true = ground arith in
    let here : (pcb_address n == pcb_address n) ≡ true = ground arith in
    let base = program_image-map_process k n h in
    let inside : ltb program_room (length (slice k.image inode 0 size)) ≡ false =
      ground (arith, length-slice k.image inode 0 size) in
    rw (inside, same)
      (record {
        process = refl;
        top = refl;
        kernel_stack = refl;
        page = λ a lo hi.
            unfold map_process in ground (arith, update_page_directory_lem k.paging n a h);
        loaded = λ i lt. rw base (
            ground (
              arith,
              store_bytes_lem k.memory (process_page n + 0x48000) (slice k.image inode 0 size)
                  (process_page n + 0x48000 + i),
              length-slice k.image inode 0 size,
              get_or-slice k.image inode 0 size i lt,
            ));
        arguments = rw here refl;
        parent = rw here refl;
      })

-- `execute` of a command whose first word, shorter than 31 bytes, names a regular file of the image,
-- sound and with the four bytes of a program, enters it when a process slot is free, the other
-- words and the spaces between them take less than 128 bytes, and the file fits in the page of a program
-- from 0x8048000 on: the process of that slot runs the file, with the other words of the command as its
-- arguments, one space between each two, and the process that called `execute` as its parent.
pub execute-Runs :
    (frame : Frame) (k : Kernel) (command token : List ℕ) (last : Option (List ℕ)) (d : Dentry)
    (n : ℕ) (pids : List ℕ)
    → strtok (some command) none ≡ (some token, last)
    → length token < 31
    → read_dentry_by_name k.image (some token) ≡ some d
    → d.filetype ≡ 2
    → d.inode_num < inode_count k.image
    → HasBlocks k.image d.inode_num
    → is_program (read_data k.image d.inode_num 0 4) ≡ true
    → get_next_process_number k.pid_array ≡ (n, pids)
    → n < 6
    → length (join (words_of last)) < buffer_size
    → flength k.image d.inode_num ≤ program_room
    → Runs k n d.inode_num (join (words_of last)) (execute frame command k)
unfolding execute run_token run_entry create
execute-Runs frame k command token last d n pids first short found regular inside sound program slot
      room brief fits_page =
    let size = flength k.image d.inode_num in
    let short' : leb 31 (length token) ≡ false = ground arith in
    let brief' : leb buffer_size (length (join (words_of last))) ≡ false = ground arith in
    let taken : (n == minus_one) ≡ false = ground arith in
    let whole : min size (size - 0) ≡ size = omega arith in
    let fits : left last < length command + 1 =
      unfold strtok in
      (rw (← ap (λ (r : Option (List ℕ) × Option (List ℕ)). r.1) first)
        (omega (arith, strtok_on-left command))) in
    rw first (
      rw (short', found)
        (rw (regular, program)
          (rw (arguments_from-join (length command + 1) last fits) (
            rw (slot, create)
              (rw (brief', taken)
                (rw (read_data_lem k.image d.inode_num size sound 0 inside) (
                  rw whole (
                    start-Runs frame k n d.inode_num (join (words_of last)) pids room
                      fits_page))))))))

-- In a process below 6 that has been launched with arguments, not empty and shorter than 128 bytes,
-- `getargs` anywhere on its kernel stack returns -1 and changes nothing if they are longer than what
-- was asked for. Otherwise it returns 0 and stores the arguments and a 0 behind them, one byte more
-- than their length, and changes no other byte.
pub getargs-launch :
    (frame : Frame) (k : Kernel) (n depth nbytes : ℕ) (args : List ℕ) (buf : ℕ → ℕ)
    → n < 6
    → depth ≤ 0x1FFC
    → nbytes < 2 ^ 31
    → get_or args 0 0 ≢ 0
    → length args < 128
    → let text = store (store_bytes buf 0 args) (length args) 0 in
      (getargs (stack_top n - depth) (some buf) nbytes (launch frame args n k)
        ≡ (if ltb nbytes (length args) then (minus_one, some buf) else (0, some text)))
      × ((i : ℕ)
          → text i ≡ (
              if ltb i (length args)
              then get_or args i 0
              else if i == length args
              then 0
              else buf i))
unfolding getargs launch filled store
getargs-launch frame k n depth nbytes args buf h deep small some_text short =
    let at : current_pcb (stack_top n - depth) ≡ pcb_address n =
      unfold current_pcb in unfold stack_top in unfold pcb_address in omega arith in
    let here : (pcb_address n == pcb_address n) ≡ true = ground arith in
    let begins : (get_or args 0 0 == 0) ≡ false = ground arith in
    let asks : lt_signed nbytes (length args % 256) ≡ ltb nbytes (length args) = ground arith in
    (rw at (rw here (rw begins (rw asks refl))), λ i. ground (arith, store_bytes_lem buf 0 args i))

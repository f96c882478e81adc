-- ===== src/Files.antt =====
-- student-distrib/filesys.c and syscalls.c: the file descriptors of a process and the system calls
-- open, close, read and write on them.
pub mod Table
pub mod Safe
pub mod Sequence
pub mod Clock
mod Tests
use cheet_os.Base.{
  ℕ, zero, suc, ◌+◌, ◌-◌, ◌%◌, ◌^◌, Bool, true, false, not, ◌&&◌, ◌||◌, Option, none, some, List,
  [], ◌∷◌, ltb, leb, ◌==◌, if◌then◌else◌, get_or, set, length, replicate, minus_one, add32,
  lt_signed,
}
use cheet_os.Io.{Device}
use cheet_os.Filesys.{
  Image, Dentry, filename_len, read_dentry_by_name, read_dentry_by_index, read_data,
}
use cheet_os.Filesys.Directory.{text}
use cheet_os.Keyboard.{Schedule}
use cheet_os.Rtc.{Rtc, rtc_open, rtc_read, rtc_close}
use cheet_os.Screen.{store}
use cheet_os.Terminal.{Terminal, Buffer, terminal_read, terminal_write, terminal_close}

-- The operation tables that a descriptor may point to; `no_ops` is the null pointer.
pub data Ops : Type 0 where
  no_ops terminal_ops file_ops directory_ops rtc_ops : Ops

-- `file_t`
pub record File : Type 0 where
  pub file_ops_table_ptr : Ops
  pub inode_num : ℕ
  pub file_position : ℕ
  pub flags : ℕ

abbrev pub num_max_open_files : ℕ
num_max_open_files = 8

abbrev pub file_avail : ℕ
file_avail = 1

abbrev pub file_occup : ℕ
file_occup = 0

-- `blank`, as `filesys_init` sets it
abbrev pub blank : File
blank = record { file_ops_table_ptr = no_ops; inode_num = 0; file_position = 0; flags = file_avail }

-- `stdin` and `stdout`, as `init_file_array` sets them
abbrev pub terminal_file : File
terminal_file = record {
  file_ops_table_ptr = terminal_ops;
  inode_num = 0;
  file_position = 0;
  flags = file_occup;
}

-- What the calls of one process work on: the image, its `file_array`, and the two devices.
pub record Process : Type 0 where
  pub image : Image
  pub file_array : List File
  pub terminal : Terminal
  pub rtc : Rtc

abbrev pub file : Process → ℕ → File
file p fd = get_or p.file_array fd blank

unfoldable pub init_file_array : List File → List File
init_file_array files =
    set (set (replicate num_max_open_files blank) 0 terminal_file) 1 terminal_file

-- The loop of `file_open` with `todo` descriptors to go; the result is `idx` when it ends.
unfoldable pub free_from : List File → (todo idx : ℕ) → ℕ
free_from files zero idx = idx
free_from files (suc todo) idx =
    let rest = free_from files todo (idx + 1) in
    if (get_or files idx blank).flags == file_avail then idx else rest

-- The entry that `file_open` leaves for a file or a directory, and what it leaves of a free entry
-- for the clock: there it returns before it sets the position and the flags.
abbrev pub opened : Ops → (inode : ℕ) → File
opened ops inode = record {
  file_ops_table_ptr = ops;
  inode_num = inode;
  file_position = 0;
  flags = file_occup;
}

abbrev pub of_clock : (inode : ℕ) → File → File
of_clock inode f = record f { file_ops_table_ptr = rtc_ops; inode_num = inode }

-- A call returns a word and the new state, waits for ever, or jumps through a null table.
pub data Outcome : Type 0 where
  returns : (value : ℕ) → Buffer → Process → Outcome
  waits : Outcome
  faults : Outcome

module _ (device : Device) where
  -- The branches of `file_open` on the type of the entry found, at the free descriptor `idx`.
  unfoldable pub open_entry : Dentry → (idx : ℕ) → Process → ℕ × Process
  open_entry d idx p =
      if d.filetype == 2
      then (idx, record p { file_array = set p.file_array idx (opened file_ops d.inode_num) })
      else if d.filetype == 1
      then (idx, record p { file_array = set p.file_array idx (opened directory_ops d.inode_num) })
      else if d.filetype == 0
      then (
        idx,
        record p {
          file_array = set p.file_array idx (of_clock d.inode_num (file p idx));
          rtc = (rtc_open device p.rtc).1;
        },
      )
      else (minus_one, p)

  unfoldable pub open_found : Option Dentry → Process → ℕ × Process
  open_found none p = (minus_one, p)
  open_found (some d) p =
      let idx = free_from p.file_array 6 2 in
      if leb num_max_open_files idx then (minus_one, p) else open_entry d idx p

  unfoldable pub file_open : Option (List ℕ) → Process → ℕ × Process
  file_open none p = (minus_one, p)
  file_open (some filename) p =
      if leb filename_len (length filename)
      then (minus_one, p)
      else open_found (read_dentry_by_name p.image (some filename)) p

  unfoldable pub directory_open : Option (List ℕ) → Process → ℕ × Process
  directory_open filename p = elim (read_dentry_by_name p.image filename) [
    | none ↦ (minus_one, p)
    | some d ↦ if not (d.filetype == 1) then (minus_one, p) else file_open filename p
  ]

  -- `open`, with the fall through from the clock's case to the file's.
  unfoldable pub open_as : Option (List ℕ) → (filetype : ℕ) → Process → ℕ × Process
  open_as filename filetype p =
      if filetype == 1
      then directory_open filename p
      else if filetype == 0
      then (let (fd, p') = file_open filename p in
          if fd == minus_one then (minus_one, p') else file_open filename p')
      else if filetype == 2
      then file_open filename p
      else (minus_one, p)

  unfoldable pub open_file : Option (List ℕ) → Process → ℕ × Process
  open_file filename p = elim (read_dentry_by_name p.image filename) [
    | none ↦ (minus_one, p)
    | some d ↦ open_as filename d.filetype p
  ]

unfoldable pub file_close : (fd : ℕ) → Process → ℕ × Process
file_close fd p =
    if not (lt_signed fd num_max_open_files) || lt_signed fd 0
    then (minus_one, p)
    else if (file p fd).flags == file_avail
    then (minus_one, p)
    else (0, record p { file_array = set p.file_array fd blank })

unfoldable pub directory_close : (fd : ℕ) → Process → ℕ × Process
directory_close fd p = file_close fd p

-- Bytes stored from a place of the caller's memory on.
unfoldable pub store_bytes : (ℕ → ℕ) → (start : ℕ) → List ℕ → ℕ → ℕ
store_bytes m start [] = m
store_bytes m start (c ∷ cs) = store_bytes (store m start c) (start + 1) cs

-- `file_read` once `read_data` has answered; the position moves by the word returned.
unfoldable pub advance : (fd : ℕ) → (ℕ → ℕ) → Process → Option (ℕ × List ℕ) → Outcome
advance fd buf p none = waits
advance fd buf p (some (read, bytes)) =
    let f = file p fd in
    returns read (some (store_bytes buf 0 bytes)) (record p {
      file_array = set p.file_array fd (record f { file_position = add32 f.file_position read });
    })

unfoldable pub file_read : (fd : ℕ) → (ℕ → ℕ) → (nbytes : ℕ) → Process → Outcome
file_read fd buf nbytes p =
    if fd == 1 || fd == 0
    then returns minus_one (some buf) p
    else let f = file p fd in
      advance fd buf p (read_data p.image f.inode_num f.file_position nbytes)

unfoldable pub file_write : ℕ
file_write = minus_one

-- The name's bytes up to a 0 or the 32nd, then a 0, whatever `nbytes` is.
unfoldable pub list_entry : (fd : ℕ) → (ℕ → ℕ) → Process → Option Dentry → Outcome
list_entry fd buf p none = returns minus_one (some buf) p
list_entry fd buf p (some d) =
    let name = text filename_len d.filename in
    let f = file p fd in
    returns (length name) (some (store (store_bytes buf 0 name) (length name) 0)) (record p {
      file_array = set p.file_array fd (record f { file_position = add32 f.file_position 1 });
    })

unfoldable pub directory_read : (fd : ℕ) → (ℕ → ℕ) → (nbytes : ℕ) → Process → Outcome
directory_read fd buf nbytes p =
    list_entry fd buf p (read_dentry_by_index p.image (file p fd).file_position)

unfoldable pub directory_write : ℕ
directory_write = minus_one

-- `7 < fd || fd < low`
abbrev pub out_of_table : (low fd : ℕ) → Bool
out_of_table low fd = lt_signed 7 fd || lt_signed fd low

unfoldable pub close_by : Ops → (fd : ℕ) → Process → Outcome
close_by no_ops fd p = faults
close_by terminal_ops fd p = returns terminal_close none p
close_by file_ops fd p = let (r, p') = file_close fd p in returns r none p'
close_by directory_ops fd p = let (r, p') = directory_close fd p in returns r none p'
close_by rtc_ops fd p = let (r, rtc') = rtc_close p.rtc in returns r none (record p { rtc = rtc' })

unfoldable pub close : (fd : ℕ) → Process → Outcome
close fd p =
    if out_of_table 2 fd
    then returns minus_one none p
    else if (file p fd).flags == file_avail
    then returns minus_one none p
    else close_by (file p fd).file_ops_table_ptr fd p

-- The events that a call may wait for: the scan codes at each poll of the keyboard, and the clock's
-- interrupts at each poll of its flag.
pub record Events : Type 0 where
  pub keys : Schedule
  pub ticks : List Bool

unfoldable pub from_terminal : Process → Option (ℕ × Buffer × Terminal) → Outcome
from_terminal p none = waits
from_terminal p (some (r, buf, t)) = returns r buf (record p { terminal = t })

from_clock : Buffer → Process → Option (ℕ × Rtc) → Outcome
from_clock buf p none = waits
from_clock buf p (some (r, rtc')) = returns r buf (record p { rtc = rtc' })

module _ (device : Device) (events : Events) where
  -- `rtc_read` is called with one argument more than it takes, which it does not look at.
  unfoldable pub read_by : Ops → (fd : ℕ) → (ℕ → ℕ) → (nbytes : ℕ) → Process → Outcome
  unfolding from_terminal from_clock
  read_by no_ops fd buf nbytes p = faults
  read_by terminal_ops fd buf nbytes p =
      from_terminal p (terminal_read fd (some buf) nbytes events.keys p.terminal)
  read_by file_ops fd buf nbytes p = file_read fd buf nbytes p
  read_by directory_ops fd buf nbytes p = directory_read fd buf nbytes p
  read_by rtc_ops fd buf nbytes p = from_clock (some buf) p (rtc_read device events.ticks p.rtc)

  unfoldable pub read : (fd : ℕ) → (ℕ → ℕ) → (nbytes : ℕ) → Process → Outcome
  read fd buf nbytes p =
      if out_of_table 0 fd
      then returns minus_one (some buf) p
      else if (file p fd).flags == file_avail
      then returns minus_one (some buf) p
      else read_by (file p fd).file_ops_table_ptr fd buf nbytes p

-- `rtc_write` takes the descriptor for its pointer: it reads a word of the page at address 0, which
-- `paging_init` leaves not present.
unfoldable pub write_by : Ops → (fd : ℕ) → (ℕ → ℕ) → (nbytes : ℕ) → Process → Outcome
write_by no_ops fd buf nbytes p = faults
write_by terminal_ops fd buf nbytes p =
    let (r, t) = terminal_write fd (some buf) nbytes p.terminal in
    returns r (some buf) (record p { terminal = t })
write_by file_ops fd buf nbytes p = returns file_write (some buf) p
write_by directory_ops fd buf nbytes p = returns directory_write (some buf) p
write_by rtc_ops fd buf nbytes p = faults

unfoldable pub write : (fd : ℕ) → (ℕ → ℕ) → (nbytes : ℕ) → Process → Outcome
write fd buf nbytes p =
    if out_of_table 0 fd
    then returns minus_one (some buf) p
    else if (file p fd).flags == file_avail
    then returns minus_one (some buf) p
    else write_by (file p fd).file_ops_table_ptr fd buf nbytes p

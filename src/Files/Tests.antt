-- ===== src/Files/Tests.antt =====
-- A process that opens the regular file "ab" and the clock "c", and the theorems at it.
use cheet_os.Base.{
  ℕ, zero, suc, ◌+◌, ◌-◌, ◌<◌, ◌≡◌, refl, min, true, none, some, List, [], ◌∷◌, ◌++◌, ◌==◌, arith,
  if◌then◌else◌, get_or, set, replicate, minus_one, ltb,
}
use cheet_os.Io.{Device}
use cheet_os.Filesys.{
  Image, Dentry, byte_at, word_at, bytes_at, inode_count, data_count, inode_length, data_block_num,
  direntries, strncmp, strncmp_from, read_dentry_by_index, read_dentry_by_name, find_from, flength,
}
use cheet_os.Filesys.Contents.{file_byte, slice, HasBlocks}
use cheet_os.Rtc.{Rtc}
use cheet_os.Terminal.{Terminal}
use cheet_os.Files.{
  File, terminal_file, Process, file, file_avail, file_ops, blank, opened, init_file_array,
  free_from, open_file, open_as, file_open, open_found, open_entry, returns, store_bytes, close,
  read, write, Events, num_max_open_files,
}
use cheet_os.Files.Table.{IsTable, is_entry, Keeps, open_file-Keeps}
use cheet_os.Files.Sequence.{IsOpen, moved, read-slice, read-bad_inode, close-blank}
use cheet_os.Files.Clock.{open_file-rtc}

abbrev contents : ℕ → ℕ
contents a =
    if a == 4
    then 2
    else if a == 8
    then 2
    else if a == 64
    then b'a'
    else if a == 65
    then b'b'
    else if a == 96
    then 2
    else if a == 100
    then 1
    else if a == 128
    then b'c'
    else if a == 8192
    then 5
    else if a == 8196
    then 1
    else if a == 16384
    then 10
    else if a == 16385
    then 20
    else if a == 16386
    then 30
    else if a == 16387
    then 40
    else if a == 16388
    then 50
    else 0

abbrev disk : Image
disk = record { mem = λ a. contents (a - 0x1000); fs_ptr = 0x1000 }

disk-HasBlocks : HasBlocks disk 1
unfolding inode_length data_block_num data_count word_at byte_at
disk-HasBlocks zero h = refl
disk-HasBlocks (suc i) h = absurd (omega arith)

abbrev ab : List ℕ
ab = b'a' ∷ b'b' ∷ []

abbrev ab_entry : Dentry
ab_entry = record {
  filename = ab ++ replicate 30 0;
  filetype = 2;
  inode_num = 1;
  reserved = replicate 24 0;
}

abbrev c_entry : Dentry
c_entry = record {
  filename = b'c' ∷ replicate 31 0;
  filetype = 0;
  inode_num = 0;
  reserved = replicate 24 0;
}

finds_ab : read_dentry_by_name disk (some ab) ≡ some ab_entry
unfolding read_dentry_by_name find_from strncmp strncmp_from read_dentry_by_index direntries
    bytes_at word_at byte_at
finds_ab = refl

finds_c : read_dentry_by_name disk (some (b'c' ∷ [])) ≡ some c_entry
unfolding read_dentry_by_name find_from strncmp strncmp_from read_dentry_by_index direntries
    bytes_at word_at byte_at
finds_c = refl

abbrev chip : Device
chip log = 0x26

abbrev nothing : Events
nothing = record { keys = []; ticks = [] }

abbrev console : Terminal
console = record {
  keyboard = record { ctrl_stat = 0; shift_stat = 0; alt_stat = 0; caps_stat = 0; pushed_key = 0 };
  screen = record { video = λ a. 0; screen_x = 0; screen_y = 0; log = [] };
}

abbrev clock : Rtc
clock = record {
  intflag = 0;
  rtc_call_count = 0;
  pic = record { master_mask = 0xFF; slave_mask = 0xFF; log = [] };
}

-- A process as it starts, with "ab" open at position 3, with an inode that the image does not have,
-- and with a full table.
abbrev fresh : Process
fresh = record { image = disk; file_array = init_file_array []; terminal = console; rtc = clock }

abbrev with_file : File → Process
with_file f = record {
  image = disk;
  file_array = terminal_file ∷ terminal_file ∷ f ∷ replicate 5 blank;
  terminal = console;
  rtc = clock;
}

abbrev reading : Process
reading = with_file (record (opened file_ops 1) { file_position = 3 })

abbrev broken : Process
broken = with_file (opened file_ops 7)

abbrev full : Process
full = record fresh { file_array = replicate 8 (opened file_ops 1) }

reading-IsOpen : IsOpen reading 2 1 3
reading-IsOpen = record { low = omega arith; high = omega arith; size = refl; entry = refl }

broken-IsOpen : IsOpen broken 2 7 0
broken-IsOpen = record { low = omega arith; high = omega arith; size = refl; entry = refl }

reading-IsTable : IsTable reading.file_array
reading-IsTable = record { size = refl; entry = entries }
  where
    entries :
        (fd : ℕ) → fd < num_max_open_files → is_entry fd (get_or reading.file_array fd blank) ≡ true
    entries zero h = refl
    entries (suc zero) h = refl
    entries (suc (suc zero)) h = refl
    entries (suc (suc (suc zero))) h = refl
    entries (suc (suc (suc (suc zero)))) h = refl
    entries (suc (suc (suc (suc (suc zero))))) h = refl
    entries (suc (suc (suc (suc (suc (suc zero)))))) h = refl
    entries (suc (suc (suc (suc (suc (suc (suc zero))))))) h = refl
    entries (suc (suc (suc (suc (suc (suc (suc (suc n)))))))) h = absurd (omega arith)

opens_ab : (open_file chip (some ab) fresh).0 ≡ 2
unfolding open_file open_as file_open open_found open_entry free_from init_file_array
    read_dentry_by_name find_from strncmp strncmp_from read_dentry_by_index direntries bytes_at
    word_at byte_at
opens_ab = refl

read-slice_example :
    let m = min 4 (flength disk 1 - 3) in
    (read chip nothing 2 (λ a. 0) 4 reading
      ≡ returns m (some (store_bytes (λ a. 0) 0 (slice disk 1 3 m))) (moved reading-IsOpen (3 + m)))
    × IsOpen (moved reading-IsOpen (3 + m)) 2 1 (3 + m)
    × ((i : ℕ)
        → store_bytes (λ a. 0) 0 (slice disk 1 3 m) i
          ≡ (if ltb i m then file_byte disk 1 (3 + i) else 0))
read-slice_example =
    read-slice reading-IsOpen chip nothing (λ a. 0) 4 disk-HasBlocks
      (unfold inode_count in unfold word_at in unfold byte_at in omega arith) (omega arith)

close-blank_example :
    let q = record reading { file_array = set reading.file_array 2 blank } in
    (close 2 reading ≡ returns 0 none q)
    × (file q 2 ≡ blank)
    × (close 2 q ≡ returns minus_one none q)
close-blank_example = close-blank reading-IsOpen

open_file-Keeps_example : Keeps reading (open_file chip (some ab) reading).1
open_file-Keeps_example = open_file-Keeps chip reading-IsTable (some ab)

read-bad_inode_example :
    read chip nothing 2 (λ a. 9) 4 broken
    ≡ returns minus_one (some (λ a. 9)) (moved broken-IsOpen (if 0 == 0 then minus_one else 0 - 1))
read-bad_inode_example =
    read-bad_inode broken-IsOpen chip nothing (λ a. 9) 4
      (unfold inode_count in unfold word_at in unfold byte_at in omega arith) (omega arith)

open_file-rtc_example :
    let (fd, q) = open_file chip (some (b'c' ∷ [])) fresh in
    (fd ≡ free_from fresh.file_array 6 2)
    × ((file q fd).flags ≡ file_avail)
    × (read chip nothing fd (λ a. 0) 4 q ≡ returns minus_one (some (λ a. 0)) q)
    × (write fd (λ a. 0) 4 q ≡ returns minus_one (some (λ a. 0)) q)
    × (close fd q ≡ returns minus_one none q)
unfolding init_file_array free_from
open_file-rtc_example =
    open_file-rtc chip nothing fresh (b'c' ∷ []) c_entry (λ a. 0) 4 refl (omega arith) finds_c refl
      (omega arith)

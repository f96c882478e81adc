-- ===== src/Files/Clock.antt =====
-- The clock's descriptor: `open` returns one that it leaves free, so no other call accepts it.
use cheet_os.Base.{
  ℕ, zero, suc, ◌+◌, ◌<◌, ◌≡◌, refl, ◌∙◌, ap, false, none, some, List, ◌==◌, leb, get_or, set,
  length, length-set, arith, minus_one,
}
use cheet_os.Io.{Device}
use cheet_os.Filesys.{Dentry, filename_len, read_dentry_by_name}
use cheet_os.Rtc.{rtc_open}
use cheet_os.Files.{
  File, blank, of_clock, Process, file, num_max_open_files, file_avail, free_from, open_entry,
  open_found, file_open, open_as, open_file, returns, close, read, write, Events,
}
use cheet_os.Files.Table.{get_or-set, free_from-free}

-- What the scan for a free descriptor finds depends on the flags only.
free_from-flags :
    (xs ys : List File) (todo idx : ℕ)
    → ((j : ℕ) → (get_or xs j blank).flags ≡ (get_or ys j blank).flags)
    → free_from xs todo idx ≡ free_from ys todo idx
unfolding free_from
free_from-flags xs ys zero idx h = refl
free_from-flags xs ys (suc todo) idx h =
    ground (arith, h idx, free_from-flags xs ys todo (idx + 1) h)

of_clock-flags :
    (files : List File) (idx inode j : ℕ)
    → idx < length files
    → (get_or (set files idx (of_clock inode (get_or files idx blank))) j blank).flags
      ≡ (get_or files j blank).flags
of_clock-flags files idx inode j h =
    ground (arith, get_or-set files idx j (of_clock inode (get_or files idx blank)) h)

-- A free descriptor is refused by every call.
refused :
    (device : Device) (events : Events) (p : Process) (fd : ℕ) (buf : ℕ → ℕ) (nbytes : ℕ)
    → (file p fd).flags ≡ file_avail
    → (read device events fd buf nbytes p ≡ returns minus_one (some buf) p)
      × (write fd buf nbytes p ≡ returns minus_one (some buf) p)
      × (close fd p ≡ returns minus_one none p)
unfolding read write close
refused device events p fd buf nbytes free = (ground arith, ground arith, ground arith)

-- The process after one `file_open` of the clock at `idx`.
abbrev clocked : Device → Dentry → (idx : ℕ) → Process → Process
clocked device d idx p = record p {
  file_array = set p.file_array idx (of_clock d.inode_num (file p idx));
  rtc = (rtc_open device p.rtc).1;
}

length-clocked :
    (device : Device) (d : Dentry) (idx : ℕ) (p : Process)
    → length (clocked device d idx p).file_array ≡ length p.file_array
length-clocked device d idx p = length-set p.file_array idx (of_clock d.inode_num (file p idx))

clocked-free_from :
    (device : Device) (d : Dentry) (p : Process) (idx : ℕ)
    → length p.file_array ≡ num_max_open_files
    → idx < num_max_open_files
    → free_from (clocked device d idx p).file_array 6 2 ≡ free_from p.file_array 6 2
clocked-free_from device d p idx size h =
    free_from-flags _ p.file_array 6 2
      (λ j. of_clock-flags p.file_array idx d.inode_num j (omega (arith, size)))

file_open-clocked :
    (device : Device) (p : Process) (name : List ℕ) (d : Dentry)
    → length name < filename_len
    → read_dentry_by_name p.image (some name) ≡ some d
    → d.filetype ≡ 0
    → free_from p.file_array 6 2 < num_max_open_files
    → let idx = free_from p.file_array 6 2 in
      file_open device (some name) p ≡ (idx, clocked device d idx p)
unfolding file_open open_found open_entry
file_open-clocked device p name d short found clock room =
    let short' : leb filename_len (length name) ≡ false = ground arith in
    let room' : leb num_max_open_files (free_from p.file_array 6 2) ≡ false = ground arith in
    rw (short', found) (rw room' (rw clock refl))

-- The two runs of `file_open` in `open`, through its fall through, find the same descriptor.
open_file-clocked :
    (device : Device) (p : Process) (name : List ℕ) (d : Dentry)
    → length p.file_array ≡ num_max_open_files
    → length name < filename_len
    → read_dentry_by_name p.image (some name) ≡ some d
    → d.filetype ≡ 0
    → free_from p.file_array 6 2 < num_max_open_files
    → let idx = free_from p.file_array 6 2 in
      open_file device (some name) p ≡ (idx, clocked device d idx (clocked device d idx p))
unfolding open_file open_as
open_file-clocked device p name d size short found clock room =
    let idx = free_from p.file_array 6 2 in
    let once = clocked device d idx p in
    let same = clocked-free_from device d p idx size room in
    let first = file_open-clocked device p name d short found clock room in
    let second = file_open-clocked device once name d short found clock (omega (arith, same)) in
    let done : (idx == minus_one) ≡ false = ground arith in
    rw (found, open_file)
      (rw clock (rw first (rw done (second ∙ ap (λ i. (i, clocked device d i once)) same))))

-- `open` on the clock's name, shorter than 32 bytes, when a descriptor is free, returns the first
-- free one and leaves it free: `read` and `write` on it return -1 and do nothing, and so does
-- `close`.
pub open_file-rtc :
    (device : Device) (events : Events) (p : Process) (name : List ℕ) (d : Dentry) (buf : ℕ → ℕ)
    (nbytes : ℕ)
    → length p.file_array ≡ num_max_open_files
    → length name < filename_len
    → read_dentry_by_name p.image (some name) ≡ some d
    → d.filetype ≡ 0
    → free_from p.file_array 6 2 < num_max_open_files
    → let (fd, q) = open_file device (some name) p in
      (fd ≡ free_from p.file_array 6 2)
      × ((file q fd).flags ≡ file_avail)
      × (read device events fd buf nbytes q ≡ returns minus_one (some buf) q)
      × (write fd buf nbytes q ≡ returns minus_one (some buf) q)
      × (close fd q ≡ returns minus_one none q)
open_file-rtc device events p name d buf nbytes size short found clock room =
    let files = p.file_array in
    let fd = free_from files 6 2 in
    let once = clocked device d fd p in
    let again = clocked device d fd once in
    let same = clocked-free_from device d p fd size room in
    let run = open_file-clocked device p name d size short found clock room in
    let free : (file again fd).flags ≡ file_avail =
      of_clock-flags (once.file_array) fd d.inode_num fd
        (omega (arith, length-clocked device d fd p, size, room))
      ∙ of_clock-flags files fd d.inode_num fd (omega (arith, size, room))
      ∙ free_from-free files 6 2 room in
    let (no_read, no_write, no_close) = refused device events again fd buf nbytes free in
    rw run (refl, free, no_read, no_write, no_close)

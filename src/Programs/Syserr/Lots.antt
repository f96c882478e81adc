-- ===== src/Programs/Syserr/Lots.antt =====
-- The test of syserr that opens the directory until no descriptor is free.
use cheet_os.Base.{
  ℕ, ◌≤◌, ◌≡◌, refl, ◌∙◌, ap, some, List, ◌∷◌, bytes, replicate, ◌<◌, ◌++◌, length, set, arith,
  minus_one,
}
use cheet_os.Io.{Device}
use cheet_os.Screen.{puts, puts_from}
use cheet_os.Filesys.{Image, Dentry, read_dentry_by_name}
use cheet_os.Rtc.{Rtc}
use cheet_os.Files.Sequence.{open_file-full}
use cheet_os.Programs.Ls.{open_file-IsListing}
use cheet_os.Programs.Support.{text_at_lem}
use cheet_os.Printf.{text_at}
use cheet_os.Terminal.{Terminal, terminal_write, write_from}
use cheet_os.Files.{
  Process, File, Events, terminal_file, blank, opened, directory_ops, free_from, open_entry,
  open_found, file_open, directory_open, open_as, open_file,
}
use cheet_os.Files
use cheet_os.Tasks.{Kernel}
use cheet_os.Programs.{Calls, literal, ece391_strlen, ece391_fdputs, leave}
use cheet_os.Programs.Kernel.{kernel_calls}
use cheet_os.Programs.Syserr.{open_lots, close_lots, err_open_lots}
use cheet_os.Programs.Syserr.Passes.{Passes, started}

module _ (device : Device) (events : Events) (bound esp : ℕ) (k : Kernel) (enough : 2 ≤ bound)
    (im : Image) (t : Terminal) (r : Rtc) (d : Dentry)
    (found : read_dentry_by_name im (some (bytes ".")) ≡ some d) (dir : d.filetype ≡ 1) where
  abbrev sys : Calls Process
  sys = kernel_calls device events bound esp k

  abbrev listing : File
  listing = opened directory_ops d.inode_num

  -- The table with `n` descriptors open on the directory, and `left` of them free.
  abbrev having : (n left : ℕ) → Process
  having n left = record (started im t r) {
    file_array = terminal_file ∷ terminal_file ∷ (replicate n listing ++ replicate left blank);
  }

  named : text_at bound (literal (bytes ".")) 0 ≡ some (bytes ".")
  named =
      text_at_lem (literal (bytes ".")) (bytes ".") bound 0 (refl, omega arith, refl)
        (omega (arith, enough))

  opens :
      (p : Process) (files : List File) (fd : ℕ)
      → p.image ≡ im
      → length p.file_array ≡ 8
      → free_from p.file_array 6 2 ≡ fd
      → fd < 8
      → set p.file_array fd listing ≡ files
      → sys.open_file (literal (bytes ".")) p ≡ some (fd, record p { file_array = files })
  unfolding kernel_calls
  opens p files fd image size free room made = rw named (
      ap some (
        (open_file-IsListing device p d size (rw image found) dir (rw free room)).0
        ∙ ap (λ n. (n, record p { file_array = set p.file_array n listing })) free
        ∙ ap (λ fs. (fd, record p { file_array = fs })) made))

  refused : sys.open_file (literal (bytes ".")) (having 6 0) ≡ some (minus_one, having 6 0)
  unfolding kernel_calls free_from
  refused = rw named (ap some (open_file-full device (having 6 0) (omega arith) (some (bytes "."))))

  open_lots_lem : open_lots sys 7 0 (started im t r) ≡ some (1, having 6 0)
  unfolding open_lots free_from
  open_lots_lem =
      rw (opens (having 0 6) (having 1 5).file_array 2 refl refl refl (omega arith) refl) (
        rw (opens (having 1 5) (having 2 4).file_array 3 refl refl refl (omega arith) refl) (
          rw (opens (having 2 4) (having 3 3).file_array 4 refl refl refl (omega arith) refl) (
            rw (opens (having 3 3) (having 4 2).file_array 5 refl refl refl (omega arith) refl) (
              rw (opens (having 4 2) (having 5 1).file_array 6 refl refl refl (omega arith) refl) (
                rw (opens (having 5 1) (having 6 0).file_array 7 refl refl refl (omega arith) refl)
                  (rw refused refl))))))

  close_lots_lem : close_lots sys 6 2 (having 6 0) ≡ some (started im t r)
  unfolding close_lots kernel_calls Files.close Files.close_by Files.directory_close
      Files.file_close
  close_lots_lem = refl

  -- In a process that has just started, with a directory "." on the image: the test that opens it seven
  -- times passes. Six openings take the six descriptors, the seventh returns -1, and closing the six
  -- leaves the process as it was, but for the message on the screen.
  pub err_open_lots-Passes :
      Passes (bytes "err_open_lots: PASS\n") (started im t r) (err_open_lots sys (started im t r))
  unfolding err_open_lots leave ece391_fdputs ece391_strlen kernel_calls Files.write Files.write_by
      terminal_write write_from puts puts_from
  err_open_lots-Passes = rw (open_lots_lem, err_open_lots) (rw (close_lots_lem, err_open_lots) refl)

-- ===== src/Programs/Ls.antt =====
-- syscalls/ece391ls.c with the calls of the kernel: it lists the directory.
use cheet_os.Base.{
  ℕ, zero, suc, ◌+◌, ◌<◌, ◌≤◌, ◌≡◌, refl, ◌≢◌, ◌∙◌, ap, sym, true, false, some, [], ◌∷◌, ◌++◌, ◌==◌,
  leb, get_or, set, get_or-set_ne, get_or-set_self, arith, length, length-append, length-set,
  minus_one, bytes, add32,
}
use cheet_os.Io.{Device}
use cheet_os.Filesys.{Image, Dentry, num_files, read_dentry_by_index, read_dentry_by_name}
use cheet_os.Screen.{Screen, puts, store}
use cheet_os.Terminal.Output.{text}
use cheet_os.Printf.Rendered.{put_all, puts_from-put_all, put_all-append}
use cheet_os.Files.{
  File, Process, file, returns, Events, terminal_file, free_from, opened, directory_ops,
  num_max_open_files, store_bytes, blank, directory_read, list_entry, out_of_table, file_avail,
}
use cheet_os.Files
use cheet_os.Files.Table.{free_from-le}
use cheet_os.Tasks.{Kernel}
use cheet_os.Programs.{Calls, ls_from, ls, literal}
use cheet_os.Programs.Support.{text_at_lem}
use cheet_os.Programs.Kernel.{kernel_calls, puts_from-length, write-stdout}
use cheet_os.Programs.Cat.{Prints}
use cheet_os.Programs.Listing.{
  name_of, listing, line_of, line_of-text, name_of-real, name_of-length,
}

-- Descriptor `fd` is open on the directory, at entry `position`.
pub record IsListing (p : Process) (fd position : ℕ) : Type 0 where
  pub low : 2 ≤ fd
  pub high : fd < num_max_open_files
  pub size : length p.file_array ≡ num_max_open_files
  pub ops : (file p fd).file_ops_table_ptr ≡ directory_ops
  pub open_to_calls : (file p fd).flags ≡ 0
  pub at_entry : (file p fd).file_position ≡ position

abbrev behind : Process → (fd position : ℕ) → Process
behind p fd position = record p {
  file_array = set p.file_array fd (record (file p fd) { file_position = position });
}

IsListing-next :
    {p : Process} {fd position : ℕ} (next : ℕ)
    → IsListing p fd position
    → IsListing (behind p fd next) fd next
IsListing-next {p} {fd} next o =
    let there =
      get_or-set_self p.file_array fd (record (file p fd) { file_position = next }) blank
        (omega (arith, o.high, o.size)) in
    record {
      low = o.low;
      high = o.high;
      size = length-set p.file_array fd _ ∙ o.size;
      ops = ap (λ (f : File). f.file_ops_table_ptr) there ∙ o.ops;
      open_to_calls = ap (λ (f : File). f.flags) there ∙ o.open_to_calls;
      at_entry = ap (λ (f : File). f.file_position) there;
    }

-- One read of the directory.
read-name :
    {p : Process} {fd position : ℕ} (device : Device) (events : Events) (buf : ℕ → ℕ) (nbytes : ℕ)
    → IsListing p fd position
    → position < num_files
    → let name = name_of p.image position in
      Files.read device events fd buf nbytes p
      ≡ returns
          (length name)
          (some (store (store_bytes buf 0 name) (length name) 0))
          (behind p fd (position + 1))
unfolding Files.read Files.read_by directory_read list_entry read_dentry_by_index
read-name {p} {fd} {position} device events buf nbytes o lt =
    let inside : out_of_table 0 fd ≡ false = ground (arith, o.high) in
    let used : ((file p fd).flags == file_avail) ≡ false = ground (arith, o.open_to_calls) in
    let there : leb num_files position ≡ false = ground arith in
    let next : add32 position 1 ≡ position + 1 = omega arith in
    rw (inside, used)
      (rw (o.ops, o.at_entry) (rw (there, list_entry) (rw (o.at_entry, next, o.ops) refl)))

-- Opening the directory.
pub open_file-IsListing :
    (device : Device) (p : Process) (d : Dentry)
    → length p.file_array ≡ num_max_open_files
    → read_dentry_by_name p.image (some (bytes ".")) ≡ some d
    → d.filetype ≡ 1
    → free_from p.file_array 6 2 < num_max_open_files
    → let fd = free_from p.file_array 6 2 in
      let q = record p { file_array = set p.file_array fd (opened directory_ops d.inode_num) } in
      (Files.open_file device (some (bytes ".")) p ≡ (fd, q)) × IsListing q fd 0
unfolding Files.open_file Files.open_as Files.directory_open Files.file_open Files.open_found
    Files.open_entry
open_file-IsListing device p d size found directory room =
    let fd = free_from p.file_array 6 2 in
    let room' : leb num_max_open_files fd ≡ false = ground arith in
    let there =
      get_or-set_self p.file_array fd (opened directory_ops d.inode_num) blank (omega arith) in
    (
      rw (found, Files.open_file)
          (rw directory (
            rw (found, Files.directory_open)
              (rw directory (rw (found, room') (rw directory refl))))),
      record {
        low = omega (arith, free_from-le p.file_array 6 2);
        high = room;
        size = length-set p.file_array fd _ ∙ size;
        ops = ap (λ (f : File). f.file_ops_table_ptr) there;
        open_to_calls = ap (λ (f : File). f.flags) there;
        at_entry = ap (λ (f : File). f.file_position) there;
      },
    )

-- The line that is put for an entry.
shown_line :
    (p : Process) (buf : ℕ → ℕ) (position : ℕ)
    → let name = name_of p.image position in
      let shown = puts (text (line_of buf name) (length name + 1) 0) p.terminal.screen in
      (shown.0 ≡ length name + 1) × (shown.1 ≡ put_all (name ++ (b'\n' ∷ [])) p.terminal.screen)
unfolding puts
shown_line p buf position =
    let name = name_of p.image position in
    let chars = line_of-text buf name (name_of-real p.image position) in
    (
      puts_from-length _ 0 p.terminal.screen
          ∙ ap (λ l. 0 + length l) chars
          ∙ omega (arith, length-append name (b'\n' ∷ [])),
      puts_from-put_all _ 0 p.terminal.screen ∙ ap (λ l. put_all l p.terminal.screen) chars,
    )

listing-join :
    (im : Image) (i n : ℕ) (s s1 : Screen)
    → s1 ≡ put_all (name_of im i ++ (b'\n' ∷ [])) s
    → put_all (listing im (i + 1) n) s1 ≡ put_all (listing im i (suc n)) s
unfolding listing
listing-join im i n s s1 first =
    rw first (sym (put_all-append (name_of im i ++ (b'\n' ∷ [])) (listing im (i + 1) n) s))

module _ (device : Device) (events : Events) (bound esp : ℕ) (k : Kernel) where
  abbrev sys : Calls Process
  sys = kernel_calls device events bound esp k

  ls_from-Prints :
      (left fuel fd position : ℕ) (buf : ℕ → ℕ) {p : Process}
      → IsListing p fd position
      → file p 1 ≡ terminal_file
      → position + left < num_files
      → ((i : ℕ) → position ≤ i → i < position + left → length (name_of p.image i) ≢ 0)
      → length (name_of p.image (position + left)) ≡ 0
      → left < fuel
      → Prints (listing p.image position left) p.terminal.screen (ls_from sys fuel fd buf p)
  unfolding ls_from kernel_calls listing put_all
  ls_from-Prints left zero fd position buf o out room named last enough = absurd (omega arith)
  ls_from-Prints zero (suc fuel) fd position buf {p} o out room named last enough =
      let ended : (length (name_of p.image position) == 0) ≡ true = ground (
        arith,
        last,
        ap (λ i. length (name_of p.image i)) {x = position + 0} {y = position} (omega arith),
      ) in
      rw (read-name device events buf 32 o (omega arith))
        (rw ended (behind p fd (position + 1), refl, refl))
  ls_from-Prints (suc left) (suc fuel) fd position buf {p} o out room named last enough =
      let name = name_of p.image position in
      let real = named position (omega arith) (omega arith) in
      let short = name_of-length p.image position in
      let more : (length name == 0) ≡ false = ground (arith, real) in
      let good : (length name == minus_one) ≡ false = ground (arith, short) in
      let p1 = behind p fd (position + 1) in
      let buf2 = line_of buf name in
      let shown = puts (text buf2 (length name + 1) 0) p.terminal.screen in
      let p2 : Process = record p1 { terminal = record p1.terminal { screen = shown.1 } } in
      let out1 : file p1 1 ≡ terminal_file =
        get_or-set_ne p.file_array fd 1 _ blank (λ e. absurd (omega (arith, o.low, e))) ∙ out in
      let (count, seen) = shown_line p buf position in
      let kept : (shown.0 == minus_one) ≡ false = ground (arith, count, short) in
      let o1 = IsListing-next (position + 1) o in
      let o2 : IsListing p2 fd (position + 1) = record {
        low = o1.low;
        high = o1.high;
        size = o1.size;
        ops = o1.ops;
        open_to_calls = o1.open_to_calls;
        at_entry = o1.at_entry;
      } in
      let (q, ran, screen) =
        ls_from-Prints left fuel fd (position + 1) buf2 {p = p2} o2 out1 (omega arith)
          (λ i lo hi. named i (omega arith) (omega arith))
          (ap (λ i. length (name_of p.image i)) {x = position + 1 + left} {y = position + suc left}
              (omega arith)
            ∙ last)
          (omega arith) in
      rw (read-name device events buf 32 o (omega arith)) (
        rw (more, good)
          (rw (write-stdout buf2 (length name + 1) p1 out1) (
            rw kept (
              q,
              ran,
              screen ∙ listing-join p.image position left p.terminal.screen shown.1 seen,
            ))))

  -- `ls` on a process with a free descriptor and the terminal as standard output, on an image whose
  -- directory has the entry "." of the directory's type, names that are not empty in its first `n` entries
  -- and an empty one behind them: it ends with status 0, and the terminal has been given those names in
  -- order, each cut to 32 characters and followed by a new line. The fuel is enough for a read of each.
  pub ls-Prints :
      (fuel n : ℕ) (buf : ℕ → ℕ) (p : Process) (d : Dentry)
      → n < num_files
      → ((i : ℕ) → i < n → length (name_of p.image i) ≢ 0)
      → length (name_of p.image n) ≡ 0
      → n < fuel
      → 2 ≤ bound
      → length p.file_array ≡ num_max_open_files
      → file p 1 ≡ terminal_file
      → free_from p.file_array 6 2 < num_max_open_files
      → read_dentry_by_name p.image (some (bytes ".")) ≡ some d
      → d.filetype ≡ 1
      → Prints (listing p.image 0 n) p.terminal.screen (ls sys fuel buf p)
  unfolding ls kernel_calls
  ls-Prints fuel n buf p d room named last enough known size out free found directory =
      let fd = free_from p.file_array 6 2 in
      let asked =
        text_at_lem (literal (bytes ".")) (bytes ".") bound 0 (refl, omega arith, refl)
          (omega arith) in
      let good : (fd == minus_one) ≡ false = ground arith in
      let (opens, o) = open_file-IsListing device p d size found directory free in
      let out1 : get_or (set p.file_array fd (opened directory_ops d.inode_num)) 1 blank
          ≡ terminal_file =
        get_or-set_ne p.file_array fd 1 _ blank (λ e. absurd (omega (arith, o.low, e))) ∙ out in
      rw asked (
        rw opens (
          rw good (
            ls_from-Prints n fuel fd 0 buf o out1 (omega arith) (λ i lo hi. named i (omega arith))
              (ap (λ i. length (name_of p.image i)) {x = 0 + n} {y = n} (omega arith) ∙ last)
              enough)))

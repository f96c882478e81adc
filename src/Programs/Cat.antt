-- ===== src/Programs/Cat.antt =====
-- syscalls/ece391cat.c with the calls of the kernel: it prints the file.
use cheet_os.Base.{
  ℕ, zero, suc, ◌+◌, ◌-◌, ◌*◌, ◌^◌, ◌<◌, ◌≤◌, min, ◌≡◌, refl, ◌≢◌, ◌∙◌, ap, ap₂, sym, false, Option,
  some, List, ◌∷◌, ◌==◌, get_or, set, get_or-set_ne, arith, length, minus_one, Bool-cases, inl, inr,
}
use cheet_os.Io.{Device}
use cheet_os.Filesys.{
  Image, Dentry, filename_len, inode_count, flength, inode_length, word_at, byte_at,
  read_dentry_by_name,
}
use cheet_os.Filesys.Contents.{file_byte, slice, slice-add, HasBlocks, length-slice}
use cheet_os.Screen.{Screen, puts, store}
use cheet_os.Terminal.Output.{text}
use cheet_os.Printf.Rendered.{put_all, puts_from-put_all, put_all-append}
use cheet_os.Files.{
  Process, file, Events, terminal_file, free_from, opened, file_ops, num_max_open_files,
  store_bytes, blank,
}
use cheet_os.Files.Sequence.{IsOpen, moved, read-slice, open_file-IsOpen}
use cheet_os.Tasks.{Kernel, current_pcb}
use cheet_os.Tasks
use cheet_os.Programs.{Calls, cat_from, cat}
use cheet_os.Programs.Support.{text_at_lem}
use cheet_os.Programs.Kernel.{kernel_calls, puts_from-length, write-stdout, store_bytes-Holds}

-- The bytes of a buffer that agree with a slice of a file without zeros are its text.
text-slice :
    (im : Image) (buf : ℕ → ℕ) (inode n idx position : ℕ)
    → ((i : ℕ) → i < n → buf (idx + i) ≡ file_byte im inode (position + i))
    → ((i : ℕ) → i < n → file_byte im inode (position + i) ≢ 0)
    → text buf n idx ≡ slice im inode position n
unfolding text slice
text-slice im buf inode zero idx position same real = refl
text-slice im buf inode (suc n) idx position same real =
    let here : buf idx ≡ file_byte im inode position =
      ap buf {x = idx} {y = idx + 0} (omega arith)
      ∙ same 0 (omega arith)
      ∙ ap (file_byte im inode) {x = position + 0} {y = position} (omega arith) in
    let some_char : file_byte im inode position ≢ 0 = λ e.
      real 0 (omega arith)
        (ap (file_byte im inode) {x = position + 0} {y = position} (omega arith) ∙ e) in
    let on : (buf idx == 0) ≡ false = ground arith in
    rw on (
      ap₂ (λ c cs. c ∷ cs) here
        (text-slice im buf inode n (idx + 1) (position + 1)
          (λ i lt.
            ap buf {x = idx + 1 + i} {y = idx + suc i} (omega arith)
            ∙ same (suc i) (omega arith)
            ∙ ap (file_byte im inode) {x = position + suc i} {y = position + 1 + i} (omega arith))
          (λ i lt e. real (suc i) (omega arith) (
            ap (file_byte im inode) {x = position + suc i} {y = position + 1 + i} (omega arith)
            ∙ e))))

pub flength-lt : (im : Image) (inode : ℕ) → flength im inode < 2 ^ 32
unfolding flength inode_length word_at byte_at
flength-lt im inode = omega arith

-- Putting such a buffer.
shown_slice :
    (p : Process) (buf : ℕ → ℕ) (n inode position : ℕ)
    → ((i : ℕ) → i < n → buf (0 + i) ≡ file_byte p.image inode (position + i))
    → ((i : ℕ) → i < n → file_byte p.image inode (position + i) ≢ 0)
    → let shown = puts (text buf n 0) p.terminal.screen in
      (shown.0 ≡ n) × (shown.1 ≡ put_all (slice p.image inode position n) p.terminal.screen)
unfolding puts
shown_slice p buf n inode position same real =
    let chars = text-slice p.image buf inode n 0 position same real in
    (
      puts_from-length (text buf n 0) 0 p.terminal.screen
          ∙ ap (λ l. 0 + length l) chars
          ∙ omega (arith, length-slice p.image inode position n),
      puts_from-put_all (text buf n 0) 0 p.terminal.screen ∙ rw chars refl,
    )

-- Putting two slices one behind the other.
slice-join :
    (im : Image) (inode position m left rest : ℕ) (s s1 : Screen)
    → left ≡ m + rest
    → s1 ≡ put_all (slice im inode position m) s
    → put_all (slice im inode (position + m) rest) s1 ≡ put_all (slice im inode position left) s
slice-join im inode position m left rest s s1 split first =
    rw (split, first)
      (sym (
        ap (λ cs. put_all cs s) (slice-add im inode position m rest)
        ∙ put_all-append (slice im inode position m) (slice im inode (position + m) rest) s))

-- The program ends with status 0, and the screen has been given a text.
abbrev pub Prints : (cs : List ℕ) → Screen → Option (ℕ × Process) → Type 0
Prints cs s o = (q : Process) × (o ≡ some (0, q)) × (q.terminal.screen ≡ put_all cs s)

module _ (device : Device) (events : Events) (bound esp : ℕ) (k : Kernel) where
  abbrev sys : Calls Process
  sys = kernel_calls device events bound esp k

  module _ (fd inode : ℕ) where
    cat_from-Prints :
        (fuel position : ℕ) (buf : ℕ → ℕ) {p : Process}
        → IsOpen p fd inode position
        → file p 1 ≡ terminal_file
        → HasBlocks p.image inode
        → inode < inode_count p.image
        → flength p.image inode < 2 ^ 32
        → position ≤ flength p.image inode
        → ((i : ℕ) → i < flength p.image inode → file_byte p.image inode i ≢ 0)
        → flength p.image inode - position + 1024 ≤ 1024 * fuel
        → Prints
            (slice p.image inode position (flength p.image inode - position))
            p.terminal.screen
            (cat_from sys fuel fd buf p)
    unfolding cat_from kernel_calls slice put_all
    cat_from-Prints zero position buf o out sound inside small before real enough =
        absurd (omega arith)
    cat_from-Prints (suc fuel) position buf {p} o out sound inside small before real enough =
        let len = flength p.image inode in
        let m = min 1024 (len - position) in
        let (answered, o', stored) =
          read-slice o device events buf 1024 sound inside (omega arith) in
        elim (Bool-cases (m == 0)) [
          | inl end ↦
              let none_left : 0 ≡ len - position = ground arith in
              rw answered (
                rw end (
                  moved o (position + m),
                  refl,
                  ap (λ n. put_all (slice p.image inode position n) p.terminal.screen) none_left,
                ))
          | inr more ↦
              let some_left : 0 < m = ground arith in
              let good : (m == minus_one) ≡ false = ground arith in
              let p1 = moved o (position + m) in
              let buf1 = store_bytes buf 0 (slice p.image inode position m) in
              let shown = puts (text buf1 m 0) p.terminal.screen in
              let p2 : Process = record p1 { terminal = record p1.terminal { screen = shown.1 } } in
              let out1 : file p1 1 ≡ terminal_file =
                get_or-set_ne p.file_array fd 1 _ blank (λ e. absurd (omega (arith, o.low, e)))
                ∙ out in
              let (count, seen) =
                shown_slice p buf1 m inode position (λ i lt. ground (arith, stored i))
                  (λ i lt. real (position + i) (omega arith)) in
              let kept : (shown.0 == minus_one) ≡ false = ground arith in
              let o2 : IsOpen p2 fd inode (position + m) = record {
                low = o'.low;
                high = o'.high;
                size = o'.size;
                entry = o'.entry;
              } in
              let (q, ran, screen) =
                cat_from-Prints fuel (position + m) buf1 {p = p2} o2 out1 sound inside small
                  (omega arith) real (omega arith) in
              rw answered (
                rw (more, good)
                  (rw (write-stdout buf1 m p1 out1) (
                    rw kept (
                      q,
                      ran,
                      screen
                          ∙ slice-join p.image inode position m (len - position)
                              (len - (position + m)) p.terminal.screen shown.1 (omega arith) seen,
                    ))))
        ]

  -- `cat` on a process to which `getargs` gives the argument `name`, the name of a regular file of the
  -- image, shorter than 32 bytes and without a 0, with a free descriptor and the terminal as standard
  -- output, where the file is sound and holds no zero byte: it ends with status 0, and the terminal has
  -- been given the whole contents of the file, once and in order. The fuel is enough for a read of each
  -- 1024 bytes, or part of them, and one more that finds the end.
  pub cat-Prints :
      (fuel : ℕ) (buf : ℕ → ℕ) (p : Process) (name : List ℕ) (d : Dentry)
      → Tasks.getargs esp (some buf) 1024 k
        ≡ (0, some (store (store_bytes buf 0 name) (length name) 0))
      → ((i : ℕ) → i < length name → get_or name i 0 ≢ 0)
      → length name < filename_len
      → filename_len ≤ bound
      → length p.file_array ≡ num_max_open_files
      → file p 1 ≡ terminal_file
      → free_from p.file_array 6 2 < num_max_open_files
      → read_dentry_by_name p.image (some name) ≡ some d
      → d.filetype ≡ 2
      → HasBlocks p.image d.inode_num
      → d.inode_num < inode_count p.image
      → ((i : ℕ) → i < flength p.image d.inode_num → file_byte p.image d.inode_num i ≢ 0)
      → flength p.image d.inode_num + 1024 ≤ 1024 * fuel
      → Prints
          (slice p.image d.inode_num 0 (flength p.image d.inode_num))
          p.terminal.screen
          (cat sys fuel buf p)
  unfolding cat kernel_calls
  cat-Prints fuel buf p name d args chars short room size out free found regular sound inside real
        enough =
      let buf1 = store (store_bytes buf 0 name) (length name) 0 in
      let named = text_at_lem buf1 name bound 0 (store_bytes-Holds name buf chars) (omega arith) in
      let (opens, o) = open_file-IsOpen device p name d size short found regular free in
      let fd = free_from p.file_array 6 2 in
      let good : (fd == minus_one) ≡ false = ground arith in
      let out1 : get_or (set p.file_array fd (opened file_ops d.inode_num)) 1 blank
          ≡ terminal_file =
        get_or-set_ne p.file_array fd 1 _ blank (λ e. absurd (omega (arith, o.low, e))) ∙ out in
      let (q, ran, screen) =
        cat_from-Prints fd d.inode_num fuel 0 buf1 o out1 sound inside
          (flength-lt p.image d.inode_num) (omega arith) real (omega arith) in
      rw args (
        rw named (
          rw opens (
            rw good (
              q,
              ran,
              screen
                  ∙ ap (λ n. put_all (slice p.image d.inode_num 0 n) p.terminal.screen)
                      (omega arith),
            ))))

-- ===== src/Fish/Files.antt =====
-- `add_frames` on the kernel, from the names of two files of the image.
use cheet_os.Base.{
  ℕ, none, All, ◌+◌, ◌<◌, ◌≤◌, ◌≡◌, ◌≢◌, refl, ◌∙◌, sym, ap, inl, List, [], ◌∷◌, some, arith,
  length, set, get_or,
}
use cheet_os.Io.{Device}
use cheet_os.Filesys.{Dentry, filename_len, inode_count, flength, read_dentry_by_name}
use cheet_os.Filesys.Contents.{slice, HasBlocks, length-slice}
use cheet_os.Files.{
  Process, file, Events, opened, file_ops, free_from, num_max_open_files, file_occup,
}
use cheet_os.Files.Table.{free_from-free}
use cheet_os.Files.Sequence.{IsOpen, open_file-IsOpen}
use cheet_os.Tasks.{Kernel}
use cheet_os.Programs.{Calls, literal}
use cheet_os.Programs.Support.{Holds, text_at_lem}
use cheet_os.Programs.Kernel.{kernel_calls, values-Holds}
use cheet_os.Fish.Blinks.{Blink, Board, num_blinks}
use cheet_os.Fish.Chain.{Shows}
use cheet_os.Fish.Lit.{OnScreen, all_lit, add_all-Shows}
use cheet_os.Fish.{goes_on, add_frames}
use cheet_os.Fish.Frames.{add_all, lines, frame_blinks}
use cheet_os.Fish.Lines.{Source}
use cheet_os.Fish.Added.{add_frames-Adds}
use cheet_os.Fish.Kernel.{Left, Own, kernel_file, IsOpen-other}

-- The other order of the two files.
swapped :
    {σ : Type 0} {sys : Calls σ} {fd : ℕ} (S T : σ → Type 0) {mine other : σ → List ℕ → Type 0}
    → ((m : σ) → T m → S m)
    → ((m : σ) → S m → T m)
    → Source sys fd S mine other
    → Source sys fd T mine other
swapped S T to from file = record {
  more = λ m c cs buf ok left.
      let (b, q, ran, char, ok', rest, kept) = file.more m c cs buf (to m ok) left in
      (b, q, ran, char, from q ok', rest, kept);
  end = λ m buf ok left.
      let (b, q, ran, ok', kept) = file.end m buf (to m ok) left in (b, q, ran, from q ok', kept);
  close =
      λ m ok. let (v, q, ran, ok', kept) = file.close m (to m ok) in (v, q, ran, from q ok', kept);
}

-- A name that the program may open: a sound file of the image, under a name without a 0.
pub record Names (p : Process) (bound : ℕ) (name : List ℕ) (d : Dentry) : Type 0 where
  pub chars : (i : ℕ) → i < length name → get_or name i 0 ≢ 0
  pub short : length name < filename_len
  pub room : filename_len ≤ bound
  pub found : read_dentry_by_name p.image (some name) ≡ some d
  pub regular : d.filetype ≡ 2
  pub inside : d.inode_num < inode_count p.image
  pub blocks : HasBlocks p.image d.inode_num

get_or-end : (xs : List ℕ) → get_or xs (length xs) 0 ≡ 0
get_or-end [] = refl
get_or-end (x ∷ xs) = get_or-end xs

-- The process with the free descriptor that comes first open on a file.
abbrev pub with_open : Process → Dentry → Process
with_open p d = record p {
  file_array = set p.file_array (free_from p.file_array 6 2) (opened file_ops d.inode_num);
}

module _ (device : Device) (events : Events) (bound esp : ℕ) (k : Kernel) where
  opens :
      (p : Process) (name : List ℕ) (d : Dentry)
      → Names p bound name d
      → length p.file_array ≡ num_max_open_files
      → free_from p.file_array 6 2 < num_max_open_files
      → ((kernel_calls device events bound esp k).open_file (literal name) p
          ≡ some (free_from p.file_array 6 2, with_open p d))
        × IsOpen (with_open p d) (free_from p.file_array 6 2) d.inode_num 0
  unfolding kernel_calls
  opens p name d names size free =
      let held : Holds (literal name) 0 name =
        values-Holds name (literal name) 0
          (λ i lt. (ap (λ j. get_or name j 0) (omega arith), names.chars i lt))
          (ap (λ j. get_or name j 0) (omega arith) ∙ get_or-end name) in
      let (opened_, o) =
        open_file-IsOpen device p name d size names.short names.found names.regular free in
      (
        rw
            (text_at_lem (literal name) name bound 0 held
              (let a = names.short in let b = names.room in omega (arith, a, b)))
            (ap some opened_),
        o,
      )

  -- Two files of the image, under names without a 0, both sound, and a process with two free descriptors:
  -- `add_frames` comes to its end with fuel for both files, and has added, in their order, exactly the
  -- blinks of the two frames that the contents of the files show, line by line.
  pub add_frames_lem :
      (junk : Blink) (fuel : ℕ) (p : Process) (s : Board) (name0 name1 : List ℕ) (d0 d1 : Dentry)
      → Names p bound name0 d0
      → Names p bound name1 d1
      → length p.file_array ≡ num_max_open_files
      → free_from p.file_array 6 2 < num_max_open_files
      → free_from (with_open p d0).file_array 6 2 < num_max_open_files
      → flength p.image d0.inode_num + flength p.image d1.inode_num + 2 ≤ fuel
      → let text : Dentry → List ℕ =
          λ d. slice p.image d.inode_num 0 (flength p.image d.inode_num) in
        (q : Process) × (add_frames
            (kernel_calls device events bound esp k)
            junk
            fuel
            name0
            name1
            p
            s
          ≡ some (goes_on q (add_all (frame_blinks junk 0 (lines (text d0)) (lines (text d1))) s)))
  add_frames_lem junk fuel p s name0 name1 d0 d1 names0 names1 size free0 free1 enough =
      let fd0 = free_from p.file_array 6 2 in
      let p0 = with_open p d0 in
      let fd1 = free_from p0.file_array 6 2 in
      let p1 = with_open p0 d1 in
      let (open0, o0) = opens p name0 d0 names0 size free0 in
      let names1' : Names p0 bound name1 d1 = record {
        chars = names1.chars;
        short = names1.short;
        room = names1.room;
        found = names1.found;
        regular = names1.regular;
        inside = names1.inside;
        blocks = names1.blocks;
      } in
      let (open1, o1) = opens p0 name1 d1 names1' o0.size free1 in
      let apart : fd1 ≢ fd0 = λ e.
        let avail = free_from-free p0.file_array 6 2 free1 in
        let taken : (file p0 fd0).flags ≡ file_occup = ap (λ f. f.flags) o0.entry in
        absurd (omega (arith, sym avail ∙ ap (λ j. (file p0 j).flags) e ∙ taken)) in
      let o0' = IsOpen-other fd0 fd1 (opened file_ops d1.inode_num) apart o0 in
      let sys = kernel_calls device events bound esp k in
      let i0 = d0.inode_num in
      let i1 = d1.inode_num in
      let own0 : Own fd0 i0 p1 = (o0.low, o0.high, names0.inside, names0.blocks, inl (0, o0')) in
      let own1 : Own fd1 i1 p1 = (o1.low, o1.high, names1.inside, names1.blocks, inl (0, o1)) in
      let file0 = kernel_file device events bound esp k fd0 i0 fd1 i1 (λ e. apart (sym e)) in
      let file1 =
        swapped (λ q. Own fd1 i1 q × Own fd0 i0 q) (λ q. Own fd0 i0 q × Own fd1 i1 q)
          (λ q both. (both.1, both.0)) (λ q both. (both.1, both.0))
          (kernel_file device events bound esp k fd1 i1 fd0 i0 apart) in
      let text : Dentry → List ℕ = λ d. slice p.image d.inode_num 0 (flength p.image d.inode_num) in
      add_frames-Adds sys fd0 fd1 (λ q. Own fd0 i0 q × Own fd1 i1 q) (Left fd0 i0) (Left fd1 i1)
        file0 file1 junk fuel name0 name1 p p0 p1 s (text d0) (text d1) open0 open1
        (let h = o0.high in omega (arith, h)) (let h = o1.high in omega (arith, h)) (own0, own1)
        (0, o0', omega arith, ap (slice p.image i0 0) (omega arith))
        (0, o1, omega arith, ap (slice p.image i1 0) (omega arith))
        (let l0 = length-slice p.image i0 0 (flength p.image i0) in
          let l1 = length-slice p.image i1 0 (flength p.image i1) in omega (arith, enough, l0, l1))

  -- The same on a board without blinks, when all the places are on the screen and there is a struct for each
  -- of them: afterwards the list shows exactly these blinks, the last one first, each of them on and with
  -- its whole time to go.
  pub add_frames-Shows :
      (junk : Blink) (fuel : ℕ) (p : Process) (s : Board) (name0 name1 : List ℕ) (d0 d1 : Dentry)
      → Names p bound name0 d0
      → Names p bound name1 d1
      → length p.file_array ≡ num_max_open_files
      → free_from p.file_array 6 2 < num_max_open_files
      → free_from (with_open p d0).file_array 6 2 < num_max_open_files
      → flength p.image d0.inode_num + flength p.image d1.inode_num + 2 ≤ fuel
      → s.mp1_list_head ≡ none
      → ((j : ℕ) → (s.blink_array j).location ≡ 0)
      → let text : Dentry → List ℕ =
          λ d. slice p.image d.inode_num 0 (flength p.image d.inode_num) in
        let blinks = frame_blinks junk 0 (lines (text d0)) (lines (text d1)) in
        All OnScreen blinks
        → length blinks ≤ num_blinks
        → (q : Process) × (board : Board) × (add_frames
              (kernel_calls device events bound esp k)
              junk
              fuel
              name0
              name1
              p
              s
            ≡ some (goes_on q board))
          × Shows board (all_lit blinks [])
  add_frames-Shows junk fuel p s name0 name1 d0 d1 names0 names1 size free0 free1 enough head clear
        on room =
      let text : Dentry → List ℕ = λ d. slice p.image d.inode_num 0 (flength p.image d.inode_num) in
      let blinks = frame_blinks junk 0 (lines (text d0)) (lines (text d1)) in
      let (q, ran) =
        add_frames_lem junk fuel p s name0 name1 d0 d1 names0 names1 size free0 free1 enough in
      (q, add_all blinks s, ran, add_all-Shows blinks s head clear on room)

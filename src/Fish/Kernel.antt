-- ===== src/Fish/Kernel.antt =====
-- `add_frames` with the calls of the kernel: the two texts are the contents of two files.
use cheet_os.Base.{
  ℕ, zero, suc, ◌+◌, ◌-◌, ◌<◌, ◌≤◌, min, ◌≡◌, ◌≢◌, refl, ◌∙◌, sym, ap, ap₂, ◌⊎◌, inl, inr, List, [],
  ◌∷◌, none, some, ◌==◌, Bool-cases, arith, true, set, get_or, get_or-set_ne, length-set, minus_one,
}
use cheet_os.Io.{Device}
use cheet_os.Filesys.{Image, inode_count, flength}
use cheet_os.Filesys.Contents.{file_byte, slice, HasBlocks}
use cheet_os.Files.{
  Process, File, file, Events, blank, returns, num_max_open_files, file_avail, out_of_table,
  store_bytes, close,
}
use cheet_os.Files.Sequence.{IsOpen, moved, read-slice, close-blank}
use cheet_os.Tasks.{Kernel}
use cheet_os.Programs.{Calls}
use cheet_os.Programs.Kernel.{kernel_calls}
use cheet_os.Programs.Cat.{flength-lt}
use cheet_os.Fish.Lines.{Source}

-- The file of an inode is open, with a text left to read.
abbrev pub Left : (fd inode : ℕ) → Process → List ℕ → Type 0
Left fd inode p text =
    (position : ℕ) × IsOpen p fd inode position
    × (position ≤ flength p.image inode)
    × (text ≡ slice p.image inode position (flength p.image inode - position))

-- A descriptor of the program: open on its sound file, or free.
abbrev pub Own : (fd inode : ℕ) → Process → Type 0
Own fd inode p =
    (2 ≤ fd)
    × (fd < num_max_open_files)
    × (inode < inode_count p.image)
    × HasBlocks p.image inode
    × (((position : ℕ) × IsOpen p fd inode position) ⊎ ((file p fd).flags ≡ file_avail))

-- The same process with another descriptor changed.
abbrev other_file : Process → (fd : ℕ) → File → Process
other_file p fd f = record p { file_array = set p.file_array fd f }

pub IsOpen-other :
    {p : Process} {inode position : ℕ} (fd fd' : ℕ) (f : File)
    → fd' ≢ fd
    → IsOpen p fd inode position
    → IsOpen (other_file p fd' f) fd inode position
IsOpen-other {p} fd fd' f ne o = record {
  low = o.low;
  high = o.high;
  size = length-set p.file_array fd' f ∙ o.size;
  entry = get_or-set_ne p.file_array fd' fd f blank ne ∙ o.entry;
}

Own-other :
    {p : Process} (fd inode fd' : ℕ) (f : File)
    → fd' ≢ fd
    → Own fd inode p
    → Own fd inode (other_file p fd' f)
Own-other fd inode fd' f ne (low, high, inside, blocks, inl (position, o)) =
    (low, high, inside, blocks, inl (position, IsOpen-other fd fd' f ne o))
Own-other {p} fd inode fd' f ne (low, high, inside, blocks, inr free) = (
  low,
  high,
  inside,
  blocks,
  inr (ap (λ (g : File). g.flags) (get_or-set_ne p.file_array fd' fd f blank ne) ∙ free),
)

Left-other :
    {p : Process} (fd inode fd' : ℕ) (f : File) (text : List ℕ)
    → fd' ≢ fd
    → Left fd inode p text
    → Left fd inode (other_file p fd' f) text
Left-other fd inode fd' f text ne (position, o, lt, e) =
    (position, IsOpen-other fd fd' f ne o, lt, e)

-- A text that is left has its first character at the position.
Left-first :
    (im : Image) (inode position n c : ℕ) (cs : List ℕ)
    → c ∷ cs ≡ slice im inode position n
    → (0 < n) × (c ≡ file_byte im inode position) × (cs ≡ slice im inode (position + 1) (n - 1))
unfolding slice
Left-first im inode position zero c cs e = absurd (cons-nil e)
  where
    cons-nil : {x : ℕ} {xs : List ℕ} → x ∷ xs ≡ [] → ⊥
    cons-nil e = cc
Left-first im inode position (suc n) c cs e = (
  omega arith,
  ap (λ l. get_or l 0 0) e,
  ap tail e ∙ ap (slice im inode (position + 1)) (omega arith),
)
  where
    tail : List ℕ → List ℕ
    tail [] = []
    tail (x ∷ xs) = xs

Left-none : (im : Image) (inode position n : ℕ) → [] ≡ slice im inode position n → n ≡ 0
unfolding slice
Left-none im inode position zero e = refl
Left-none im inode position (suc n) e = cc

close-free :
    (p : Process) (fd : ℕ) → (file p fd).flags ≡ file_avail → close fd p ≡ returns minus_one none p
unfolding close
close-free p fd free =
    let test : ((file p fd).flags == file_avail) ≡ true = ground arith in
    elim (Bool-cases (out_of_table 2 fd)) [
      | inl out ↦ rw out refl
      | inr inside ↦ rw (inside, test) refl
    ]

module _ (device : Device) (events : Events) (bound esp : ℕ) (k : Kernel) (fd inode fd' inode' : ℕ)
    (ne : fd ≢ fd') where
  abbrev sys : Calls Process
  sys = kernel_calls device events bound esp k

  abbrev pub Both : Process → Type 0
  Both p = Own fd inode p × Own fd' inode' p

  more :
      (p : Process) (c : ℕ) (cs : List ℕ) (buf : ℕ → ℕ)
      → Both p
      → Left fd inode p (c ∷ cs)
      → (b : ℕ → ℕ) × (q : Process) × (sys.read fd buf 1 p ≡ some (1, b, q))
        × (b 0 ≡ c)
        × Both q
        × Left fd inode q cs
        × ((ds : List ℕ) → Left fd' inode' p ds → Left fd' inode' q ds)
  unfolding kernel_calls
  more p c cs buf (own, own') (position, o, lt, e) =
      let len = flength p.image inode in
      let (some_left, first, rest) = Left-first p.image inode position (len - position) c cs e in
      let (answer, o', stored) =
        read-slice o device events buf 1 own.3 own.2
          (omega (arith, lt, flength-lt p.image inode)) in
      let one : min 1 (len - position) ≡ 1 = omega arith in
      let b = store_bytes buf 0 (slice p.image inode position (min 1 (len - position))) in
      let q : Process = moved o (position + min 1 (len - position)) in
      let next : position + min 1 (len - position) ≡ position + 1 = omega arith in
      let f : File = record (file p fd) { file_position = position + min 1 (len - position) } in
      (
        b,
        q,
        rw answer (ap (λ n. some (n, b, q)) one),
        ground (arith, stored 0, first),
        (
          (own.0, own.1, own.2, own.3, inl (position + min 1 (len - position), o')),
          Own-other fd' inode' fd f ne own',
        ),
        (
          position + min 1 (len - position),
          o',
          omega arith,
          rest ∙ ap₂ (slice p.image inode) (sym next) (omega arith),
        ),
        λ ds left. Left-other fd' inode' fd f ds ne left,
      )

  at_end :
      (p : Process) (buf : ℕ → ℕ)
      → Both p
      → Left fd inode p []
      → (b : ℕ → ℕ) × (q : Process) × (sys.read fd buf 1 p ≡ some (0, b, q))
        × Both q
        × ((ds : List ℕ) → Left fd' inode' p ds → Left fd' inode' q ds)
  unfolding kernel_calls
  at_end p buf (own, own') (position, o, lt, e) =
      let len = flength p.image inode in
      let nothing = Left-none p.image inode position (len - position) e in
      let (answer, o', stored) =
        read-slice o device events buf 1 own.3 own.2
          (omega (arith, lt, flength-lt p.image inode)) in
      let zero_read : min 1 (len - position) ≡ 0 = omega arith in
      let b = store_bytes buf 0 (slice p.image inode position (min 1 (len - position))) in
      let q : Process = moved o (position + min 1 (len - position)) in
      let f : File = record (file p fd) { file_position = position + min 1 (len - position) } in
      (
        b,
        q,
        rw answer (ap (λ n. some (n, b, q)) zero_read),
        (
          (own.0, own.1, own.2, own.3, inl (position + min 1 (len - position), o')),
          Own-other fd' inode' fd f ne own',
        ),
        λ ds left. Left-other fd' inode' fd f ds ne left,
      )

  closes :
      (p : Process)
      → Both p
      → (v : ℕ) × (q : Process) × (sys.close fd p ≡ some (v, q))
        × Both q
        × ((ds : List ℕ) → Left fd' inode' p ds → Left fd' inode' q ds)
  unfolding kernel_calls
  closes p ((low, high, inside, blocks, inl (position, o)), own') = (
    0,
    other_file p fd blank,
    rw ((close-blank o).0) refl,
    (
      (low, high, inside, blocks, inr (ap (λ (f : File). f.flags) (close-blank o).1)),
      Own-other fd' inode' fd blank ne own',
    ),
    λ ds left. Left-other fd' inode' fd blank ds ne left,
  )
  closes p ((low, high, inside, blocks, inr free), own') = (
    minus_one,
    p,
    rw (close-free p fd free) refl,
    ((low, high, inside, blocks, inr free), own'),
    λ ds left. left,
  )

  pub kernel_file : Source sys fd Both (Left fd inode) (Left fd' inode')
  kernel_file = record { more = more; end = at_end; close = closes }

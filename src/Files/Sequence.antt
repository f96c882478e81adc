-- ===== src/Files/Sequence.antt =====
-- A file opened, read piece by piece, and closed.
use cheet_os.Base.{
  ℕ, zero, suc, ◌+◌, ◌-◌, ◌^◌, ◌≤◌, ◌<◌, min, ◌≡◌, refl, ◌∙◌, ap, ap₂, true, false, not, ◌&&◌, ◌||◌,
  Option, none, some, List, [], ◌∷◌, ◌==◌, ltb, leb, if◌then◌else◌, get_or, set, length, length-set,
  get_or-set_self, arith, minus_one, lt_signed, add32,
}
use cheet_os.Io.{Device}
use cheet_os.Filesys.{
  Image, Dentry, byte_at, word_at, filename_len, inode_count, inode_length, flength,
  read_dentry_by_name, read_data,
}
use cheet_os.Filesys.Contents.{file_byte, slice, HasBlocks, length-slice}
use cheet_os.Filesys.Read.{read_data_lem}
use cheet_os.Screen.{store}
use cheet_os.Files.{
  file_ops, File, blank, opened, Process, file, num_max_open_files, free_from, open_entry,
  open_found, file_open, open_as, open_file, directory_open, file_close, returns, out_of_table,
  store_bytes, advance, file_read, close_by, close, read_by, read, Events,
}
use cheet_os.Files.Table.{free_from-le}

-- Descriptor `fd` is open on the file with the inode, at the position.
pub record IsOpen (p : Process) (fd inode position : ℕ) : Type 0 where
  pub low : 2 ≤ fd
  pub high : fd < num_max_open_files
  pub size : length p.file_array ≡ num_max_open_files
  pub entry : file p fd ≡ record (opened file_ops inode) { file_position = position }

inside_table : (low fd : ℕ) → low ≤ 2 → 2 ≤ fd → fd < 8 → out_of_table low fd ≡ false
inside_table low fd l h k = ground arith

IsOpen-set :
    {p : Process} {fd inode position : ℕ} (next : ℕ)
    → IsOpen p fd inode position
    → IsOpen
        (record p {
          file_array = set p.file_array fd (record (file p fd) { file_position = next });
        })
        fd
        inode
        next
IsOpen-set {p} {fd} next o = record {
  low = o.low;
  high = o.high;
  size = length-set p.file_array fd _ ∙ o.size;
  entry =
      get_or-set_self p.file_array fd (record (file p fd) { file_position = next }) blank
        (omega (arith, o.high, o.size))
      ∙ ap (λ (f : File). record f { file_position = next }) o.entry;
}

get_or-cons :
    (c : ℕ) (cs : List ℕ) (k : ℕ)
    → get_or (c ∷ cs) k 0 ≡ (if k == 0 then c else get_or cs (k - 1) 0)
get_or-cons c cs zero = refl
get_or-cons c cs (suc k) = ground arith

-- Bytes stored from `start` on, read back.
pub store_bytes_lem :
    (m : ℕ → ℕ) (start : ℕ) (cs : List ℕ) (i : ℕ)
    → store_bytes m start cs i
      ≡ (if leb start i && ltb i (start + length cs) then get_or cs (i - start) 0 else m i)
unfolding store_bytes store
store_bytes_lem m start [] i = ground arith
store_bytes_lem m start (c ∷ cs) i =
    let shift : get_or cs (i - start - 1) 0 ≡ get_or cs (i - (start + 1)) 0 =
      ap (λ k. get_or cs k 0) (omega arith) in
    ground (arith, store_bytes_lem (store m start c) (start + 1) cs i, get_or-cons c cs (i - start))

pub get_or-slice :
    (im : Image) (inode offset n i : ℕ)
    → i < n
    → get_or (slice im inode offset n) i 0 ≡ file_byte im inode (offset + i)
unfolding slice
get_or-slice im inode offset zero i h = absurd (omega arith)
get_or-slice im inode offset (suc n) zero h = ap (file_byte im inode) (omega arith)
get_or-slice im inode offset (suc n) (suc i) h =
    get_or-slice im inode (offset + 1) n i (omega arith) ∙ ap (file_byte im inode) (omega arith)

inode_length-lt : (im : Image) (inode : ℕ) → inode_length im inode < 2 ^ 32
unfolding inode_length word_at byte_at
inode_length-lt im inode = omega arith

module _ {p : Process} {fd inode position : ℕ} (o : IsOpen p fd inode position) where
  file_read-run :
      (device : Device) (events : Events) (buf : ℕ → ℕ) (nbytes : ℕ)
      → read device events fd buf nbytes p
        ≡ advance fd buf p (read_data p.image inode position nbytes)
  unfolding read read_by file_read
  file_read-run device events buf nbytes =
      let inside = inside_table 0 fd (omega arith) o.low o.high in
      let file_like : (fd == 1 || fd == 0) ≡ false = ground (arith, o.low) in
      rw (inside, o.entry, file_like)
        (ap₂ (λ i at. advance fd buf p (read_data p.image i at nbytes))
          (ap (λ (f : File). f.inode_num) o.entry) (ap (λ (f : File). f.file_position) o.entry))

  -- The process after a read that stops at `next`.
  abbrev pub moved : (next : ℕ) → Process
  moved next = record p {
    file_array = set p.file_array fd (record (file p fd) { file_position = next });
  }

  -- `read` on a descriptor open on a sound file of the image, its position a word, returns how
  -- many of the requested bytes are left from the position on, stores those bytes of the file at
  -- the start of the caller's memory and changes no other byte of it, and leaves the descriptor
  -- open on the file, behind those bytes.
  pub read-slice :
      (device : Device) (events : Events) (buf : ℕ → ℕ) (nbytes : ℕ)
      → HasBlocks p.image inode
      → inode < inode_count p.image
      → position < 2 ^ 32
      → let m = min nbytes (flength p.image inode - position) in
        (read device events fd buf nbytes p
          ≡ returns m
              (some (store_bytes buf 0 (slice p.image inode position m)))
              (moved (position + m)))
        × IsOpen (moved (position + m)) fd inode (position + m)
        × ((i : ℕ)
            → store_bytes buf 0 (slice p.image inode position m) i
              ≡ (if ltb i m then file_byte p.image inode (position + i) else buf i))
  unfolding advance flength
  read-slice device events buf nbytes sound inside small =
      let m = min nbytes (inode_length p.image inode - position) in
      let fits : add32 position m ≡ position + m = omega (arith, inode_length-lt p.image inode) in
      let here : (file p fd).file_position ≡ position =
        ap (λ (f : File). f.file_position) o.entry in
      (
        file_read-run device events buf nbytes
            ∙ (rw (read_data_lem p.image inode nbytes sound position inside) (
                ap
                  (λ k.
                    returns m (some (store_bytes buf 0 (slice p.image inode position m))) (moved k))
                  (rw here fits))),
        IsOpen-set (position + m) o,
        λ i. ground (
          arith,
          store_bytes_lem buf 0 (slice p.image inode position m) i,
          length-slice p.image inode position m,
          get_or-slice p.image inode position m i,
        ),
      )

  -- `close` on a descriptor open on a file returns 0 and blanks the descriptor; a second `close`
  -- returns -1 and changes nothing.
  pub close-blank :
      let q = record p { file_array = set p.file_array fd blank } in
      (close fd p ≡ returns 0 none q)
      × (file q fd ≡ blank)
      × (close fd q ≡ returns minus_one none q)
  unfolding close close_by file_close
  close-blank =
      let q : Process = record p { file_array = set p.file_array fd blank } in
      let inside = inside_table 2 fd (omega arith) o.low o.high in
      let range : (not (lt_signed fd num_max_open_files) || lt_signed fd 0) ≡ false =
        ground (arith, o.low, o.high) in
      let freed : file q fd ≡ blank =
        get_or-set_self p.file_array fd blank blank (omega (arith, o.high, o.size)) in
      (rw (inside, o.entry, range) (rw o.entry refl), freed, rw (inside, freed) refl)

  -- A `read` on a descriptor open with an inode that the image does not have, its position a
  -- word, returns -1, stores nothing, and moves the position back by one byte, from 0 to the
  -- largest word.
  pub read-bad_inode :
      (device : Device) (events : Events) (buf : ℕ → ℕ) (nbytes : ℕ)
      → inode_count p.image ≤ inode
      → position < 2 ^ 32
      → read device events fd buf nbytes p
        ≡ returns minus_one (some buf) (moved (if position == 0 then minus_one else position - 1))
  unfolding advance read_data store_bytes
  read-bad_inode device events buf nbytes outside small =
      let bad : leb (inode_count p.image) inode ≡ true = ground arith in
      let back : add32 position minus_one ≡ (if position == 0 then minus_one else position - 1) =
        ground arith in
      let here : (file p fd).file_position ≡ position =
        ap (λ (f : File). f.file_position) o.entry in
      file_read-run device events buf nbytes
      ∙ rw bad (ap (λ k. returns minus_one (some buf) (moved k)) (rw here back))

-- `open` on the name, shorter than 32 bytes, of a regular file, when a descriptor is free,
-- returns the first free one and leaves it open on the file's inode at position 0; nothing else
-- changes.
pub open_file-IsOpen :
    (device : Device) (p : Process) (name : List ℕ) (d : Dentry)
    → length p.file_array ≡ num_max_open_files
    → length name < filename_len
    → read_dentry_by_name p.image (some name) ≡ some d
    → d.filetype ≡ 2
    → free_from p.file_array 6 2 < num_max_open_files
    → let fd = free_from p.file_array 6 2 in
      let q = record p { file_array = set p.file_array fd (opened file_ops d.inode_num) } in
      (open_file device (some name) p ≡ (fd, q)) × IsOpen q fd d.inode_num 0
unfolding open_file open_as file_open open_found open_entry
open_file-IsOpen device p name d size short found regular room =
    let fd = free_from p.file_array 6 2 in
    let short' : leb filename_len (length name) ≡ false = ground arith in
    let room' : leb num_max_open_files fd ≡ false = ground arith in
    (
      rw (found, open_file) (rw regular (rw (short', found) (rw room' (rw regular refl)))),
      record {
        low = omega (arith, free_from-le p.file_array 6 2);
        high = room;
        size = length-set p.file_array fd _ ∙ size;
        entry = get_or-set_self p.file_array fd (opened file_ops d.inode_num) blank (omega arith);
      },
    )

module _ (device : Device) (p : Process)
    (full : num_max_open_files ≤ free_from p.file_array 6 2) where
  open_found-full : (o : Option Dentry) → open_found device o p ≡ (minus_one, p)
  unfolding open_found
  open_found-full none = refl
  open_found-full (some d) = ground arith

  file_open-full : (name : Option (List ℕ)) → file_open device name p ≡ (minus_one, p)
  unfolding file_open
  file_open-full none = refl
  file_open-full (some name) =
      ground (arith, open_found-full (read_dentry_by_name p.image (some name)))

  directory_open-full : (name : Option (List ℕ)) → directory_open device name p ≡ (minus_one, p)
  unfolding directory_open
  directory_open-full name = ground (arith, file_open-full name)

  -- `open` returns -1 and changes nothing, whatever the name, when no descriptor is free.
  pub open_file-full : (name : Option (List ℕ)) → open_file device name p ≡ (minus_one, p)
  unfolding open_file open_as
  open_file-full name = ground (arith, file_open-full name, directory_open-full name)

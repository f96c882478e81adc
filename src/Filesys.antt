-- ===== src/Filesys.antt =====
-- student-distrib/filesys.c: the file system image, its directory and its files' bytes.
pub mod Directory
pub mod Contents
pub mod Read
mod Tests
use cheet_os.Base.{
  ℕ, zero, suc, ◌+◌, ◌-◌, ◌*◌, ◌/◌, ◌%◌, ◌^◌, Bool, true, false, not, ◌&&◌, ◌||◌, Option, none,
  some, List, [], ◌∷◌, ◌++◌, ltb, leb, ◌==◌, if◌then◌else◌, get_or, length, minus_one, sub32,
  lt_signed,
}

-- Memory, and the address `fs_ptr` where the boot loader left the image. The source reads the image
-- through pointers, so offsets wrap round with the addresses.
pub record Image : Type 0 where
  pub mem : ℕ → ℕ
  pub fs_ptr : ℕ

unfoldable pub byte_at : Image → ℕ → ℕ
byte_at im offset = im.mem ((im.fs_ptr + offset) % 2 ^ 32) % 256

unfoldable pub word_at : Image → ℕ → ℕ
word_at im offset =
    byte_at im offset
    + 2 ^ 8 * byte_at im (offset + 1)
    + 2 ^ 16 * byte_at im (offset + 2)
    + 2 ^ 24 * byte_at im (offset + 3)

-- `n` bytes from `offset` on
unfoldable pub bytes_at : Image → ℕ → ℕ → List ℕ
bytes_at im offset zero = []
bytes_at im offset (suc n) = byte_at im offset ∷ bytes_at im (offset + 1) n

-- `dentry_t`
pub record Dentry : Type 0 where
  pub filename : List ℕ
  pub filetype : ℕ
  pub inode_num : ℕ
  pub reserved : List ℕ

abbrev pub filename_len : ℕ
filename_len = 32

abbrev pub num_files : ℕ
num_files = 63

abbrev pub block_size : ℕ
block_size = 4096

-- The members of `boot_block_t`: three words, 52 reserved bytes, then the entries of 64 bytes.
unfoldable pub inode_count : Image → ℕ
inode_count im = word_at im 4

unfoldable pub data_count : Image → ℕ
data_count im = word_at im 8

unfoldable pub direntries : Image → ℕ → Dentry
direntries im index = record {
  filename = bytes_at im (64 + 64 * index) 32;
  filetype = word_at im (64 + 64 * index + 32);
  inode_num = word_at im (64 + 64 * index + 36);
  reserved = bytes_at im (64 + 64 * index + 40) 24;
}

-- The members of `inode_block_t` for an inode number.
unfoldable pub inode_length : Image → ℕ → ℕ
inode_length im inode = word_at im (block_size * (inode + 1))

unfoldable pub data_block_num : Image → ℕ → ℕ → ℕ
data_block_num im inode index = word_at im (block_size * (inode + 1) + 4 + 4 * index)

-- Where the data block of block `index` of a file starts.
unfoldable pub block_start : Image → ℕ → ℕ → ℕ
block_start im inode index = block_size * (inode_count im + data_block_num im inode index + 1)

unfoldable pub flength : Image → ℕ → ℕ
flength im inode = inode_length im inode

-- A byte as an `int8_t`, widened to a word.
abbrev pub widen : ℕ → ℕ
widen c = if ltb c 128 then c else c + (2 ^ 32 - 256)

-- `strncmp` of lib.c with `n - i` characters to go at index `i`. The lists hold the characters
-- before the terminators, so what is read past their ends is 0.
unfoldable pub strncmp_from : (s1 s2 : List ℕ) → (todo i : ℕ) → ℕ
strncmp_from s1 s2 zero i = 0
strncmp_from s1 s2 (suc todo) i =
    let a = get_or s1 i 0 in
    let b = get_or s2 i 0 in
    let rest = strncmp_from s1 s2 todo (i + 1) in
    if not (a == b) || a == 0 then sub32 (widen a) (widen b) else rest

unfoldable pub strncmp : (s1 s2 : List ℕ) → ℕ → ℕ
strncmp s1 s2 n = strncmp_from s1 s2 n 0

-- `none` is the return of -1; otherwise the entry that is stored through `dentry`.
unfoldable pub read_dentry_by_index : Image → ℕ → Option Dentry
read_dentry_by_index im index = if leb num_files index then none else some (direntries im index)

unfoldable pub find_from : Image → List ℕ → (todo index : ℕ) → Option Dentry
find_from im fname zero index = none
find_from im fname (suc todo) index =
    let rest = find_from im fname todo (index + 1) in
    if strncmp fname (direntries im index).filename filename_len == 0
    then read_dentry_by_index im index
    else rest

-- The null pointer is `none`.
unfoldable pub read_dentry_by_name : Image → Option (List ℕ) → Option Dentry
read_dentry_by_name im none = none
read_dentry_by_name im (some fname) =
    if get_or fname 0 0 == 0 then none else find_from im fname num_files 0

-- The inner loop of `read_data`: `todo` bounds its rounds by the end of the block. It returns
-- `offset` and the bytes stored, of which `count` is the number.
unfoldable pub copy_block :
    Image → (file_length data_block len : ℕ) → (todo index offset : ℕ) → List ℕ → ℕ × List ℕ
copy_block im file_length data_block len zero index offset buf = (offset, buf)
copy_block im file_length data_block len (suc todo) index offset buf =
    let c = byte_at im (data_block + index) in
    let rest =
      copy_block im file_length data_block len todo (index + 1) (offset + 1) (buf ++ (c ∷ [])) in
    if ltb (length buf) len && ltb offset file_length then rest else (offset, buf)

-- The outer loop, on fuel: `none` means that the fuel ran out. The result is the returned word and
-- the bytes stored at the start of the caller's buffer.
unfoldable pub read_blocks :
    Image → (inode len : ℕ) → (fuel index_in_inode index offset : ℕ) → List ℕ → Option (ℕ × List ℕ)
read_blocks im inode len zero index_in_inode index offset buf = none
read_blocks im inode len (suc fuel) index_in_inode index offset buf =
    let file_length = inode_length im inode in
    let block_num = data_block_num im inode index_in_inode in
    let data_block = block_start im inode index_in_inode in
    let (offset', buf') =
      copy_block im file_length data_block len (block_size - index) index offset buf in
    let rest = read_blocks im inode len fuel (index_in_inode + 1) 0 offset' buf' in
    if not (lt_signed block_num (data_count im))
    then some (minus_one, buf)
    else if leb len (length buf') || leb file_length offset'
    then some (length buf', buf')
    else rest

-- The fuel is one round for each block of the file and one more.
unfoldable pub read_data : Image → (inode offset len : ℕ) → Option (ℕ × List ℕ)
read_data im inode offset len =
    if leb (inode_count im) inode
    then some (minus_one, [])
    else if leb (inode_length im inode) offset
    then some (0, [])
    else read_blocks im inode len (inode_length im inode / block_size + 1) (offset / block_size)
        (offset % block_size) offset []

-- ===== src/Filesys/Tests.antt =====
-- A small image with the file "ab" of five bytes, and the theorems at it.
use cheet_os.Base.{ℕ, zero, suc, ◌-◌, ◌≡◌, refl, some, List, [], ◌∷◌, ◌==◌, arith, if◌then◌else◌}
use mathlib.Core.Option
use cheet_os.Filesys.{
  Image, byte_at, word_at, bytes_at, inode_count, data_count, inode_length, data_block_num,
  direntries, block_start, strncmp, strncmp_from, read_dentry_by_index, read_dentry_by_name,
  find_from, copy_block, read_blocks, read_data, flength, num_files,
}
use cheet_os.Filesys.Contents.{slice, HasBlocks}
use cheet_os.Filesys.Read.{Ends, read_data-Ends, read_data_lem}
use cheet_os.Filesys.Directory.{IsBytes, Lookup, read_dentry_by_name_lem}

-- Two inodes, two data blocks, one entry, and the bytes 10 to 50 in data block 1.
abbrev contents : ℕ → ℕ
contents a =
    if a == 4
    then 2
    else if a == 8
    then 2
    else if a == 64
    then b'a'
    else if a == 65
    then b'b'
    else if a == 96
    then 2
    else if a == 100
    then 1
    else if a == 8192
    then 5
    else if a == 8196
    then 1
    else if a == 16384
    then 10
    else if a == 16385
    then 20
    else if a == 16386
    then 30
    else if a == 16387
    then 40
    else if a == 16388
    then 50
    else 0

abbrev disk : Image
disk = record { mem = λ a. contents (a - 0x1000); fs_ptr = 0x1000 }

abbrev ab : List ℕ
ab = b'a' ∷ b'b' ∷ []

ab-IsBytes : IsBytes ab
ab-IsBytes zero = omega arith
ab-IsBytes (suc zero) = omega arith
ab-IsBytes (suc (suc i)) = omega arith

disk-HasBlocks : HasBlocks disk 1
unfolding inode_length data_block_num data_count word_at byte_at
disk-HasBlocks zero h = refl
disk-HasBlocks (suc i) h = absurd (omega arith)

finds_ab : Option.map (λ d. d.inode_num) (read_dentry_by_name disk (some ab)) ≡ some 1
unfolding read_dentry_by_name find_from strncmp strncmp_from read_dentry_by_index direntries
    bytes_at word_at byte_at
finds_ab = refl

reads_middle : read_data disk 1 1 3 ≡ some (3, 20 ∷ 30 ∷ 40 ∷ [])
unfolding read_data read_blocks copy_block inode_count data_count inode_length data_block_num
    block_start word_at byte_at
reads_middle = refl

read_dentry_by_name_lem_example : Lookup disk ab 0 num_files (read_dentry_by_name disk (some ab))
read_dentry_by_name_lem_example = read_dentry_by_name_lem disk ab ab-IsBytes (omega arith)

read_data-Ends_example : Ends disk 1 4 (read_data disk 1 3 4)
read_data-Ends_example = read_data-Ends disk 1 4 3

read_data_lem_example : read_data disk 1 3 4 ≡ some (2, slice disk 1 3 2)
unfolding inode_length flength word_at byte_at inode_count
read_data_lem_example = read_data_lem disk 1 4 disk-HasBlocks 3 (omega arith)

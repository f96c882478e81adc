-- ===== src/Filesys/Contents.antt =====
-- What a file of the image holds, byte by byte, and the inner loop of `read_data` against it.
use cheet_os.Base.{
  ℕ, zero, suc, ◌+◌, ◌-◌, ◌*◌, ◌/◌, ◌%◌, ◌<◌, min, ◌≡◌, refl, ap, ap₂, ◌∙◌, true, false, List, [],
  ◌∷◌, ◌++◌, append-nil, append_assoc, arith, length, length-append, ltb, ◌&&◌, lt_signed, sym,
}
use cheet_os.Filesys.{
  Image, byte_at, block_size, inode_length, data_count, data_block_num, block_start, copy_block,
}

-- The byte at a position of a file.
unfoldable pub file_byte : Image → ℕ → ℕ → ℕ
file_byte im inode offset =
    byte_at im (block_start im inode (offset / block_size) + offset % block_size)

-- `n` bytes of a file from a position on
unfoldable pub slice : Image → (inode offset n : ℕ) → List ℕ
slice im inode offset zero = []
slice im inode offset (suc n) = file_byte im inode offset ∷ slice im inode (offset + 1) n

-- Every block that the file's length calls for has a valid number.
abbrev pub HasBlocks : Image → ℕ → Type 0
HasBlocks im inode =
    (index : ℕ)
    → index * block_size < inode_length im inode
    → lt_signed (data_block_num im inode index) (data_count im) ≡ true

pub length-slice : (im : Image) (inode offset n : ℕ) → length (slice im inode offset n) ≡ n
unfolding slice
length-slice im inode offset zero = refl
length-slice im inode offset (suc n) = ap suc (length-slice im inode (offset + 1) n)

pub slice-add :
    (im : Image) (inode offset a b : ℕ)
    → slice im inode offset (a + b) ≡ slice im inode offset a ++ slice im inode (offset + a) b
unfolding slice
slice-add im inode offset zero b =
    ap₂ (λ o n. slice im inode o n) {x = offset} {y = offset + 0} (omega arith) (omega arith)
slice-add im inode offset (suc a) b =
    ap (slice im inode offset) {x = suc a + b} {y = suc (a + b)} (omega arith)
    ∙ ap (λ l. file_byte im inode offset ∷ l)
        (slice-add im inode (offset + 1) a b
          ∙ ap (λ o. slice im inode (offset + 1) a ++ slice im inode o b) (omega arith))

-- How many bytes the inner loop takes.
abbrev pub taken : (todo len file_length count offset : ℕ) → ℕ
taken todo len file_length count offset = min todo (min (len - count) (file_length - offset))

-- The byte of block `block` at `index` is the file's byte at the position that they make up.
file_byte-block :
    (im : Image) (inode block index : ℕ)
    → index < block_size
    → byte_at im (block_start im inode block + index)
      ≡ file_byte im inode (block * block_size + index)
unfolding file_byte
file_byte-block im inode block index h =
    ap₂ (λ b r. byte_at im (block_start im inode b + r)) (omega arith) (omega arith)

append-slice :
    (im : Image) (inode offset m : ℕ) (buf : List ℕ)
    → (buf ++ (file_byte im inode offset ∷ [])) ++ slice im inode (offset + 1) m
      ≡ buf ++ slice im inode offset (suc m)
unfolding slice
append-slice im inode offset m buf =
    append_assoc buf (file_byte im inode offset ∷ []) (slice im inode (offset + 1) m)

-- The inner loop copies the bytes of block `block` from position `offset` of the file on, up to the
-- end of the block, of the request or of the file.
pub copy_block_lem :
    (im : Image) (inode block len : ℕ) (todo m index offset : ℕ) (buf : List ℕ)
    → index + todo ≡ block_size
    → offset ≡ block * block_size + index
    → m ≡ taken todo len (inode_length im inode) (length buf) offset
    → copy_block im (inode_length im inode) (block_start im inode block) len todo index offset buf
      ≡ (offset + m, buf ++ slice im inode offset m)
unfolding copy_block
copy_block_lem im inode block len zero zero index offset buf h e em =
    ap₂ (λ o (l : List ℕ). (o, l)) (omega arith) (sym (unfold slice in append-nil buf))
copy_block_lem im inode block len zero (suc m) index offset buf h e em = absurd (omega arith)
copy_block_lem im inode block len (suc todo) zero index offset buf h e em =
    let stop : (ltb (length buf) len && ltb offset (inode_length im inode)) ≡ false =
      ground arith in
    rw stop (ap₂ (λ o (l : List ℕ). (o, l)) (omega arith) (sym (unfold slice in append-nil buf)))
copy_block_lem im inode block len (suc todo) (suc m) index offset buf h e em =
    let go : (ltb (length buf) len && ltb offset (inode_length im inode)) ≡ true = ground arith in
    let c = file_byte-block im inode block index (omega arith) in
    let longer = length-append buf (file_byte im inode offset ∷ []) in
    rw (go, c, ← e)
      (copy_block_lem im inode block len todo m (index + 1) (offset + 1)
          (buf ++ (file_byte im inode offset ∷ [])) (omega arith) (omega arith) (omega arith)
        ∙ ap₂ (λ o (l : List ℕ). (o, l)) (omega arith) (append-slice im inode offset m buf))

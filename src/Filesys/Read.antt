-- ===== src/Filesys/Read.antt =====
-- `read_data`: it returns for every image, never stores more than was asked for, and on a sound
-- file returns the file's bytes.
use cheet_os.Base.{
  ℕ, zero, suc, ◌+◌, ◌-◌, ◌*◌, ◌/◌, ◌%◌, ◌≤◌, ◌<◌, min, ◌≡◌, refl, ap, ap₂, ◌∙◌, sym, false, inl,
  inr, Option, some, List, [], ◌++◌, append_assoc, arith, length, length-append, leb, ◌||◌,
  lt_signed, Bool-cases, minus_one,
}
use cheet_os.Filesys.{
  Image, block_size, inode_count, inode_length, data_count, data_block_num, copy_block, read_blocks,
  read_data, flength, block_start,
}
use cheet_os.Filesys.Contents.{slice, HasBlocks, length-slice, slice-add, taken, copy_block_lem}

module _ (im : Image) (inode len : ℕ) where
  -- The loop has returned, with at most `len` bytes stored.
  abbrev pub Ends : Option (ℕ × List ℕ) → Type 0
  Ends o = (r : ℕ × List ℕ) × (o ≡ some r) × (length r.1 ≤ len)

  -- The bytes still to come from `offset` on when `count` are stored.
  abbrev left : (offset count : ℕ) → ℕ
  left offset count = min (len - count) (inode_length im inode - offset)

  -- The inner loop at the block where the outer loop stands.
  inner :
      (block index offset : ℕ) (buf : List ℕ)
      → index < block_size
      → offset ≡ block * block_size + index
      → let m = taken (block_size - index) len (inode_length im inode) (length buf) offset in
        (copy_block im
            (inode_length im inode)
            (block_start im inode block)
            len
            (block_size - index)
            index
            offset
            buf
          ≡ (offset + m, buf ++ slice im inode offset m))
        × (length (buf ++ slice im inode offset m) ≡ length buf + m)
  inner block index offset buf h e =
      let m = taken (block_size - index) len (inode_length im inode) (length buf) offset in
      (
        copy_block_lem im inode block len (block_size - index) m index offset buf (omega arith) e
            refl,
        omega (arith, length-append buf (slice im inode offset m), length-slice im inode offset m),
      )

  read_blocks-Ends :
      (fuel block index offset : ℕ) (buf : List ℕ)
      → index < block_size
      → offset ≡ block * block_size + index
      → offset < inode_length im inode
      → inode_length im inode ≤ (block + fuel) * block_size
      → length buf ≤ len
      → Ends (read_blocks im inode len fuel block index offset buf)
  unfolding read_blocks
  read_blocks-Ends zero block index offset buf hi e ho hf hl = absurd (omega arith)
  read_blocks-Ends (suc fuel) block index offset buf hi e ho hf hl =
      let m = taken (block_size - index) len (inode_length im inode) (length buf) offset in
      let buf' = buf ++ slice im inode offset m in
      let (copied, grown) = inner block index offset buf hi e in
      elim (Bool-cases (lt_signed (data_block_num im inode block) (data_count im))) [
        | inr invalid ↦ rw invalid ((minus_one, buf), refl, hl)
        | inl valid ↦
            rw (valid, copied)
              (elim (Bool-cases
                (leb len (length buf') || leb (inode_length im inode) (offset + m))) [
                  | inl stop ↦ rw stop ((length buf', buf'), refl, omega arith)
                  | inr more ↦ rw more (
                      read_blocks-Ends fuel (block + 1) 0 (offset + m) buf' (omega arith)
                        (ground arith) (ground arith) (omega arith) (omega arith))
                ])
      ]

  -- `read_data` returns for every image and every argument, and never stores more bytes than the
  -- caller asked for.
  pub read_data-Ends : (offset : ℕ) → Ends (read_data im inode offset len)
  unfolding read_data
  read_data-Ends offset = elim (Bool-cases (leb (inode_count im) inode)) [
    | inl outside ↦ rw outside ((minus_one, []), refl, omega arith)
    | inr inside ↦ rw inside (elim (Bool-cases (leb (inode_length im inode) offset)) [
      | inl past ↦ rw past ((0, []), refl, omega arith)
      | inr before ↦ rw before (
          read_blocks-Ends (inode_length im inode / block_size + 1) (offset / block_size)
            (offset % block_size) offset [] (omega arith) (omega arith) (ground arith) (omega arith)
            (omega arith))
    ])
  ]

  -- What a finished loop has returned: the number of bytes that it was left with, and those bytes.
  abbrev Reads : (offset : ℕ) → List ℕ → Option (ℕ × List ℕ) → Type 0
  Reads offset buf o =
      let m = left offset (length buf) in o ≡ some (length buf + m, buf ++ slice im inode offset m)

  next_round :
      (offset m : ℕ) (buf : List ℕ) (o : Option (ℕ × List ℕ))
      → length (buf ++ slice im inode offset m) ≡ length buf + m
      → m ≤ left offset (length buf)
      → Reads (offset + m) (buf ++ slice im inode offset m) o
      → Reads offset buf o
  next_round offset m buf o grown h r =
      let rest = left (offset + m) (length (buf ++ slice im inode offset m)) in
      let all : left offset (length buf) ≡ m + rest = omega arith in
      r
      ∙ ap₂ (λ n (l : List ℕ). some (n, l)) (omega arith)
          (append_assoc buf (slice im inode offset m) (slice im inode (offset + m) rest)
            ∙ ap (λ l. buf ++ l) (sym (slice-add im inode offset m rest))
            ∙ ap (λ k. buf ++ slice im inode offset k) (sym all))

  module _ (sound : HasBlocks im inode) where
    read_blocks-Reads :
        (fuel block index offset : ℕ) (buf : List ℕ)
        → index < block_size
        → offset ≡ block * block_size + index
        → offset < inode_length im inode
        → inode_length im inode ≤ (block + fuel) * block_size
        → Reads offset buf (read_blocks im inode len fuel block index offset buf)
    unfolding read_blocks
    read_blocks-Reads zero block index offset buf hi e ho hf = absurd (omega arith)
    read_blocks-Reads (suc fuel) block index offset buf hi e ho hf =
        let m = taken (block_size - index) len (inode_length im inode) (length buf) offset in
        let buf' = buf ++ slice im inode offset m in
        let (copied, grown) = inner block index offset buf hi e in
        rw (sound block (omega arith), copied)
          (elim (Bool-cases (leb len (length buf') || leb (inode_length im inode) (offset + m))) [
            | inl stop ↦
                let all : left offset (length buf) ≡ m = ground arith in
                rw (stop, grown)
                  (ap₂ (λ n (l : List ℕ). some (n, l)) (omega arith)
                    (ap (λ k. buf ++ slice im inode offset k) (sym all)))
            | inr more ↦ rw more (
                next_round offset m buf _ grown (omega arith) (
                  read_blocks-Reads fuel (block + 1) 0 (offset + m) buf' (omega arith)
                    (ground arith) (ground arith) (omega arith)))
          ])

    -- For an inode of the image whose data blocks are all in the image, `read_data` returns how
    -- many of the requested bytes lie before the end of the file, and stores exactly those bytes
    -- of the file.
    pub read_data_lem :
        (offset : ℕ)
        → inode < inode_count im
        → let m = min len (flength im inode - offset) in
          read_data im inode offset len ≡ some (m, slice im inode offset m)
    unfolding read_data flength slice
    read_data_lem offset inside =
        let known : leb (inode_count im) inode ≡ false = ground arith in
        let m = min len (inode_length im inode - offset) in
        rw known (elim (Bool-cases (leb (inode_length im inode) offset)) [
          | inl past ↦
              let nothing : 0 ≡ m = ground arith in
              rw past (ap (λ k. some (k, slice im inode offset k)) nothing)
          | inr before ↦ rw before (
              read_blocks-Reads (inode_length im inode / block_size + 1) (offset / block_size)
                (offset % block_size) offset [] (omega arith) (omega arith) (ground arith)
                (omega arith)
              ∙ ap₂ (λ n k. some (n, slice im inode offset k)) (omega arith) (omega arith))
        ])

-- ===== src/Strings.antt =====
-- student-distrib/lib.c: `memset`, `memset_dword`, `memcpy`, `strlen`, `strcpy`, `strncpy`,
-- `strrev` and `itoa`, on memory as a function from addresses to bytes. No range reaches the end of memory.
pub mod Fill
pub mod Copy
pub mod Text
pub mod Digits
pub mod Itoa
mod Tests
use cheet_os.Base.{
  ℕ, zero, suc, ◌+◌, ◌-◌, ◌*◌, ◌/◌, ◌%◌, ◌^◌, Bool, Option, none, some, ltb, ◌==◌, if◌then◌else◌,
}
use cheet_os.Screen.{store}

-- The four bytes of `eax` stored at `edi`, the low one first.
unfoldable pub store_dword : (ℕ → ℕ) → (edi eax : ℕ) → ℕ → ℕ
store_dword m edi eax =
    store
      (store (store (store m edi (eax % 256)) (edi + 1) (eax / 2 ^ 8 % 256)) (edi + 2)
        (eax / 2 ^ 16 % 256))
      (edi + 3) (eax / 2 ^ 24 % 256)

-- `rep stosl`, with the count in `ecx`
unfoldable pub memset_dword : (ℕ → ℕ) → (s c n : ℕ) → ℕ → ℕ
memset_dword m s c zero = m
memset_dword m s c (suc n) = memset_dword (store_dword m s c) (s + 4) c n

-- `.memset_bottom`: single bytes.
unfoldable pub memset_bottom : (ℕ → ℕ) → (edi al edx : ℕ) → ℕ → ℕ
memset_bottom m edi al zero = m
memset_bottom m edi al (suc edx) = memset_bottom (store m edi al) (edi + 1) al edx

-- `c << 24 | c << 16 | c << 8 | c` for a byte `c`
abbrev pub four : ℕ → ℕ
four c = c * 2 ^ 24 + c * 2 ^ 16 + c * 2 ^ 8 + c

-- `.memset_aligned`: words of four bytes, then the bytes that are left.
unfoldable pub memset_aligned : (ℕ → ℕ) → (edi c ecx : ℕ) → ℕ → ℕ
memset_aligned m edi c ecx =
    memset_bottom (memset_dword m edi (four c) (ecx / 4)) (edi + 4 * (ecx / 4)) c (ecx % 4)

-- `.memset_top`: single bytes up to the next address that four divides.
unfoldable pub memset_top : (ℕ → ℕ) → (edi c ecx : ℕ) → ℕ → ℕ
memset_top m edi c zero = m
memset_top m edi c (suc ecx) =
    let rest = memset_top (store m edi c) (edi + 1) c ecx in
    if edi % 4 == 0 then memset_aligned m edi c (suc ecx) else rest

unfoldable pub memset : (ℕ → ℕ) → (s c n : ℕ) → ℕ → ℕ
memset m s c n = memset_top m s (c % 256) n

-- One `movsl`: four bytes, read before they are stored.
unfoldable pub move_dword : (ℕ → ℕ) → (edi esi : ℕ) → ℕ → ℕ
move_dword m edi esi =
    store (store (store (store m edi (m esi)) (edi + 1) (m (esi + 1))) (edi + 2) (m (esi + 2)))
      (edi + 3) (m (esi + 3))

-- `rep movsl`
unfoldable pub move_dwords : (ℕ → ℕ) → (edi esi ecx : ℕ) → ℕ → ℕ
move_dwords m edi esi zero = m
move_dwords m edi esi (suc ecx) = move_dwords (move_dword m edi esi) (edi + 4) (esi + 4) ecx

unfoldable pub memcpy_bottom : (ℕ → ℕ) → (edi esi edx : ℕ) → ℕ → ℕ
memcpy_bottom m edi esi zero = m
memcpy_bottom m edi esi (suc edx) = memcpy_bottom (store m edi (m esi)) (edi + 1) (esi + 1) edx

unfoldable pub memcpy_aligned : (ℕ → ℕ) → (edi esi ecx : ℕ) → ℕ → ℕ
memcpy_aligned m edi esi ecx =
    memcpy_bottom (move_dwords m edi esi (ecx / 4)) (edi + 4 * (ecx / 4)) (esi + 4 * (ecx / 4))
      (ecx % 4)

unfoldable pub memcpy_top : (ℕ → ℕ) → (edi esi ecx : ℕ) → ℕ → ℕ
memcpy_top m edi esi zero = m
memcpy_top m edi esi (suc ecx) =
    let rest = memcpy_top (store m edi (m esi)) (edi + 1) (esi + 1) ecx in
    if edi % 4 == 0 then memcpy_aligned m edi esi (suc ecx) else rest

unfoldable pub memcpy : (ℕ → ℕ) → (dest src n : ℕ) → ℕ → ℕ
memcpy m dest src n = memcpy_top m dest src n

-- The loop of `strlen` on fuel.
unfoldable pub strlen : (fuel : ℕ) → (ℕ → ℕ) → (s len : ℕ) → Option ℕ
strlen zero m s len = none
strlen (suc fuel) m s len =
    let rest = strlen fuel m s (len + 1) in if m (s + len) == 0 then some len else rest

-- The loop of `strcpy` on fuel.
unfoldable pub strcpy : (fuel : ℕ) → (ℕ → ℕ) → (dest src i : ℕ) → Option (ℕ → ℕ)
strcpy zero m dest src i = none
strcpy (suc fuel) m dest src i =
    let rest = strcpy fuel (store m (dest + i) (m (src + i))) dest src (i + 1) in
    if m (src + i) == 0 then some (store m (dest + i) 0) else rest

-- The second loop of `strncpy`, with `todo` bytes to go, and the first one.
unfoldable pub pad : (ℕ → ℕ) → (dest i todo : ℕ) → ℕ → ℕ
pad m dest i zero = m
pad m dest i (suc todo) = pad (store m (dest + i) 0) dest (i + 1) todo

unfoldable pub strncpy : (ℕ → ℕ) → (dest src i todo : ℕ) → ℕ → ℕ
strncpy m dest src i zero = m
strncpy m dest src i (suc todo) =
    let rest = strncpy (store m (dest + i) (m (src + i))) dest src (i + 1) todo in
    if m (src + i) == 0 then pad m dest i (suc todo) else rest

-- The loop of `strrev`; `last` is -1 for the empty string in the source and 0 here, and the loop ends
-- at once for both.
unfoldable pub swap_from : (fuel : ℕ) → (ℕ → ℕ) → (s beg last : ℕ) → ℕ → ℕ
swap_from zero m s beg last = m
swap_from (suc fuel) m s beg last =
    let rest =
      swap_from fuel (store (store m (s + last) (m (s + beg))) (s + beg) (m (s + last))) s (beg + 1)
        (last - 1) in
    if ltb beg last then rest else m

-- `strrev` of a string of the length that `strlen` has found.
unfoldable pub strrev : (ℕ → ℕ) → (s length : ℕ) → ℕ → ℕ
strrev m s length = swap_from length m s 0 (length - 1)

-- `lookup[i]`
abbrev pub digit_of : ℕ → ℕ
digit_of i = if ltb i 10 then b'0' + i else b'A' + (i - 10)

-- The loop of `itoa`: the digits, the lowest first, from `newbuf` on; the results are the memory and
-- where `newbuf` is then. Each round makes `newval` smaller, so `newval` is fuel enough.
unfoldable pub write_digits : (fuel : ℕ) → (ℕ → ℕ) → (newval newbuf radix : ℕ) → (ℕ → ℕ) × ℕ
write_digits zero m newval newbuf radix = (m, newbuf)
write_digits (suc fuel) m newval newbuf radix =
    let rest =
      write_digits fuel (store m newbuf (digit_of (newval % radix))) (newval / radix) (newbuf + 1)
        radix in
    if newval == 0 then (m, newbuf) else rest

unfoldable pub itoa : (ℕ → ℕ) → (value buf radix : ℕ) → ℕ → ℕ
itoa m value buf radix =
    if value == 0
    then store (store m buf b'0') (buf + 1) 0
    else let (m', end) = write_digits value m value buf radix in
      strrev (store m' end 0) buf (end - buf)

-- ===== src/Pic/Lines.antt =====
-- Which interrupt lines the masks of i8259.c let through.
use cheet_os.Base.{
  ℕ, ◌+◌, ◌-◌, ◌%◌, ◌≤◌, ◌<◌, ◌≡◌, refl, ◌≢◌, arith, ==_iff, tested_below, tested_value, true, ltb,
  ◌==◌, if◌then◌else◌, ◌∷◌, [], Option, none, some, bit_or,
}
use cheet_os.Io.{Log, outb, out, inp}
use cheet_os.Pic.{Pic, enable_irq, disable_irq, send_eoi, eoi}
use cheet_os.Pic.Masks.{bit, clear_bit_lem, set_bit_lem}

pub record IsValid (p : Pic) : Type 0 where
  pub master_byte : p.master_mask < 256
  pub slave_byte : p.slave_mask < 256

-- How many mask bits keep line `n` from the processor: its own and, for a line of the slave, that
-- of line 2 of the master.
unfoldable pub blocks : Pic → ℕ → ℕ
blocks p n = if ltb n 8 then bit p.master_mask n else bit p.slave_mask (n - 8) + bit p.master_mask 2

-- The byte that was last sent to a port.
unfoldable pub last_sent : (port : ℕ) → Log → Option ℕ
last_sent port [] = none
last_sent port (out p byte ∷ log) =
    let before = last_sent port log in if p == port then some byte else before
last_sent port (inp p ∷ log) = last_sent port log

abbrev pub Reaches : Pic → ℕ → Type 0
Reaches p n = blocks p n ≡ 0

module _ {p : Pic} (n : ℕ) (v : IsValid p) where
  enable_irq-IsValid : n < 16 → IsValid (enable_irq n p)
  unfolding enable_irq
  enable_irq-IsValid h = ground (
    arith,
    clear_bit_lem p.master_mask n 0,
    clear_bit_lem p.master_mask 2 0,
    clear_bit_lem p.slave_mask (n - 8) 0,
  )

  enable_irq-Reaches : n < 16 → Reaches (enable_irq n p) n
  unfolding enable_irq blocks
  enable_irq-Reaches h = ground (
    arith,
    clear_bit_lem p.master_mask n n,
    clear_bit_lem p.master_mask 2 2,
    clear_bit_lem p.slave_mask (n - 8) (n - 8),
  )

  enable_irq-keeps : (j : ℕ) → n < 16 → j < 16 → blocks (enable_irq n p) j ≤ blocks p j
  unfolding enable_irq blocks
  enable_irq-keeps j h k = ground (
    arith,
    clear_bit_lem p.master_mask n j,
    clear_bit_lem p.master_mask n 2,
    clear_bit_lem p.master_mask 2 j,
    clear_bit_lem p.master_mask 2 2,
    clear_bit_lem p.slave_mask (n - 8) (j - 8),
  )

  -- With masks that are bytes, `enable_irq` on one of the 16 lines lets that line through, adds
  -- no block to any line, and keeps the two masks bytes.
  pub enable_irq_lem :
      n < 16
      → (j : ℕ) → j < 16
      → IsValid (enable_irq n p)
        × Reaches (enable_irq n p) n
        × (blocks (enable_irq n p) j ≤ blocks p j)
  enable_irq_lem h j k = (enable_irq-IsValid h, enable_irq-Reaches h, enable_irq-keeps j h k)

  disable_irq-IsValid : n < 16 → IsValid (disable_irq n p)
  unfolding disable_irq
  disable_irq-IsValid h = ground (
    arith,
    set_bit_lem p.master_mask n 0,
    set_bit_lem p.master_mask 2 0,
    set_bit_lem p.slave_mask (n - 8) 0,
  )

  -- With masks that are bytes, `disable_irq` on a line of the master other than line 2 blocks
  -- that line, changes no other line, and keeps the two masks bytes.
  pub disable_irq_master :
      n < 8
      → n ≢ 2
      → (j : ℕ) → j < 16
      → (blocks (disable_irq n p) j ≡ (if n == j then 1 else blocks p j))
        × IsValid (disable_irq n p)
  unfolding disable_irq blocks
  disable_irq_master h ne j k = (
    ground (arith, set_bit_lem p.master_mask n j, set_bit_lem p.master_mask n 2),
    disable_irq-IsValid (omega arith),
  )

eoi_table : tested_below 8 (λ k. bit_or eoi k % 256 == eoi + k) ≡ true
unfolding tested_below
eoi_table = refl

eoi_command : (k : ℕ) → k < 8 → bit_or eoi k % 256 ≡ eoi + k
eoi_command k h = (==_iff _ _).0 (tested_value 8 (λ k. bit_or eoi k % 256 == eoi + k) k eoi_table h)

-- `send_eoi` on a valid line sends one specific end-of-interrupt command to the controller of that
-- line, and for a line of the slave one for line 2 to the master; the masks stay. On any other
-- number it does nothing.
pub send_eoi_lem :
    (p : Pic) (n : ℕ)
    → send_eoi n p ≡ (
        if ltb n 8
        then record p { log = out 0x20 (0x60 + n) ∷ p.log }
        else if ltb n 16
        then record p { log = out 0x20 0x62 ∷ out 0xA0 (0x60 + (n - 8)) ∷ p.log }
        else p)
unfolding send_eoi outb
send_eoi_lem p n = ground (arith, eoi_command n, eoi_command (n - 8))

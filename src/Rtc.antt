-- ===== src/Rtc.antt =====
-- student-distrib/rtc.c: the driver of the real-time clock. The chip is the parameter `device`.
pub mod Rate
pub mod Wait
mod Tests
use cheet_os.Base.{
  ℕ, ◌+◌, ◌%◌, ◌^◌, Bool, true, false, not, ◌||◌, Option, none, some, List, [], ◌∷◌, ◌==◌,
  if◌then◌else◌, bit_and, bit_or, minus_one, add32,
}
use cheet_os.Io.{Device, outb, inb}
use cheet_os.Pic.{Pic, enable_irq, send_eoi}

-- The driver's variables and the controller that it shares the ports with.
pub record Rtc : Type 0 where
  pub intflag : ℕ
  pub rtc_call_count : ℕ
  pub pic : Pic

abbrev pub reg_a : ℕ
reg_a = 0x8A

abbrev pub reg_b : ℕ
reg_b = 0x8B

abbrev pub reg_c : ℕ
reg_c = 0x8C

abbrev pub rtc_sel : ℕ
rtc_sel = 0x70

abbrev pub rtc_val : ℕ
rtc_val = 0x71

-- The code that `rtc_write` sends for a frequency. The eighth test of the source is an assignment,
-- `frequency = 256`, so it takes that value and passes.
unfoldable pub rate_code : ℕ → ℕ
rate_code frequency =
    if frequency == 2
    then 0x0F
    else if frequency == 4
    then 0x0E
    else if frequency == 8
    then 0x0D
    else if frequency == 16
    then 0x0C
    else if frequency == 32
    then 0x0B
    else if frequency == 64
    then 0x0A
    else if frequency == 128
    then 0x02
    else let assigned : ℕ = 256 in
      if not (assigned == 0)
      then 0x01
      else if assigned == 512
      then 0x07
      else if assigned == 1024
      then 0x06
      else minus_one

-- Register A with a rate code in its low half, and register B with periodic interrupts on.
abbrev pub with_rate : (code a : ℕ) → ℕ
with_rate code a = bit_or (bit_and a 0xF0) code

abbrev pub with_periodic : ℕ → ℕ
with_periodic b = bit_or b 0x40

module _ (device : Device) where
  -- Select a register twice around reading it, then write the value `f` of what was read.
  rewrite : (select : ℕ) → (ℕ → ℕ) → Pic → Pic
  rewrite select f pic =
      let (old, log) = inb device rtc_val (outb select rtc_sel pic.log) in
      record pic { log = outb (f old) rtc_val (outb select rtc_sel log) }

  unfoldable pub rtc_init : Rtc → Rtc
  unfolding rewrite
  rtc_init r =
      let rated = rewrite reg_a (with_rate 0x0F) r.pic in
      let periodic = rewrite reg_b with_periodic rated in
      record { intflag = 0; rtc_call_count = 0; pic = enable_irq 8 periodic }

  -- `frequency` is the word that `buf` points to.
  unfoldable pub rtc_write : (frequency nbytes : ℕ) → Rtc → ℕ × Rtc
  unfolding rewrite
  rtc_write frequency nbytes r =
      let code = rate_code frequency in
      (code, record r { pic = rewrite reg_a (with_rate code) r.pic })

  unfoldable pub rtc_open : Rtc → ℕ × Rtc
  rtc_open r = let (_, r') = rtc_write 2 4 (rtc_init r) in (0, r')

  -- `rtc_call_count` is an `int`.
  unfoldable pub rtc_interrupt_handler : Rtc → Rtc
  rtc_interrupt_handler r =
      let (_, log) = inb device rtc_val (outb reg_c rtc_sel r.pic.log) in
      record {
        intflag = 1;
        rtc_call_count = add32 r.rtc_call_count 1;
        pic = send_eoi 8 (record r.pic { log = log });
      }

  -- The polls of `rtc_read`, each with whether an interrupt is served just before it. `none` means
  -- that the loop still runs when the schedule ends.
  unfoldable pub rtc_read : List Bool → Rtc → Option (ℕ × Rtc)
  rtc_read [] r = none
  rtc_read (tick ∷ later) r =
      let seen = if tick then rtc_interrupt_handler r else r in
      let rest = rtc_read later seen in
      if seen.intflag == 1 then some (0, record seen { intflag = 0 }) else rest

  unfoldable pub rtc_read_helper :
      (inode read_index nbytes : ℕ) → List Bool → Rtc → Option (ℕ × Rtc)
  rtc_read_helper inode read_index nbytes schedule r = rtc_read schedule r

unfoldable pub rtc_close : Rtc → ℕ × Rtc
rtc_close r = (0, r)

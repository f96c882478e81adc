-- ===== src/Rtc/Rate.antt =====
-- The frequencies of rtc.c: what the code that `rtc_write` sends stands for on the chip.
use cheet_os.Base.{
  ℕ, ◌+◌, ◌-◌, ◌/◌, ◌^◌, ◌<◌, ◌≡◌, refl, Bool, true, arith, ◌==◌, ==_iff, if◌then◌else◌,
  tested_below, tested_value,
}
use cheet_os.Io.{Device}
use cheet_os.Pic.{Pic}
use cheet_os.Pic.Lines.{IsValid, blocks, Reaches, enable_irq_lem}
use cheet_os.Rtc.{Rtc, rate_code, rewrite, rtc_init, rtc_write, rtc_open, with_rate, with_periodic}

-- The interrupts per second at a rate code of the MC146818 with its 32768 Hz time base; the codes
-- 1 and 2 repeat 8 and 9.
unfoldable pub chip_frequency : ℕ → ℕ
chip_frequency code =
    if code == 0
    then 0
    else if code == 1
    then 256
    else if code == 2
    then 128
    else 32768 / 2 ^ (code - 1)

abbrev supported : ℕ → Bool
supported k = chip_frequency (rate_code (2 ^ (k + 1))) == 2 ^ (k + 1)

supported_table : tested_below 8 supported ≡ true
unfolding tested_below chip_frequency rate_code
supported_table = refl

-- For the powers of two from 2 to 256 the chip runs at the frequency that was asked for.
pub chip_frequency-rate_code :
    (k : ℕ) → k < 8 → chip_frequency (rate_code (2 ^ (k + 1))) ≡ 2 ^ (k + 1)
chip_frequency-rate_code k h = (==_iff _ _).0 (tested_value 8 supported k supported_table h)

rewrite-IsValid :
    (device : Device) (select : ℕ) (f : ℕ → ℕ) {pic : Pic}
    → IsValid pic
    → IsValid (rewrite device select f pic)
unfolding rewrite
rewrite-IsValid device select f v = ground arith

-- With masks that are bytes, `rtc_open` returns 0, clears the flag and the counter, and leaves
-- the clock's line 8 open, whatever the chip answers.
pub rtc_open_lem :
    (device : Device) (r : Rtc)
    → IsValid r.pic
    → let (status, r') = rtc_open device r in
      (status ≡ 0) × (r'.intflag ≡ 0) × (r'.rtc_call_count ≡ 0) × Reaches r'.pic 8
unfolding rtc_open rtc_write rtc_init blocks
rtc_open_lem device r v =
    let ready =
      rewrite-IsValid device 0x8B with_periodic (rewrite-IsValid device 0x8A (with_rate 0x0F) v) in
    (refl, refl, refl, (enable_irq_lem 8 ready (omega arith) 8 (omega arith)).1)

-- ===== src/Rtc/Tests.antt =====
-- Runs of rtc.c with a chip that answers 0x26, and the theorems at them.
use cheet_os.Base.{◌≡◌, refl, [], ◌∷◌}
use cheet_os.Io.{Device, out, inp, outb, inb}
use cheet_os.Rtc.{Rtc, rate_code, rtc_write, rtc_interrupt_handler}

abbrev chip : Device
chip log = 0x26

abbrev idle : Rtc
idle = record {
  intflag = 0;
  rtc_call_count = 4;
  pic = record { master_mask = 0xFF; slave_mask = 0xFF; log = [] };
}

abbrev pending : Rtc
pending = record idle { intflag = 1 }

write_32 :
    (rtc_write chip 32 4 idle).1.pic.log
    ≡ out 0x71 0x2B ∷ out 0x70 0x8A ∷ inp 0x71 ∷ out 0x70 0x8A ∷ []
unfolding rtc_write rate_code inb outb
write_32 = refl

tick_counts : (rtc_interrupt_handler chip idle).rtc_call_count ≡ 5
unfolding rtc_interrupt_handler
tick_counts = refl

-- ===== src/Pic/Tests.antt =====
-- Runs of i8259.c on concrete masks, and the theorems at them.
use cheet_os.Base.{◌≡◌, refl, [], ◌∷◌}
use cheet_os.Io.{out, outb}
use cheet_os.Pic.{Pic, enable_irq, send_eoi, clear_bit}

abbrev boot : Pic
boot = record { master_mask = 0xFF; slave_mask = 0xFF; log = [] }

keyboard_on : (enable_irq 1 boot).master_mask ≡ 0xFD
unfolding enable_irq clear_bit
keyboard_on = refl

rtc_on : (enable_irq 8 boot).log ≡ out 0x21 0xFB ∷ out 0xA1 0xFE ∷ []
unfolding enable_irq clear_bit outb
rtc_on = refl

eoi_of_rtc : (send_eoi 8 boot).log ≡ out 0x20 0x62 ∷ out 0xA0 0x60 ∷ []
unfolding send_eoi outb
eoi_of_rtc = refl

-- ===== src/Boot/Ends.antt =====
-- How `entry` ends.
use cheet_os.Base.{ℕ, ◌≡◌, ◌≢◌, ◌⊎◌, true}
use cheet_os.Screen.{Screen}
use cheet_os.Boot.{
  Loader, Outcome, returned, running, stuck, multiboot_bootloader_magic, word, check_flag,
}
use cheet_os.Boot.Ready.{Ready}

-- How `entry` ends.
abbrev pub Ends : (b : Loader) (magic addr : ℕ) → Outcome → Type 0
Ends b magic addr (returned s) =
    (magic ≢ multiboot_bootloader_magic)
    ⊎ ((check_flag b (word b addr) 4 ≡ true) × (check_flag b (word b addr) 5 ≡ true))
Ends b magic addr (running q) = (magic ≡ multiboot_bootloader_magic) × Ready b q
Ends b magic addr stuck = ⊥

-- ===== src/Programs/Syserr/Passes.antt =====
-- What the tests of syserr are stated with: a process that has just started, and a test that passes.
use cheet_os.Base.{ℕ, ◌≡◌, some, List, ◌∷◌, replicate}
use cheet_os.Screen.{puts}
use cheet_os.Filesys.{Image}
use cheet_os.Rtc.{Rtc}
use cheet_os.Terminal.{Terminal}
use cheet_os.Files.{Process, terminal_file, blank}
use cheet_os.Programs.{Status}

-- The test returns 0 and has written only that it passes.
abbrev pub Passes : (name : List ℕ) → Process → Status Process → Type 0
Passes message p o =
    o
    ≡ some (
      0,
      record p { terminal = record p.terminal { screen = (puts message p.terminal.screen).1 } },
    )

-- A process that has just started.
abbrev pub started : Image → Terminal → Rtc → Process
started im t r = record {
  image = im;
  file_array = terminal_file ∷ terminal_file ∷ replicate 6 blank;
  terminal = t;
  rtc = r;
}

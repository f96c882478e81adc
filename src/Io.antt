-- ===== src/Io.antt =====
-- student-distrib/lib.h: `outb` and `inb`. The devices are not part of the program: what they
-- answer is a parameter, a function of the accesses made so far.
use cheet_os.Base.{ℕ, ◌%◌, List, ◌∷◌}

-- One port access: a byte written to a port, or a read of a port.
pub data Access : Type 0 where
  out : (port byte : ℕ) → Access
  inp : (port : ℕ) → Access

-- The accesses made so far, the latest first.
abbrev pub Log : Type 0
Log = List Access

abbrev pub Device : Type 0
Device = Log → ℕ

-- `outb(byte, port)`: the low byte of the operand goes out.
unfoldable pub outb : ℕ → ℕ → Log → Log
outb byte port log = out port (byte % 256) ∷ log

-- `inb(port)`: the byte that the device answers, beside the new log.
unfoldable pub inb : Device → ℕ → Log → ℕ × Log
inb device port log = (device (inp port ∷ log) % 256, inp port ∷ log)

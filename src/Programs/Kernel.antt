-- ===== src/Programs/Kernel.antt =====
-- The calls of a program as the kernel answers them.
use cheet_os.Base.{
  ℕ, suc, ◌+◌, ◌-◌, ◌<◌, ◌≡◌, ◌≢◌, ◌∙◌, ap, Option, none, some, List, [], ◌∷◌, get_or, arith,
  length,
}
use mathlib.Core.Option
use cheet_os.Io.{Device}
use cheet_os.Screen.{Screen, store, puts, puts_from, putc}
use cheet_os.Terminal.{Terminal}
use cheet_os.Terminal.Output.{text, terminal_write-puts}
use cheet_os.Printf.{text_at}
use cheet_os.Files.{
  Process, file, Outcome, returns, waits, faults, Events, terminal_file, terminal_ops, store_bytes,
  out_of_table,
}
use cheet_os.Files
use cheet_os.Files.Sequence.{store_bytes_lem}
use cheet_os.Tasks.{Kernel, current_pcb}
use cheet_os.Tasks
use cheet_os.Programs.{Calls}
use cheet_os.Programs.Support.{Holds}

-- What a call that has a buffer leaves in it.
abbrev pub after_call : (ℕ → ℕ) → Outcome → Option (ℕ × (ℕ → ℕ) × Process)
after_call buf (returns value none p) = some (value, buf, p)
after_call buf (returns value (some buf1) p) = some (value, buf1, p)
after_call buf waits = none
after_call buf faults = none

abbrev pub without_buffer : Outcome → Option (ℕ × Process)
without_buffer (returns value buf p) = some (value, p)
without_buffer waits = none
without_buffer faults = none

-- The calls of the process whose control block the stack at `esp` belongs to; a file's name ends within
-- `bound` bytes.
unfoldable pub kernel_calls : Device → Events → (bound esp : ℕ) → Kernel → Calls Process
kernel_calls device events bound esp k = record {
  getargs = λ buf nbytes p.
      let (failed, buf1) = Tasks.getargs esp (some buf) nbytes k in
      some (failed, (elim buf1 [ none ↦ buf | some b ↦ b ]), p);
  open_file = λ filename p.
      Option.map (λ name. Files.open_file device (some name) p) (text_at bound filename 0);
  read = λ fd buf nbytes p. after_call buf (Files.read device events fd buf nbytes p);
  write = λ fd buf nbytes p. without_buffer (Files.write fd buf nbytes p);
  close = λ fd p. without_buffer (Files.close fd p);
}

pub puts_from-length : (cs : List ℕ) (i : ℕ) (s : Screen) → (puts_from cs i s).0 ≡ i + length cs
unfolding puts_from
puts_from-length [] i s = omega arith
puts_from-length (c ∷ cs) i s = puts_from-length cs (i + 1) (putc c s) ∙ omega arith

-- Writing on the standard output puts the text that the buffer holds.
pub write-stdout :
    (buf : ℕ → ℕ) (n : ℕ) (p : Process)
    → file p 1 ≡ terminal_file
    → let shown = puts (text buf n 0) p.terminal.screen in
      Files.write 1 buf n p
      ≡ returns shown.0 (some buf) (record p { terminal = record p.terminal { screen = shown.1 } })
unfolding Files.write Files.write_by
write-stdout buf n p out = rw out (
    ap (λ (r : ℕ × Terminal). returns r.0 (some buf) (record p { terminal = r.1 }))
      (terminal_write-puts buf n p.terminal))

pub values-Holds :
    (cs : List ℕ) (m : ℕ → ℕ) (a : ℕ)
    → ((i : ℕ) → i < length cs → (m (a + i) ≡ get_or cs i 0) × (get_or cs i 0 ≢ 0))
    → m (a + length cs) ≡ 0
    → Holds m a cs
values-Holds [] m a each end = ap m {x = a} {y = a + 0} (omega arith) ∙ end
values-Holds (c ∷ cs) m a each end = (
  ap m {x = a} {y = a + 0} (omega arith) ∙ (each 0 (omega arith)).0,
  (each 0 (omega arith)).1,
  values-Holds cs m (a + 1)
      (λ i lt.
        let (same, real) = each (suc i) (omega arith) in
        (ap m {x = a + 1 + i} {y = a + suc i} (omega arith) ∙ same, real))
      (ap m {x = a + 1 + length cs} {y = a + suc (length cs)} (omega arith) ∙ end),
)

-- The text that `getargs` stores.
pub store_bytes-Holds :
    (name : List ℕ) (m : ℕ → ℕ)
    → ((i : ℕ) → i < length name → get_or name i 0 ≢ 0)
    → Holds (store (store_bytes m 0 name) (length name) 0) 0 name
unfolding store
store_bytes-Holds name m real =
    values-Holds name (store (store_bytes m 0 name) (length name) 0) 0
      (λ i lt. (ground (arith, store_bytes_lem m 0 name (0 + i), zero_minus i), real i lt))
      (ground arith)
  where
    zero_minus : (i : ℕ) → get_or name (0 + i - 0) 0 ≡ get_or name i 0
    zero_minus i = ap (λ k. get_or name k 0) (omega arith)

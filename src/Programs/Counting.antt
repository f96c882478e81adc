-- ===== src/Programs/Counting.antt =====
-- The numbers that counter prints.
use cheet_os.Base.{
  ℕ, zero, suc, ◌+◌, ◌^◌, ◌<◌, ◌≡◌, refl, ◌∙◌, ap, ap₂, sym, some, List, [], ◌∷◌, ◌++◌, ◌==◌, arith,
  length, false, append_assoc, append-nil, bytes,
}
use cheet_os.Printf.Conversion.{numeral, itoa-numeral, length-numeral}
use cheet_os.Terminal.Output.{text}
use cheet_os.Strings.{itoa}
use cheet_os.Programs.{literal, ece391_itoa, ece391_fdputs}
use cheet_os.Programs.Support.{Holds, ece391_strlen_lem}
use cheet_os.Programs.Kernel.{values-Holds}
use cheet_os.Programs.Shell.{count_from}
use cheet_os.Programs.Script.{Event, wrote, Script, scripted, after}
use cheet_os.Programs.Session.{outcome}

-- The numeral that `ece391_itoa` leaves in the buffer.
numeral-Holds : (m : ℕ → ℕ) (v : ℕ) → v < 2 ^ 32 → Holds (ece391_itoa m v 0 10) 0 (numeral 10 v)
unfolding ece391_itoa
numeral-Holds m v lt =
    let (chars, ended) = itoa-numeral m v 0 10 (omega arith) (omega arith) in
    values-Holds (numeral 10 v) (itoa m v 0 10) 0 chars ended

text-Holds : (cs : List ℕ) (m : ℕ → ℕ) (a : ℕ) → Holds m a cs → text m (length cs) a ≡ cs
unfolding text
text-Holds [] m a h = refl
text-Holds (c ∷ cs) m a (here, on, rest) =
    let more : (m a == 0) ≡ false = ground arith in
    rw more (ap₂ (λ x xs. x ∷ xs) here (text-Holds cs m (a + 1) rest))

fdputs-wrote :
    (fuel : ℕ) (m : ℕ → ℕ) (cs : List ℕ) (s : Script)
    → Holds m 0 cs
    → length cs < fuel
    → ece391_fdputs scripted fuel 1 m s ≡ some (after s (wrote cs ∷ []))
unfolding ece391_fdputs scripted
fdputs-wrote fuel m cs s h lt =
    rw (ece391_strlen_lem m cs fuel 0 h lt)
      (ap (λ l. some (after s (wrote l ∷ []))) (text-length ∙ text-Holds cs m 0 h))
  where
    text-length : text m (0 + length cs) 0 ≡ text m (length cs) 0
    text-length = ap (λ n. text m n 0) (omega arith)

-- The events of counting `n` numbers behind `i`.
unfoldable pub numbers : (i n : ℕ) → List Event
numbers i zero = []
numbers i (suc n) = wrote (numeral 10 (i + 1)) ∷ wrote (bytes "\n") ∷ numbers (i + 1) n

-- The loop of counter prints the decimal numerals of the numbers from `i + 1` on, each on a line of its
-- own, and ends with status 0; the numbers are words.
pub count_from-numbers :
    (todo i : ℕ) (buf : ℕ → ℕ) (m : Script)
    → i + todo < 2 ^ 32
    → outcome (count_from scripted todo i buf m) ≡ some (0, m.events ++ numbers i todo)
unfolding count_from numbers
count_from-numbers zero i buf m lt = ap (λ es. some (0, es)) (sym (append-nil m.events))
count_from-numbers (suc todo) i buf m lt =
    let buf1 = ece391_itoa buf (i + 1) 0 10 in
    let short = length-numeral 10 10 (i + 1) (omega arith) (omega arith) (omega arith) in
    let first =
      fdputs-wrote 1024 buf1 (numeral 10 (i + 1)) m (numeral-Holds buf (i + 1) (omega arith))
        (omega arith) in
    let m1 = after m (wrote (numeral 10 (i + 1)) ∷ []) in
    let second =
      fdputs-wrote 100 (literal (bytes "\n")) (bytes "\n") m1 (refl, omega arith, refl)
        (omega arith) in
    rw first (
      rw second (
        count_from-numbers todo (i + 1) buf1 (after m1 (wrote (bytes "\n") ∷ [])) (omega arith)
        ∙ ap (λ es. some (0, es))
            (append_assoc (m.events ++ (wrote (numeral 10 (i + 1)) ∷ [])) (wrote (bytes "\n") ∷ [])
                (numbers (i + 1) todo)
              ∙ append_assoc m.events (wrote (numeral 10 (i + 1)) ∷ [])
                  (wrote (bytes "\n") ∷ numbers (i + 1) todo))))

-- ===== src/Syscalls/Messages.antt =====
-- The two calls that only print: what they put on the screen.
use cheet_os.Base.{
  ℕ, zero, suc, ◌^◌, ◌<◌, ◌≡◌, refl, List, [], ◌∷◌, ◌++◌, some, get_or, bytes, minus_one, arith,
}
use cheet_os.Screen.{puts}
use cheet_os.Printf.{plain, printf}
use cheet_os.Printf.Conversion.{numeral, integer}
use cheet_os.Printf.Rendered.{rendered, described, printf_lem}
use cheet_os.Syscalls.State.{System}
use cheet_os.Syscalls.{Trap, Result, returned, after_message, arguments, set_handler, sigreturn}

-- -1, with a text on the screen.
abbrev pub shown : (text : List ℕ) → System → Result
shown text s =
    returned minus_one
      (record s { kernel = record s.kernel { screen = (puts text s.kernel.screen).1 } })

module _ (t : Trap) (s : System) where
  printed :
      (words format text : List ℕ)
      → ((i : ℕ) → get_or words i 0 < 2 ^ 32)
      → rendered (arguments t words) plain format 0 ≡ some text
      → after_message t s (printf (arguments t words) format s.kernel.screen) ≡ shown text s
  unfolding arguments after_message
  printed words format text small e =
      rw (printf_lem (arguments t words) format s.kernel.screen small, e) refl

  pub set_handler_lem :
      t.ebx < 2 ^ 32
      → t.ecx < 2 ^ 32
      → set_handler t s
        ≡ shown
            (bytes "## set_handler() : "
              ++ (integer t.ebx ++ (bytes ", " ++ (numeral 16 t.ecx ++ bytes "\n"))))
            s
  unfolding set_handler rendered described arguments
  set_handler_lem b c =
      printed (t.ebx ∷ t.ecx ∷ []) (bytes "## set_handler() : %d, %x\n") _ (go b c) refl
    where
      go : {m n : ℕ} → m < 2 ^ 32 → n < 2 ^ 32 → (i : ℕ) → get_or (m ∷ n ∷ []) i 0 < 2 ^ 32
      go b c zero = b
      go b c (suc zero) = c
      go b c (suc (suc i)) = omega arith

  pub sigreturn_lem : sigreturn t s ≡ shown (bytes "## sigreturn()\n") s
  unfolding sigreturn rendered described arguments
  sigreturn_lem = printed [] (bytes "## sigreturn()\n") _ (λ i. omega arith) refl

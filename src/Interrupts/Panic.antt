-- ===== src/Interrupts/Panic.antt =====
-- An exception leaves its message on the blue screen and stops the machine.
use cheet_os.Base.{
  ℕ, zero, suc, ◌^◌, ◌<◌, ◌≡◌, refl, ◌∙◌, ap, Bool, true, false, not, List, [], ◌∷◌, ◌==◌, ltb,
  ◌&&◌, if◌then◌else◌, arith, length, bytes, get_or, Option, some, Bool-cases, inl, inr,
  tested_below, tested_value, map,
}
use mathlib.Core.Option
use cheet_os.Screen.{Screen, blue_screen, puts}
use cheet_os.Screen.Grid.{IsValid, cells, glyph, cursor, prints}
use cheet_os.Screen.Safe.{AllPrint, overlay, puts-overlay}
use cheet_os.Screen.Cursor.{clear_lem}
use cheet_os.Printf.{Frame}
use cheet_os.Printf.Rendered.{IsPlain, rendered-plain, printf_lem}
use cheet_os.Interrupts.{
  Handler, at_generic_error, at_divide_error, at_debug, at_nmi, at_breakpoint, at_overflow,
  at_bounds, at_invalid_op, at_device_not_available, at_double_fault, at_segment_overrun,
  at_invalid_tss, at_segment_not_present, at_stack_segment, at_general_protection, at_page_fault,
  at_fp, at_alignment_check, at_machine_check, at_system_call_handler, at_rtc_handler,
  at_key_handler, exceptions, Stopped, stop, panic, run_handler, divide_error, debug, nmi,
  breakpoint, overflow, bounds, invalid_op, device_not_available, double_fault, segment_overrun,
  invalid_tss, segment_not_present, stack_segment, general_protection, page_fault, generic_error,
  fp, alignment_check, machine_check,
}
use cheet_os.Interrupts.Gates.{exception_of, exception_of_lem}

-- A text that is put as it is.
abbrev plain_text : List ℕ → Bool
plain_text [] = true
plain_text (c ∷ cs) = (prints c && not (c == b'%')) && plain_text cs

plain_text-All : (cs : List ℕ) → plain_text cs ≡ true → AllPrint cs × IsPlain cs
plain_text-All [] h = (tt, tt)
plain_text-All (c ∷ cs) h =
    let (ok, plain_cs) = plain_text-All cs (ground arith) in
    ((ground arith, ok), (ground arith, plain_cs))

-- The machine has stopped, with interrupts off, and its screen shows the message in the first cells
-- and blanks behind it.
pub record Shows (message : List ℕ) (r : Stopped) : Type 0 where
  pub off : r.interrupts ≡ false
  pub shown : (p : ℕ) → p < cells → glyph r.screen p ≡ overlay message 0 p b' '
  pub behind : cursor r.screen ≡ length message

abbrev pub Panics : (message : List ℕ) → Option Stopped → Type 0
Panics message o = (r : Stopped) × (o ≡ some r) × Shows message r

blue_screen-IsValid : (s : Screen) → IsValid (blue_screen s) × (cursor (blue_screen s) ≡ 0)
unfolding blue_screen cursor
blue_screen-IsValid s = (record { column = omega arith; row = omega arith }, refl)

panic-Panics :
    (f : Frame) (message : List ℕ) (s : Screen)
    → ((i : ℕ) → f.words i < 2 ^ 32)
    → plain_text message ≡ true
    → length message < cells
    → Panics message (panic f message s)
unfolding panic stop
panic-Panics f message s words ok short =
    let (put, as_is) = plain_text-All message ok in
    let (valid, first) = blue_screen-IsValid s in
    let done = puts-overlay message 0 valid put (omega (arith, first)) in
    let run =
      printf_lem f message (blue_screen s) words
      ∙ ap (Option.map {B = ℕ × Screen} (λ text. (length message, (puts text (blue_screen s)).1)))
          (rendered-plain f message 0 as_is) in
    (
      record { screen = (puts message (blue_screen s)).1; interrupts = false },
      rw run refl,
      record {
        off = refl;
        shown = λ p lt.
            (puts-overlay message p valid put (omega (arith, first))).1
            ∙ rw (first, (clear_lem s p lt).1) refl;
        behind = done.0 ∙ omega (arith, first);
      },
    )

abbrev is_exception : Handler → Bool
is_exception at_system_call_handler = false
is_exception at_rtc_handler = false
is_exception at_key_handler = false
is_exception h = true

-- The message of each handler, and the messages by vector.
abbrev told : Handler → List ℕ
told at_divide_error = bytes "Division by 0"
told at_debug = bytes "Debug Exception"
told at_nmi = bytes "Non-Maskable Interrupt"
told at_breakpoint = bytes "Breakpoint (INT3)"
told at_overflow = bytes "Overflow with EFLAGS[OF] Set"
told at_bounds = bytes "Debug Exception"
told at_invalid_op = bytes "Invalid Opcode"
told at_device_not_available = bytes "Floating Point Unit Missing"
told at_double_fault = bytes "Double Fault"
told at_segment_overrun = bytes "Coprocessor Segment Overrun"
told at_invalid_tss = bytes "Invalid TSS"
told at_segment_not_present = bytes "Segment Not Present"
told at_stack_segment = bytes "Stack Exception"
told at_general_protection = bytes "General Protection Exception"
told at_page_fault = bytes "Page Fault"
told at_generic_error = bytes "Undefined Exception"
told at_fp = bytes "Floating Point Error"
told at_alignment_check = bytes "Alignment Check"
told at_machine_check = bytes "Machine Check Exception"
told h = []

abbrev pub messages : List (List ℕ)
messages =
    bytes "Division by 0"
    ∷ bytes "Debug Exception"
    ∷ bytes "Non-Maskable Interrupt"
    ∷ bytes "Breakpoint (INT3)"
    ∷ bytes "Overflow with EFLAGS[OF] Set"
    ∷ bytes "Debug Exception"
    ∷ bytes "Invalid Opcode"
    ∷ bytes "Floating Point Unit Missing"
    ∷ bytes "Double Fault"
    ∷ bytes "Coprocessor Segment Overrun"
    ∷ bytes "Invalid TSS"
    ∷ bytes "Segment Not Present"
    ∷ bytes "Stack Exception"
    ∷ bytes "General Protection Exception"
    ∷ bytes "Page Fault"
    ∷ bytes "Undefined Exception"
    ∷ bytes "Floating Point Error"
    ∷ bytes "Alignment Check"
    ∷ bytes "Machine Check Exception"
    ∷ []

-- What the exception of a vector shows.
abbrev pub announced : ℕ → List ℕ
announced v =
    if ltb v 19
    then get_or messages v (bytes "Undefined Exception")
    else bytes "Undefined Exception"

get_or-told :
    (hs : List Handler) (v : ℕ)
    → get_or (map told hs) v (told at_generic_error) ≡ told (get_or hs v at_generic_error)
get_or-told [] v = refl
get_or-told (h ∷ hs) zero = refl
get_or-told (h ∷ hs) (suc v) = get_or-told hs v

module _ (f : Frame) (s : Screen) (words : (i : ℕ) → f.words i < 2 ^ 32) where
  run_handler-Panics : (h : Handler) → is_exception h ≡ true → Panics (told h) (run_handler h f s)
  unfolding run_handler divide_error debug nmi breakpoint overflow bounds invalid_op
      device_not_available double_fault segment_overrun invalid_tss segment_not_present
      stack_segment general_protection page_fault generic_error fp alignment_check machine_check
  run_handler-Panics at_divide_error e =
      panic-Panics f (bytes "Division by 0") s words refl (omega arith)
  run_handler-Panics at_debug e =
      panic-Panics f (bytes "Debug Exception") s words refl (omega arith)
  run_handler-Panics at_nmi e =
      panic-Panics f (bytes "Non-Maskable Interrupt") s words refl (omega arith)
  run_handler-Panics at_breakpoint e =
      panic-Panics f (bytes "Breakpoint (INT3)") s words refl (omega arith)
  run_handler-Panics at_overflow e =
      panic-Panics f (bytes "Overflow with EFLAGS[OF] Set") s words refl (omega arith)
  run_handler-Panics at_bounds e =
      panic-Panics f (bytes "Debug Exception") s words refl (omega arith)
  run_handler-Panics at_invalid_op e =
      panic-Panics f (bytes "Invalid Opcode") s words refl (omega arith)
  run_handler-Panics at_device_not_available e =
      panic-Panics f (bytes "Floating Point Unit Missing") s words refl (omega arith)
  run_handler-Panics at_double_fault e =
      panic-Panics f (bytes "Double Fault") s words refl (omega arith)
  run_handler-Panics at_segment_overrun e =
      panic-Panics f (bytes "Coprocessor Segment Overrun") s words refl (omega arith)
  run_handler-Panics at_invalid_tss e =
      panic-Panics f (bytes "Invalid TSS") s words refl (omega arith)
  run_handler-Panics at_segment_not_present e =
      panic-Panics f (bytes "Segment Not Present") s words refl (omega arith)
  run_handler-Panics at_stack_segment e =
      panic-Panics f (bytes "Stack Exception") s words refl (omega arith)
  run_handler-Panics at_general_protection e =
      panic-Panics f (bytes "General Protection Exception") s words refl (omega arith)
  run_handler-Panics at_page_fault e =
      panic-Panics f (bytes "Page Fault") s words refl (omega arith)
  run_handler-Panics at_generic_error e =
      panic-Panics f (bytes "Undefined Exception") s words refl (omega arith)
  run_handler-Panics at_fp e =
      panic-Panics f (bytes "Floating Point Error") s words refl (omega arith)
  run_handler-Panics at_alignment_check e =
      panic-Panics f (bytes "Alignment Check") s words refl (omega arith)
  run_handler-Panics at_machine_check e =
      panic-Panics f (bytes "Machine Check Exception") s words refl (omega arith)
  run_handler-Panics at_system_call_handler e = cc
  run_handler-Panics at_rtc_handler e = cc
  run_handler-Panics at_key_handler e = cc

exceptions_table : tested_below 19 (λ v. is_exception (get_or exceptions v at_generic_error)) ≡ true
unfolding tested_below
exceptions_table = refl

-- The handler of each vector, started with any screen, shows the message of the vector on a blank
-- screen, does not return, and leaves interrupts off.
pub exception_of-Panics :
    (f : Frame) (s : Screen) (v : ℕ)
    → ((i : ℕ) → f.words i < 2 ^ 32)
    → Panics (announced v) (run_handler (exception_of v) f s)
exception_of-Panics f s v words = elim (Bool-cases (ltb v 19)) [
  | inl own ↦
      rw (exception_of_lem v, own)
        (rw (get_or-told exceptions v) (
          run_handler-Panics f s words (get_or exceptions v at_generic_error) (
            tested_value 19 (λ k. is_exception (get_or exceptions k at_generic_error)) v
              exceptions_table (ground arith))))
  | inr shared ↦
      rw (exception_of_lem v, shared) (run_handler-Panics f s words at_generic_error refl)
]

-- ===== src/Interrupts/Tests.antt =====
-- The interrupt table with made-up addresses, and two exceptions.
use cheet_os.Base.{◌≡◌, refl, arith, bytes, []}
use cheet_os.Screen.{Screen}
use cheet_os.Printf.{Frame}
use cheet_os.Interrupts.{
  Addresses, initial_gate, at_page_fault, at_generic_error, init_idt, run_handler,
}
use cheet_os.Interrupts.Gates.{target, aimed, exception_of, init_idt_lem}
use cheet_os.Interrupts.Panic.{Panics, exception_of-Panics}

abbrev address : Addresses
address at_page_fault = 0x00401E24
address h = 0x00402000

abbrev frame : Frame
frame = record { words = λ i. 9; memory = λ a. 0; bound = 16; conv = λ i. 0 }

abbrev screen : Screen
screen = record { video = λ i. 0x41; screen_x = 12; screen_y = 20; log = [] }

page_fault_is_known : exception_of 14 ≡ at_page_fault
unfolding exception_of
page_fault_is_known = refl

unknown_is_generic : exception_of 77 ≡ at_generic_error
unfolding exception_of
unknown_is_generic = refl

page_fault_gate : target (init_idt address (λ v. initial_gate) 14) ≡ 0x00401E24
unfolding target exception_of
page_fault_gate = rw (init_idt_lem address (λ v. initial_gate) 14 (omega arith)) refl

init_idt_lem_example : init_idt address (λ v. initial_gate) 14 ≡ aimed 0x00401E24 initial_gate
unfolding exception_of
init_idt_lem_example = init_idt_lem address (λ v. initial_gate) 14 (omega arith)

exception_of-Panics_example : Panics (bytes "Page Fault") (run_handler at_page_fault frame screen)
unfolding exception_of
exception_of-Panics_example = exception_of-Panics frame screen 14 (λ i. omega arith)

-- ===== src/Boot/Ready.antt =====
-- What `entry` has set up at the end of its preparations, and that it comes there.
use cheet_os.Base.{
  ℕ, ◌%◌, ◌^◌, ◌<◌, ◌≡◌, refl, inl, inr, ◌∙◌, ap, Bool, true, false, not, ◌&&◌, none, some, [],
  ◌==◌, ltb, leb, if◌then◌else◌, arith, Bool-cases, tested_below, tested_value,
}
use cheet_os.Screen.{Screen}
use cheet_os.Pic.{i8259_init, enable_irq, clear_bit}
use cheet_os.Pic.Masks.{bit}
use cheet_os.Pic.Lines.{blocks}
use cheet_os.Rtc.{rtc_init}
use cheet_os.Paging.Walk.{translate}
use cheet_os.Paging.Maps.{paging_init_lem}
use cheet_os.Interrupts.{
  Gate, Handler, Table, Addresses, initial_gate, kernel_cs, set_idt_entry, at_system_call_handler,
  at_rtc_handler, at_key_handler,
}
use cheet_os.Interrupts.Gates.{target, aimed, target-aimed, exception_of, init_idt_lem}
use cheet_os.Boot.{Machine, Loader, open_trap, set_gates, start_up}

abbrev same_bool : Bool → Bool → Bool
same_bool true a = a
same_bool false a = not a

same_bool_lem : (a b : Bool) → same_bool a b ≡ true → a ≡ b
same_bool_lem true true h = refl
same_bool_lem true false h = cc
same_bool_lem false true h = cc
same_bool_lem false false h = refl

-- The handler of a vector once the kernel runs.
abbrev pub handler_of : ℕ → Handler
handler_of v =
    if v == 0x80
    then at_system_call_handler
    else if v == 0x28
    then at_rtc_handler
    else if v == 0x21
    then at_key_handler
    else exception_of v

-- Each of the 256 vectors leads to its handler, through a gate of the kernel's code segment that is
-- present; from user mode the `int` instruction may use vector 0x80 only.
set_gates_lem :
    (address : Addresses) (idt : Table) (v : ℕ)
    → v < 256
    → set_gates address idt v ≡ (
        let aim = aimed (address (handler_of v)) (idt v) in
        if v == 0x80 then record aim { dpl = 3; seg_selector = kernel_cs } else aim)
unfolding set_gates open_trap set_idt_entry
set_gates_lem address idt v h =
    let base = init_idt_lem address idt v h in
    elim (Bool-cases (v == 0x80)) [
      | inl trap ↦
          let a : (v == 0x28) ≡ false = ground arith in
          let b : (v == 0x21) ≡ false = ground arith in rw (trap, a, b) (rw base refl)
      | inr other ↦ elim (Bool-cases (v == 0x28)) [
        | inl clock ↦
            let b : (v == 0x21) ≡ false = ground arith in rw (other, clock, b) (rw base refl)
        | inr other' ↦ elim (Bool-cases (v == 0x21)) [
          | inl key ↦ rw (other, other', key) (rw base refl)
          | inr exception ↦ rw (other, other', exception) (rw base refl)
        ]
      ]
    ]

-- What `entry` relies on: the linker's addresses are words, the table is as x86_desc.S has it, the masks
-- are as i8259.c has them, and the page table stands on a page boundary.
pub record Fresh (b : Loader) (m : Machine) : Type 0 where
  pub words : (h : Handler) → b.address h < 2 ^ 32
  pub gates : (v : ℕ) → m.idt v ≡ initial_gate
  pub master : m.rtc.pic.master_mask ≡ 0xFF
  pub slave : m.rtc.pic.slave_mask ≡ 0xFF
  pub aligned : m.paging.page_table_address % 4096 ≡ 0

-- The machine at the end of the preparations.
pub record Ready (b : Loader) (q : Machine) : Type 0 where
  pub vectors : (v : ℕ) → v < 256 → target (q.idt v) ≡ b.address (handler_of v)
  pub gates :
      (v : ℕ)
      → v < 256
      → ((q.idt v).present ≡ 1)
        × ((q.idt v).seg_selector ≡ kernel_cs)
        × ((q.idt v).dpl ≡ (if v == 0x80 then 3 else 0))
  pub lines :
      (j : ℕ)
      → j < 16
      → (blocks q.rtc.pic j == 0) ≡ (if j == 1 then true else if j == 2 then true else j == 8)
  pub clock : (q.rtc.intflag ≡ 0) × (q.rtc.rtc_call_count ≡ 0)
  pub pages :
      (a : ℕ)
      → a < 2 ^ 32
      → translate q.paging a ≡ (
          if leb 0x00400000 a && ltb a 0x00800000
          then some a
          else if leb 0xB8000 a && ltb a 0xBC000
          then some a
          else none)
  pub kernel_stack : q.esp0 ≡ 0x800000
  pub open_to_interrupts : q.interrupts ≡ true

-- The lines that two masks let through.
open_line : (master slave j : ℕ) → Bool
unfolding blocks
open_line master slave j =
    blocks (record { master_mask = master; slave_mask = slave; log = [] }) j == 0

lines_table :
    tested_below 16 (λ j.
      same_bool (open_line 0xF9 0xFE j) (if j == 1 then true else if j == 2 then true else j == 8))
    ≡ true
unfolding tested_below open_line blocks bit
lines_table = refl

abbrev aimed_gate : Bool → Gate → Gate
aimed_gate user g = if user then record g { dpl = 3; seg_selector = kernel_cs } else g

aimed_gate-target :
    (user : Bool) (a : ℕ) (g : Gate) → a < 2 ^ 32 → target (aimed_gate user (aimed a g)) ≡ a
unfolding target
aimed_gate-target true a g h = target-aimed a g h
aimed_gate-target false a g h = target-aimed a g h

aimed_gate_lem :
    (user : Bool) (a : ℕ)
    → let g = aimed_gate user (aimed a initial_gate) in
      (g.present ≡ 1) × (g.seg_selector ≡ kernel_cs) × (g.dpl ≡ (if user then 3 else 0))
aimed_gate_lem true a = (refl, refl, refl)
aimed_gate_lem false a = (refl, refl, refl)

module _ (b : Loader) (block : ℕ) {m : Machine} (h : Fresh b m) where
  start_up-masks :
      let p = (start_up b block m).rtc.pic in (p.master_mask ≡ 0xF9) × (p.slave_mask ≡ 0xFE)
  unfolding start_up i8259_init rtc_init enable_irq clear_bit
  start_up-masks = (rw h.master refl, rw h.slave refl)

  start_up-lines :
      (j : ℕ)
      → j < 16
      → (blocks (start_up b block m).rtc.pic j == 0)
        ≡ (if j == 1 then true else if j == 2 then true else j == 8)
  unfolding blocks open_line
  start_up-lines j lt =
      let (master, slave) = start_up-masks in
      rw (master, slave)
        (same_bool_lem _ _ (
          tested_value 16
            (λ k.
              same_bool (open_line 0xF9 0xFE k)
                (if k == 1 then true else if k == 2 then true else k == 8))
            j lines_table lt))

  pub start_up-Ready :
      (s : Screen) → Ready b (record (start_up b block m) { screen = s; interrupts = true })
  start_up-Ready s = record {
    vectors = λ v lt.
        unfold start_up in
        ap target (set_gates_lem b.address m.idt v lt)
        ∙ aimed_gate-target (v == 0x80) (b.address (handler_of v)) (m.idt v)
            (h.words (handler_of v));
    gates = λ v lt.
        unfold start_up in
        rw (set_gates_lem b.address m.idt v lt, h.gates v)
          (aimed_gate_lem (v == 0x80) (b.address (handler_of v)));
    lines = start_up-lines;
    clock = unfold start_up in unfold rtc_init in (refl, refl);
    pages = λ a lt. unfold start_up in paging_init_lem m.paging a h.aligned lt;
    kernel_stack = unfold start_up in refl;
    open_to_interrupts = refl;
  }

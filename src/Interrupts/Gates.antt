-- ===== src/Interrupts/Gates.antt =====
-- Where each entry of the table leads.
use cheet_os.Base.{
  ℕ, zero, suc, ◌+◌, ◌-◌, ◌*◌, ◌/◌, ◌%◌, ◌^◌, ◌<◌, ◌≡◌, refl, ap, List, [], ◌∷◌, ◌==◌, ltb, leb,
  ◌&&◌, if◌then◌else◌, arith, length, get_or, true, Bool-cases, inl, inr,
}
use cheet_os.Interrupts.{
  Gate, Handler, at_generic_error, at_divide_error, at_debug, at_nmi, at_breakpoint, at_overflow,
  at_bounds, at_invalid_op, at_device_not_available, at_double_fault, at_segment_overrun,
  at_invalid_tss, at_segment_not_present, at_stack_segment, at_general_protection, at_page_fault,
  at_fp, at_alignment_check, at_machine_check, Addresses, Table, set_idt_entry, set_entries,
  set_generic, exceptions, init_idt,
}

-- The address that an interrupt through a gate jumps to.
unfoldable pub target : Gate → ℕ
target g = g.offset_31_16 * 2 ^ 16 + g.offset_15_00

-- A gate with another target.
abbrev pub aimed : ℕ → Gate → Gate
aimed a g = record g { offset_31_16 = a / 2 ^ 16 % 2 ^ 16; offset_15_00 = a % 2 ^ 16 }

pub target-aimed : (a : ℕ) (g : Gate) → a < 2 ^ 32 → target (aimed a g) ≡ a
unfolding target
target-aimed a g h = omega arith

pub set_idt_entry_lem :
    (address : Addresses) (i : ℕ) (h : Handler) (idt : Table) (v : ℕ)
    → set_idt_entry address i h idt v ≡ (if v == i then aimed (address h) (idt v) else idt v)
unfolding set_idt_entry
set_idt_entry_lem address i h idt v = refl

set_generic_lem :
    (address : Addresses) (i todo : ℕ) (idt : Table) (v : ℕ)
    → set_generic address i todo idt v
      ≡ (if leb i v && ltb v (i + todo) then aimed (address at_generic_error) (idt v) else idt v)
unfolding set_generic
set_generic_lem address i zero idt v = ground arith
set_generic_lem address i (suc todo) idt v = ground (
  arith,
  set_generic_lem address (i + 1) todo (set_idt_entry address i at_generic_error idt) v,
  set_idt_entry_lem address i at_generic_error idt v,
)

get_or-cons :
    (h : Handler) (hs : List Handler) (k : ℕ)
    → get_or (h ∷ hs) k at_generic_error
      ≡ (if k == 0 then h else get_or hs (k - 1) at_generic_error)
get_or-cons h hs zero = refl
get_or-cons h hs (suc k) = ground arith

set_entries_lem :
    (address : Addresses) (i : ℕ) (hs : List Handler) (idt : Table) (v : ℕ)
    → set_entries address i hs idt v ≡ (
        if leb i v && ltb v (i + length hs)
        then aimed (address (get_or hs (v - i) at_generic_error)) (idt v)
        else idt v)
unfolding set_entries
set_entries_lem address i [] idt v = ground arith
set_entries_lem address i (h ∷ hs) idt v =
    let shift : get_or hs (v - (i + 1)) at_generic_error ≡ get_or hs (v - i - 1) at_generic_error =
      ap (λ k. get_or hs k at_generic_error) (omega arith) in
    ground (
      arith,
      set_entries_lem address (i + 1) hs (set_idt_entry address i h idt) v,
      set_idt_entry_lem address i h idt v,
      get_or-cons h hs (v - i),
      shift,
    )

-- The handler of each of the processor's exceptions, by its vector, and the one of all other vectors.
unfoldable pub exception_of : ℕ → Handler
exception_of v =
    if v == 0
    then at_divide_error
    else if v == 1
    then at_debug
    else if v == 2
    then at_nmi
    else if v == 3
    then at_breakpoint
    else if v == 4
    then at_overflow
    else if v == 5
    then at_bounds
    else if v == 6
    then at_invalid_op
    else if v == 7
    then at_device_not_available
    else if v == 8
    then at_double_fault
    else if v == 9
    then at_segment_overrun
    else if v == 10
    then at_invalid_tss
    else if v == 11
    then at_segment_not_present
    else if v == 12
    then at_stack_segment
    else if v == 13
    then at_general_protection
    else if v == 14
    then at_page_fault
    else if v == 16
    then at_fp
    else if v == 17
    then at_alignment_check
    else if v == 18
    then at_machine_check
    else at_generic_error

-- The lines of `init_idt` give these in their order.
pub exception_of_lem :
    (v : ℕ)
    → exception_of v ≡ (if ltb v 19 then get_or exceptions v at_generic_error else at_generic_error)
unfolding exception_of
exception_of_lem v = elim (Bool-cases (ltb v 19)) [
  | inl own ↦ rw own (by_vector v own)
  | inr shared ↦ rw shared (ground (arith, shared))
]
  where
    by_vector : (v : ℕ) → ltb v 19 ≡ true → exception_of v ≡ get_or exceptions v at_generic_error
    by_vector zero h = refl
    by_vector (suc zero) h = refl
    by_vector (suc (suc zero)) h = refl
    by_vector (suc (suc (suc zero))) h = refl
    by_vector (suc (suc (suc (suc zero)))) h = refl
    by_vector (suc (suc (suc (suc (suc zero))))) h = refl
    by_vector (suc (suc (suc (suc (suc (suc zero)))))) h = refl
    by_vector (suc (suc (suc (suc (suc (suc (suc zero))))))) h = refl
    by_vector (suc (suc (suc (suc (suc (suc (suc (suc zero)))))))) h = refl
    by_vector (suc (suc (suc (suc (suc (suc (suc (suc (suc zero))))))))) h = refl
    by_vector (suc (suc (suc (suc (suc (suc (suc (suc (suc (suc zero)))))))))) h = refl
    by_vector (suc (suc (suc (suc (suc (suc (suc (suc (suc (suc (suc zero))))))))))) h = refl
    by_vector (suc (suc (suc (suc (suc (suc (suc (suc (suc (suc (suc (suc zero)))))))))))) h = refl
    by_vector (suc (suc (suc (suc (suc (suc (suc (suc (suc (suc (suc (suc (suc zero))))))))))))) h =
        refl
    by_vector
          (suc (suc (suc (suc (suc (suc (suc (suc (suc (suc (suc (suc (suc (suc zero))))))))))))))
          h =
        refl
    by_vector
          (suc (
            suc (suc (suc (suc (suc (suc (suc (suc (suc (suc (suc (suc (suc (suc zero)))))))))))))))
          h =
        refl
    by_vector
          (suc (
            suc (
              suc (
                suc (suc (suc (suc (suc (suc (suc (suc (suc (suc (suc (suc (suc zero))))))))))))))))
          h =
        refl
    by_vector
          (suc (
            suc (
              suc (
                suc (
                  suc (
                    suc (suc (suc (suc (suc (suc (suc (suc (suc (suc (suc (suc zero)))))))))))))))))
          h =
        refl
    by_vector
          (suc (
            suc (
              suc (
                suc (
                  suc (
                    suc (
                      suc (
                        suc (suc (suc (suc (suc (suc (suc (suc (suc (suc (suc zero))))))))))))))))))
          h =
        refl
    by_vector
          (suc (
            suc (
              suc (
                suc (
                  suc (
                    suc (
                      suc (
                        suc (
                          suc (suc (suc (suc (suc (suc (suc (suc (suc (suc (suc v)))))))))))))))))))
          h =
        absurd (ground (arith, h))

-- `init_idt` aims each of the 256 entries at the handler of its vector, that of the exception for the
-- vectors 0 to 14 and 16 to 18 and the generic one for all others, and leaves the other fields of the
-- entries alone.
pub init_idt_lem :
    (address : Addresses) (idt : Table) (v : ℕ)
    → v < 256
    → init_idt address idt v ≡ aimed (address (exception_of v)) (idt v)
unfolding init_idt
init_idt_lem address idt v h = ground (
  arith,
  set_generic_lem address 32 224 (set_generic address 19 13 (set_entries address 0 exceptions idt))
      v,
  set_generic_lem address 19 13 (set_entries address 0 exceptions idt) v,
  set_entries_lem address 0 exceptions idt v,
  ap (λ k. get_or exceptions k at_generic_error) (minus_zero v),
  exception_of_lem v,
)
  where
    minus_zero : (k : ℕ) → k - 0 ≡ k
    minus_zero k = omega arith

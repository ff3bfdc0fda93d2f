-- ===== src/Interrupt.antt =====
-- The interrupt controller driver, QSD8250Pkg/Drivers/InterruptDxe/InterruptDxe.c: a table of
-- handlers, and the vectored interrupt controller (VIC) behind memory-mapped registers.
pub mod Register
pub mod Masks
pub mod Dispatch
mod Tests
use msm8909pkg.Base.{
  ℕ, zero, suc, ◌+◌, ◌-◌, ◌%◌, ◌^◌, Bool, true, false, Option, none, some, List, [], ◌∷◌, ◌++◌,
  if◌then◌else◌, ◌==◌, ltb, get_elem?, set, bit_and,
}

-- What the driver does to the world, in order: a register write, a data synchronization barrier, a
-- call of a registered handler with its vector.
pub data Event : Type 0 where
  write : ℕ → ℕ → Event
  barrier : Event
  call : ℕ → ℕ → Event

pub data Status : Type 0 where
  success unsupported invalid_parameter already_started : Status

-- `NR_IRQS` of QSD8250Pkg/Include/Chipset/irqs.h.
abbrev pub nr_irqs : ℕ
nr_irqs = 64 + 23 + 165 + 64 + 16

-- The registers of QSD8250Pkg/Include/Chipset/interrupts.h, as offsets from `MSM_VIC_BASE`.
abbrev pub vic_int_select0 : ℕ
vic_int_select0 = 0x00

abbrev pub vic_int_select1 : ℕ
vic_int_select1 = 0x04

abbrev pub vic_int_en0 : ℕ
vic_int_en0 = 0x10

abbrev pub vic_int_en1 : ℕ
vic_int_en1 = 0x14

abbrev pub vic_int_enclear0 : ℕ
vic_int_enclear0 = 0x20

abbrev pub vic_int_enclear1 : ℕ
vic_int_enclear1 = 0x24

abbrev pub vic_int_enset0 : ℕ
vic_int_enset0 = 0x30

abbrev pub vic_int_enset1 : ℕ
vic_int_enset1 = 0x34

abbrev pub vic_int_type0 : ℕ
vic_int_type0 = 0x40

abbrev pub vic_int_type1 : ℕ
vic_int_type1 = 0x44

abbrev pub vic_int_masteren : ℕ
vic_int_masteren = 0x68

abbrev pub vic_config : ℕ
vic_config = 0x6C

abbrev pub vic_int_clear0 : ℕ
vic_int_clear0 = 0xB0

abbrev pub vic_int_clear1 : ℕ
vic_int_clear1 = 0xB4

abbrev pub vic_irq_vec_wr : ℕ
vic_irq_vec_wr = 0xD8

abbrev all_ones : ℕ
all_ones = 0xffffffff

-- `gRegisteredInterruptHandlers` (NULL is `none`, a handler is known by a number), and all that has
-- been done so far.
pub record Vic : Type 0 where
  pub handlers : List (Option ℕ)
  pub events : List Event

pub emit : Event → Vic → Vic
emit e v = record v { events = v.events ++ (e ∷ []) }

pub init_interrupts : List Event
init_interrupts =
    write vic_int_clear0 all_ones
    ∷ write vic_int_clear1 all_ones
    ∷ write vic_int_select0 0
    ∷ write vic_int_select1 0
    ∷ write vic_int_type0 all_ones
    ∷ write vic_int_type1 all_ones
    ∷ write vic_config 0
    ∷ write vic_int_en0 1
    ∷ write vic_int_en1 1
    ∷ write vic_int_masteren 1
    ∷ []

pub deinit_interrupts : List Event
deinit_interrupts =
    write vic_int_masteren 0
    ∷ write vic_int_en0 0
    ∷ write vic_int_en1 0
    ∷ write vic_int_clear0 all_ones
    ∷ write vic_int_clear1 all_ones
    ∷ write vic_int_select0 0
    ∷ write vic_int_select1 0
    ∷ write vic_int_type0 all_ones
    ∷ write vic_int_type1 all_ones
    ∷ write vic_config 0
    ∷ []

-- `(Source > 31) ? reg1 : reg0` and `1 << (Source & 31)`.
abbrev pub bank_reg : ℕ → ℕ → ℕ → ℕ
bank_reg source reg0 reg1 = if ltb 31 source then reg1 else reg0

abbrev pub source_bit : ℕ → ℕ
source_bit source = 2 ^ (source % 32)

-- The guard `Source > NR_IRQS`; `ASSERT (FALSE)` does nothing in a release build.
abbrev guarded : ℕ → Vic → (Vic → Status × Vic) → Status × Vic
guarded source v body = if ltb nr_irqs source then (unsupported, v) else body v

pub enable_interrupt_source : ℕ → Vic → Status × Vic
unfolding emit
enable_interrupt_source source v = guarded source v (λ v.
    (success, emit (write (bank_reg source vic_int_enset0 vic_int_enset1) (source_bit source)) v))

pub disable_interrupt_source : ℕ → Vic → Status × Vic
unfolding emit
disable_interrupt_source source v = guarded source v (λ v. (
  success,
  emit (write (bank_reg source vic_int_enclear0 vic_int_enclear1) (source_bit source)) v,
))

pub end_of_interrupt : ℕ → Vic → Status × Vic
unfolding emit
end_of_interrupt source v =
    guarded source v (λ v. (success, emit barrier (emit (write vic_irq_vec_wr 0) v)))

-- `GetInterruptSourceState` on the word that `ENCLEAR` gives for the source: the state is TRUE where
-- the source's bit is clear. `none` stands for `EFI_UNSUPPORTED`.
pub get_interrupt_source_state : ℕ → ℕ → Option Bool
get_interrupt_source_state source word =
    if ltb nr_irqs source
    then none
    else some (if bit_and word (source_bit source) == source_bit source then false else true)

-- The tests on the handler and the table's entry.
check_entry : ℕ → Option ℕ → Option ℕ → Vic → Status × Vic
unfolding enable_interrupt_source
check_entry source none none v = (invalid_parameter, v)
check_entry source (some h) (some old) v = (already_started, v)
check_entry source handler entry v =
    enable_interrupt_source source (record v { handlers = set v.handlers source handler })

-- `RegisterInterruptSource`; `none` is an access outside of the table.
pub register_interrupt_source : ℕ → Option ℕ → Vic → Option (Status × Vic)
unfolding check_entry
register_interrupt_source source handler v =
    if ltb nr_irqs source then some (unsupported, v) else elim (get_elem? v.handlers source) [
      | none ↦ none
      | some entry ↦ some (check_entry source handler entry v)
    ]

-- The loop of `ExitBootServicesEvent` over the sources from `index` on.
disable_from : ℕ → ℕ → Vic → Vic
unfolding disable_interrupt_source
disable_from zero index v = v
disable_from (suc left) index v = disable_from left (index + 1) (disable_interrupt_source index v).1

pub exit_boot_services_event : Vic → Vic
exit_boot_services_event v =
    let v' = disable_from nr_irqs 0 v in record v' { events = v'.events ++ deinit_interrupts }

-- The call of the handler, if there is one.
call_handler : Option ℕ → ℕ → Vic → Vic
call_handler none vector v = v
call_handler (some h) vector v = emit (call h vector) v

-- `IrqInterruptHandler` on the vector that `VIC_IRQ_VEC_RD` gives; `none` is an access outside of
-- the table, which nothing rules out here.
pub irq_interrupt_handler : ℕ → Vic → Option Vic
unfolding emit call_handler
irq_interrupt_handler vector v =
    let v' =
      emit barrier
        (emit (write (bank_reg vector vic_int_clear0 vic_int_clear1) (source_bit vector)) v) in
    elim (get_elem? v.handlers vector) [
      | none ↦ none
      | some entry ↦
          some (emit barrier (emit (write vic_irq_vec_wr 0) (call_handler entry vector v')))
    ]

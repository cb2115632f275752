-- ===== src/Cpu/Idt.antt =====
-- The interrupt table of arch/x86_64/cpu/isr.c: gates and the registration of handlers.
use mimik.Base.{
  ℕ, zero, suc, ◌+◌, ◌-◌, ◌*◌, ◌/◌, ◌%◌, ◌^◌, Bool, true, List, [], ◌∷◌, ltb, u32, ◌>>>◌,
  if◌then◌else◌, Option, none, some, update,
}
use mimik.Base.Commands.{◌>>=◌, ◌>>◌, pure, check, modify}
use mimik.Cpu.{Hardware, IdtEntry, Isr, no_isr, Command}

abbrev pub max_idt_entries : ℕ
max_idt_entries = 256

pub data GateType : Type 0 where
  gate_interrupt gate_trap : GateType

abbrev pub gate_number : GateType → ℕ
gate_number gate_interrupt = 14
gate_number gate_trap = 15

-- `reserved` and `padding` keep what they were.
unfoldable pub set_idt_entry : Hardware → IdtEntry → ℕ → GateType → IdtEntry
set_idt_entry hw entry address type = record entry {
  offset_low = (address >>> 0) % 2 ^ 16;
  offset_mid = (address >>> 16) % 2 ^ 16;
  offset_high = u32 (address >>> 32);
  segsel = hw.kernel_cs % 2 ^ 16;
  ist = 0;
  gate_type = gate_number type;
  zero_bit = 0;
  present = 1;
  dpl = 0;
}

-- The macros `TRAP` and `INTERRUPT`.
unfoldable pub set_gate : Hardware → ℕ → GateType → Command (Unit {0})
set_gate hw n type =
    modify
      (λ m. record m { idt = update m.idt n (set_idt_entry hw (m.idt n) (hw.isr_stub n) type) })

unfoldable pub set_gates : Hardware → ℕ → List GateType → Command (Unit {0})
set_gates hw n [] = pure tt
set_gates hw n (type ∷ types) = do set_gate hw n type; set_gates hw (suc n) types

abbrev pub traps : ℕ → List GateType → List GateType
traps zero types = types
traps (suc n) types = gate_trap ∷ traps n types

abbrev pub interrupts : ℕ → List GateType → List GateType
interrupts zero types = types
interrupts (suc n) types = gate_interrupt ∷ interrupts n types

-- Gates 0 and 1, gate 2, gates 3 to 31, and gates 32 to 47, as `isr_init` lists them.
abbrev pub gates : List GateType
gates = traps 2 (interrupts 1 (traps 29 (interrupts 16 [])))

-- The bytes that `mem_set` fills when it is asked for `s`.
abbrev pub filled : ℕ → ℕ
filled s = 8 * (s / 8) + (s - s / 8)

abbrev pub isrs_size : ℕ
isrs_size = 8 * max_idt_entries

-- `mem_set(isrs, 0, sizeof(isrs))` on the words of 8 bytes.
unfoldable pub clear_isrs : Command (Unit {0})
clear_isrs =
    modify
      (λ m. record m { isrs = λ i. if ltb (8 * i) (filled isrs_size) then no_isr else m.isrs i })

unfoldable pub isr_init : Hardware → Command (Unit {0})
isr_init hw = do clear_isrs; set_gates hw 0 gates; modify (λ m. record m { idt_loaded = true })

abbrev store_isr : ℕ → Isr → Command (Unit {0})
store_isr irq handler = modify (λ m. record m { isrs = update m.isrs irq handler })

-- With the old handler, where `old_handler` is not null.
unfoldable pub isr_register : ℕ → Isr → (wants_old : Bool) → Command (Option Isr)
isr_register irq handler wants_old = do
  check (ltb irq max_idt_entries)
  old ← (λ m. pure (if wants_old then some (m.isrs irq) else none) m)
  store_isr irq handler
  pure old

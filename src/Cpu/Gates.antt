-- ===== src/Cpu/Gates.antt =====
-- The gates and handlers that `isr_init` of arch/x86_64/cpu/isr.c leaves.
use mimik.Base.{
  ℕ, zero, suc, ◌+◌, ◌*◌, ◌/◌, ◌%◌, ◌^◌, ◌<◌, ◌≤◌, ◌≡◌, refl, true, List, [], ◌∷◌, ◌||◌, ltb, leb,
  ◌==◌, if◌then◌else◌, update, done, arith, ap, ◌∙◌, ◌≢◌, subst, sym, ==_iff, test_below,
  test_below_lem,
}
use mimik.Cpu.{IdtEntry, no_isr, Machine, Hardware}
use mimik.Cpu.Idt.{
  GateType, gate_trap, gate_number, gates, set_idt_entry, set_gate, set_gates, isr_init, clear_isrs,
  filled, isrs_size,
}

-- The address that the processor jumps to.
abbrev pub gate_target : IdtEntry → ℕ
gate_target e = e.offset_low + e.offset_mid * 2 ^ 16 + e.offset_high * 2 ^ 32

-- A present gate of the kernel for an address, with the number of its kind.
pub record IsGate (hw : Hardware) (address number : ℕ) (e : IdtEntry) : Type 0 where
  pub target : gate_target e ≡ address
  pub selector : e.segsel ≡ hw.kernel_cs % 2 ^ 16
  pub kind : e.gate_type ≡ number
  pub present : e.present ≡ 1
  pub privilege : e.dpl ≡ 0
  pub stack : e.ist ≡ 0

pieces :
    (a : ℕ)
    → a < 2 ^ 64
    → a / 1 % 2 ^ 16 + a / 2 ^ 16 % 2 ^ 16 * 2 ^ 16 + a / 2 ^ 32 % 2 ^ 32 * 2 ^ 32 ≡ a
pieces a lt = omega arith

pub set_idt_entry-IsGate :
    (hw : Hardware) (e : IdtEntry) (a : ℕ) (type : GateType)
    → a < 2 ^ 64
    → IsGate hw a (gate_number type) (set_idt_entry hw e a type)
unfolding set_idt_entry
set_idt_entry-IsGate hw e a type lt = record {
  target = pieces a lt;
  selector = refl;
  kind = refl;
  present = refl;
  privilege = refl;
  stack = refl;
}

abbrev type_at : List GateType → ℕ → GateType
type_at [] k = gate_trap
type_at (type ∷ types) zero = type
type_at (type ∷ types) (suc k) = type_at types k

abbrev count_of : List GateType → ℕ
count_of [] = 0
count_of (type ∷ types) = suc (count_of types)

-- The table behind a list of gates from `n` on.
abbrev gates_after : Hardware → ℕ → List GateType → (ℕ → IdtEntry) → ℕ → IdtEntry
gates_after hw n [] idt = idt
gates_after hw n (type ∷ types) idt =
    gates_after hw (suc n) types (update idt n (set_idt_entry hw (idt n) (hw.isr_stub n) type))

set_gates-after :
    (hw : Hardware) (n : ℕ) (types : List GateType) (m : Machine)
    → set_gates hw n types m ≡ done (tt, record m { idt = gates_after hw n types m.idt })
unfolding set_gates set_gate
set_gates-after hw n [] m = refl
set_gates-after hw n (type ∷ types) m = set_gates-after hw (suc n) types _

update-other :
    (idt : ℕ → IdtEntry) (n : ℕ) (e : IdtEntry) (k : ℕ) → k ≢ n → update idt n e k ≡ idt k
update-other idt n e k ne = ground arith

update-same : (idt : ℕ → IdtEntry) (n : ℕ) (e : IdtEntry) → update idt n e n ≡ e
update-same idt n e = ground arith

-- A gate below `n` stays.
gates_after-below :
    (hw : Hardware) (n : ℕ) (types : List GateType) (idt : ℕ → IdtEntry) (k : ℕ)
    → k < n
    → gates_after hw n types idt k ≡ idt k
gates_after-below hw n [] idt k lt = refl
gates_after-below hw n (type ∷ types) idt k lt =
    gates_after-below hw (suc n) types _ k (omega arith) ∙ update-other idt n _ k (omega arith)

gates_after-above :
    (hw : Hardware) (n : ℕ) (types : List GateType) (idt : ℕ → IdtEntry) (k : ℕ)
    → n + count_of types ≤ k
    → gates_after hw n types idt k ≡ idt k
gates_after-above hw n [] idt k le = refl
gates_after-above hw n (type ∷ types) idt k le =
    gates_after-above hw (suc n) types _ k (omega arith) ∙ update-other idt n _ k (omega arith)

gates_after-at :
    (hw : Hardware) (n : ℕ) (types : List GateType) (idt : ℕ → IdtEntry) (k j : ℕ)
    → k ≡ n + j
    → j < count_of types
    → gates_after hw n types idt k ≡ set_idt_entry hw (idt k) (hw.isr_stub k) (type_at types j)
gates_after-at hw n [] idt k j e lt = absurd (omega arith)
gates_after-at hw n (type ∷ types) idt k zero e lt =
    let same : n ≡ k = omega arith in
    subst
      (λ i.
        gates_after hw (suc n) types (update idt n (set_idt_entry hw (idt n) (hw.isr_stub n) type))
          i
        ≡ set_idt_entry hw (idt i) (hw.isr_stub i) type)
      same (gates_after-below hw (suc n) types _ n (omega arith) ∙ update-same idt n _)
gates_after-at hw n (type ∷ types) idt k (suc j) e lt =
    gates_after-at hw (suc n) types _ k j (omega arith) (omega arith)
    ∙ ap (λ e. set_idt_entry hw e (hw.isr_stub k) (type_at types j))
        (update-other idt n _ k (omega arith))

-- The number of the kind that each vector is to have: the non-maskable interrupt and the requests
-- of devices are interrupt gates.
abbrev pub kind_number : ℕ → ℕ
kind_number n = if (n == 2) || leb 32 n then 14 else 15

kinds_table : test_below 48 (λ k. gate_number (type_at gates k) == kind_number k) ≡ true
unfolding test_below
kinds_table = refl

-- The machine behind `isr_init`.
abbrev after_init : Hardware → Machine → Machine
after_init hw m = record m {
  idt = gates_after hw 0 gates m.idt;
  idt_loaded = true;
  isrs = λ i. if ltb (8 * i) (filled isrs_size) then no_isr else m.isrs i;
}

pub isr_init-after : (hw : Hardware) (m : Machine) → isr_init hw m ≡ done (tt, after_init hw m)
unfolding isr_init clear_isrs
isr_init-after hw m = rw (set_gates-after hw 0 gates _) refl

-- `isr_init` loads the table; vector `n` below 48 is then a present gate of the kernel to entry
-- point `n`, an interrupt gate for vector 2 and from 32 on, else a trap gate, where that entry point
-- is an address of 64 bits.
pub isr_init-gates :
    (hw : Hardware) (m : Machine) (n : ℕ)
    → n < 48
    → hw.isr_stub n < 2 ^ 64
    → (m' : Machine) × (isr_init hw m ≡ done (tt, m'))
      × (m'.idt_loaded ≡ true)
      × IsGate hw (hw.isr_stub n) (kind_number n) (m'.idt n)
isr_init-gates hw m n lt address =
    let e = gates_after-at hw 0 gates m.idt n n (omega arith) lt in
    let kind : gate_number (type_at gates n) ≡ kind_number n =
      (==_iff _ _).0 (test_below_lem 48 n _ lt kinds_table) in
    (
      after_init hw m,
      isr_init-after hw m,
      refl,
      subst (λ k. IsGate hw (hw.isr_stub n) k (gates_after hw 0 gates m.idt n)) kind
          (subst (IsGate hw (hw.isr_stub n) (gate_number (type_at gates n))) (sym e)
            (set_idt_entry-IsGate hw (m.idt n) (hw.isr_stub n) (type_at gates n) address)),
    )

-- `isr_init` leaves no handler registered, keeps the gates from 48 on, and also sets the 224 words
-- behind the array of handlers to null, and no further one.
pub isr_init-isrs :
    (hw : Hardware) (m : Machine)
    → (m' : Machine) × (isr_init hw m ≡ done (tt, m'))
      × ((i : ℕ) → m'.isrs i ≡ (if ltb i (256 + 224) then no_isr else m.isrs i))
      × ((n : ℕ) → m'.idt (48 + n) ≡ m.idt (48 + n))
isr_init-isrs hw m = (
  after_init hw m,
  isr_init-after hw m,
  λ i. ground arith,
  λ n. gates_after-above hw 0 gates m.idt (48 + n) (omega arith),
)

-- ===== src/Cpu/Timer.antt =====
-- From the registration of a handler to its call and the end-of-interrupt command
-- (arch/x86_64/cpu/isr.c, pic.c, pit.c and arch.c of arch/x86_64).
use mimik.Base.{
  ℕ, zero, suc, ◌+◌, ◌-◌, ◌*◌, ◌/◌, ◌%◌, ◌<◌, ◌≤◌, ◌≡◌, ◌^◌, refl, true, false, [], ◌∷◌, ◌++◌, ltb,
  leb, ◌==◌, if◌then◌else◌, done, halted, Status, success, arith, update, bit_and-low, Bool-cases,
  inl, inr,
}
use native.Mathlib.Nat.{div-lt_iff_lt-mul, le-div_iff_mul-le}
use mimik.Base.Commands.{◌>>=◌, ◌>>◌}
use mimik.Cpu.{
  Trace, wrote, IsrFrame, Isr, timer_isr, Machine, Hardware, Command, has_bit, io_outb, io_wait,
}
use mimik.Bitmap.Bits.{byte_bit}
use mimik.Cpu.Handler.{call_isr, pit_handler}
use mimik.Cpu.Idt.{isr_register, isr_init}
use mimik.Cpu.Gates.{isr_init-after}
use mimik.Cpu.Pic.{pic_ack, old_pic_ack, pic_unmask}
use mimik.Cpu.Lines.{
  AnswersBytes, set_line-lines, pic_init-cases, setup_accesses, apic_bit, exchanged,
}
use mimik.Cpu.Pit.{pit_set_period_us, pit_init, divisor, pit_set_period_ms}
use mimik.Cpu.Dispatch.{isr_common, is_handler}
use mimik.Cpu.Arch.{arch_init, check_and_enable_features, enable_sse}

-- The end-of-interrupt commands that vector `n` needs, the latest first: none for an exception, one
-- to the first controller for its lines, and one to each for the lines of the second.
abbrev pub eoi : ℕ → Trace
eoi n =
    if ltb n 32
    then []
    else (if ltb n 40 then wrote 32 32 ∷ [] else wrote 32 32 ∷ (wrote 160 32 ∷ []))

pic_ack-eoi :
    (n : ℕ) (m : Machine)
    → m.use_new_pic ≡ false
    → pic_ack n m ≡ done (tt, record m { trace = eoi n ++ m.trace })
unfolding pic_ack old_pic_ack io_outb
pic_ack-eoi n m old_pic = rw old_pic (elim (Bool-cases (ltb n 32)) [
  | inl low ↦ rw low refl
  | inr high ↦ elim (Bool-cases (ltb n 40)) [
    | inl first ↦ let below : leb 8 (n - 32) ≡ false = ground arith in rw (high, first, below) refl
    | inr second ↦ let above : leb 8 (n - 32) ≡ true = ground arith in rw (high, second, above) refl
  ]
])

-- A handler that `isr_register` has set for a vector below 256 is what `isr_common` calls for a frame
-- of that vector, and behind the call the controllers get the commands that the vector needs, where
-- the handler returns and the older controllers are in use.
pub isr_common-isr_register :
    (hw : Hardware) (h : Isr) (frame : IsrFrame) (m m' : Machine) (status : Status)
    → frame.isr_n < 256
    → is_handler h ≡ true
    → call_isr hw h frame (record m { isrs = update m.isrs frame.isr_n h }) ≡ done (status, m')
    → m'.use_new_pic ≡ false
    → (isr_register frame.isr_n h false >>= (λ old. isr_common hw frame)) m
      ≡ done (tt, record m' { trace = eoi frame.isr_n ++ m'.trace })
unfolding isr_register isr_common
isr_common-isr_register hw h frame m m' status lt handler call old_pic =
    let n = frame.isr_n in
    let below : ltb n 256 ≡ true = ground arith in
    let fits : leb n 255 ≡ true = ground arith in
    let same : (n == n) ≡ true = ground arith in
    let byte : n % 2 ^ 8 ≡ n = omega arith in
    rw (below, fits, same, handler, call, byte) (pic_ack-eoi n m' old_pic)

-- Behind `isr_init` alone, every interrupt halts.
pub isr_common-isr_init :
    (hw : Hardware) (frame : IsrFrame) (m : Machine)
    → (isr_init hw >> isr_common hw frame) m ≡ halted
unfolding isr_common
isr_common-isr_init hw frame m = rw (isr_init-after hw m) (elim (Bool-cases (leb frame.isr_n 255)) [
  | inl fits ↦
      let cleared : ltb (8 * frame.isr_n) 3840 ≡ true = ground arith in rw (fits, cleared) refl
  | inr wide ↦ rw wide refl
])

-- For a period of 19 to 596591, `pit_set_period_us` writes the low and the high byte of 1193182
-- divided by the period, and both to port 0.
pub pit_set_period_us_lem :
    (us : ℕ) (m : Machine)
    → 19 ≤ us
    → us ≤ 596591
    → (low high : ℕ) × (pit_set_period_us us m
        ≡ done (tt, record m { trace = wrote 0 high ∷ wrote 0 low ∷ m.trace }))
      × (low < 256)
      × (high < 256)
      × (low + 256 * high ≡ 1193182 / us)
unfolding pit_set_period_us divisor io_outb
pit_set_period_us_lem zero m le ge = absurd (omega arith)
pit_set_period_us_lem (suc us) m le ge =
    let d = 1193182 / suc us in
    let small : d < 65536 = (div-lt_iff_lt-mul (omega arith)).1 (omega arith) in
    let large : 2 ≤ d = (le-div_iff_mul-le (omega arith)).1 (omega arith) in
    let fits : d % 2 ^ 16 ≡ d = omega arith in
    let more : ltb 1 d ≡ true = ground arith in
    (
      d % 256,
      d / 2 ^ 8,
      rw (fits, more, bit_and-low 8 d) refl,
      omega arith,
      omega arith,
      omega arith,
    )

-- The features that the kernel asks of the processor, as `cpuid` reports them.
pub record HasFeatures (hw : Hardware) : Type 0 where
  pub fxsr : has_bit (hw.cpuid 1).edx (2 ^ 24) ≡ true
  pub sse : has_bit (hw.cpuid 1).edx (2 ^ 25) ≡ true
  pub sse2 : has_bit (hw.cpuid 1).edx (2 ^ 26) ≡ true
  pub sse3 : has_bit (hw.cpuid 1).ecx 1 ≡ true
  pub ssse3 : has_bit (hw.cpuid 1).ecx (2 ^ 9) ≡ true
  pub sse4_1 : has_bit (hw.cpuid 1).ecx (2 ^ 19) ≡ true
  pub sse4_2 : has_bit (hw.cpuid 1).ecx (2 ^ 20) ≡ true
  pub no_execute : has_bit (hw.cpuid 2147483649).edx (2 ^ 20) ≡ true
  pub syscall : has_bit (hw.cpuid 2147483649).edx (2 ^ 11) ≡ true

check_and_enable_features-done :
    (hw : Hardware) (m : Machine)
    → HasFeatures hw
    → check_and_enable_features hw m ≡ done (tt, enable_sse m)
unfolding check_and_enable_features
check_and_enable_features-done hw m h =
    rw (h.fxsr, h.sse, h.sse2, h.sse3, h.ssse3, h.sse4_1, h.sse4_2, h.no_execute, h.syscall) refl

-- The machine that `pit_init` hands to `pic_unmask`.
abbrev before_unmask : Machine → Machine
before_unmask m = record m {
  isrs = update m.isrs 32 timer_isr;
  trace = wrote 0 0 ∷ wrote 0 119 ∷ wrote 128 0 ∷ wrote 67 68 ∷ m.trace;
}

pit_init-unmask : (hw : Hardware) (m : Machine) → pit_init hw m ≡ pic_unmask hw 32 (before_unmask m)
unfolding pit_init isr_register pit_set_period_ms pit_set_period_us divisor io_outb io_wait
pit_init-unmask hw m = refl

-- The set-up of the processor and then an interrupt of the timer: `arch_init` succeeds, the timer's
-- line is then open in the mask that it writes last, and `isr_common` handles the interrupt and
-- acknowledges it once, where the processor has the features that the kernel asks for and reports an
-- APIC, the ports answer bytes, and `acpi_init` returns, whatever its status, and does no access to
-- the processor or a port.
pub isr_common-arch_init :
    (hw : Hardware) (acpi_init : Command Status) (status : Status) (frame : IsrFrame) (m : Machine)
    → HasFeatures hw
    → apic_bit hw ≡ 1
    → AnswersBytes hw
    → ((s : Machine) → acpi_init s ≡ done (status, s))
    → frame.isr_n ≡ 32
    → (m' : Machine) × (mask : ℕ) × (arch_init hw acpi_init m ≡ done (success, m'))
      × ((rest : Trace) × (m'.trace ≡ wrote 33 mask ∷ rest))
      × (byte_bit mask 0 ≡ 0)
      × (isr_common hw frame m' ≡ done (tt, record m' { trace = wrote 32 32 ∷ m'.trace }))
unfolding arch_init isr_common pit_handler pit_init enable_sse
isr_common-arch_init hw acpi_init status frame m feat apic bytes acpi n32 =
    let m0 = record m { gdt_loaded = true } in
    let ready = enable_sse m0 in
    elim (pic_init-cases hw ready) [
      | inl (no_apic, stop) ↦ absurd (omega arith)
      | inr (one, run, quiet) ↦
          let m1 = record ready {
            use_new_pic = false;
            trace = setup_accesses hw ready ++ m.trace;
          } in
          let (mask, open_line, byte, clear) =
            set_line-lines hw false 32 0 (before_unmask m1) bytes refl (omega arith) in
          let m' = exchanged (before_unmask m1) (hw.answer (before_unmask m1).trace 33) mask in
          (
            m',
            mask,
            rw
                (
                  check_and_enable_features-done hw m0 feat,
                  acpi,
                  run,
                  pit_init-unmask hw m1,
                  open_line,
                )
                refl,
            (_, refl),
            clear,
            rw n32 (pic_ack-eoi 32 m' refl),
          )
    ]

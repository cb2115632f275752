-- ===== src/Cpu/Examples.antt =====
-- A machine whose ports answer as documented, runs on it, and the theorems applied to it.
use mimik.Base.{
  ℕ, ◌+◌, ◌*◌, ◌/◌, ◌%◌, ◌≡◌, ◌<◌, ◌^◌, refl, true, false, [], ◌∷◌, ◌++◌, ◌==◌, ◌⊎◌, ltb,
  if◌then◌else◌, some, done, halted, arith, success, error, einval, update, u8,
}
use mimik.Memory.{Memory}
use mimik.Base.Commands.{◌>>=◌, ◌>>◌}
use mimik.Bitmap.Bits.{byte_bit}
use mimik.Cpu.{
  wrote, read, Trace, CpuidRegs, IsrFrame, no_isr, other_isr, Machine, Hardware, IdtEntry, io_outb,
}
use mimik.Cpu.Idt.{isr_init, isr_register}
use mimik.Cpu.Pic
use mimik.Cpu.Pit.{pit_set_period_us, divisor}
use mimik.Cpu.Dispatch.{isr_common}
use mimik.Cpu.Arch.{arch_init}
use mimik.Cpu.Serial.{putc, lcr_of}
use mimik.Cpu.Lines.{
  AnswersBytes, IsLatch, exchanged, pic_unmask-pic_mask, pic_init-cases, setup_accesses, touches,
  apic_bit,
}
use mimik.Cpu.Gates.{IsGate, kind_number, isr_init-gates, isr_init-isrs}
use mimik.Cpu.Timer.{HasFeatures, isr_common-isr_register, isr_common-arch_init}
use mimik.Cpu.Putting.{BecomesIdle, putc-settings, last_written, line_settings}

-- The mask register of the first controller.
abbrev mask_of : Trace → ℕ
mask_of [] = 0
mask_of (wrote port b ∷ t) = if port == 33 then b else mask_of t
mask_of (read port b ∷ t) = mask_of t

-- An idle line at every other port.
abbrev answers : Trace → ℕ → ℕ
answers t port = if port == 33 then mask_of t % 256 else 64

-- Bits 9, 11, 20 and 24 to 26, and bits 0, 9, 19 and 20.
abbrev registers : CpuidRegs
registers = record {
  eax = 0;
  ebx = 0;
  ecx = 2 ^ 20 + 2 ^ 19 + 2 ^ 9 + 1;
  edx = 2 ^ 26 + 2 ^ 25 + 2 ^ 24 + 2 ^ 20 + 2 ^ 11 + 2 ^ 9;
}

abbrev desk : Hardware
desk = record {
  answer = answers;
  cpuid = λ code. registers;
  isr_stub = λ n. 18446744071563411456 + 16 * n;
  kernel_cs = 8;
  run = λ a frame m. done (success, m);
}

abbrev empty_entry : IdtEntry
empty_entry = record {
  offset_low = 0;
  segsel = 0;
  ist = 0;
  reserved = 0;
  gate_type = 0;
  zero_bit = 0;
  dpl = 0;
  present = 0;
  offset_mid = 0;
  offset_high = 0;
  padding = 0;
}

abbrev start : Machine
start = record {
  trace = [];
  use_new_pic = false;
  serial_initialized = false;
  idt = λ n. empty_entry;
  idt_loaded = false;
  isrs = λ i. no_isr;
  gdt_loaded = false;
  cr0 = 17;
  cr4 = 32;
}

abbrev frame_of : ℕ → IsrFrame
frame_of n = record {
  r15 = 0;
  r14 = 0;
  r13 = 0;
  r12 = 0;
  r11 = 0;
  r10 = 0;
  r9 = 0;
  r8 = 0;
  rsi = 0;
  rdi = 0;
  rdx = 0;
  rcx = 0;
  rbx = 0;
  rax = 0;
  rbp = 0;
  isr_n = n;
  error = 0;
}

desk-AnswersBytes : AnswersBytes desk
desk-AnswersBytes t port = ground arith

desk-IsLatch : IsLatch desk
desk-IsLatch t b lt = omega arith

desk-HasFeatures : HasFeatures desk
desk-HasFeatures = record {
  fxsr = refl;
  sse = refl;
  sse2 = refl;
  sse3 = refl;
  ssse3 = refl;
  sse4_1 = refl;
  sse4_2 = refl;
  no_execute = refl;
  syscall = refl;
}

desk-BecomesIdle : BecomesIdle desk 1
desk-BecomesIdle t = (0, omega arith, refl)

line_four : byte_bit 0 4 ≡ 0
unfolding byte_bit
line_four = refl

pic_unmask-pic_mask_example :
    (new : ℕ) × ((Pic.pic_mask desk 12 >> Pic.pic_unmask desk 12) start
      ≡ done (tt, exchanged (exchanged start 0 new) new 0))
    × (new < 256)
    × ((j : ℕ) → j < 8 → byte_bit new j ≡ (if 4 == j then 1 else byte_bit 0 j))
pic_unmask-pic_mask_example =
    pic_unmask-pic_mask desk 12 start desk-AnswersBytes desk-IsLatch refl line_four

pic_init-cases_example :
    ((apic_bit desk ≡ 0) × (Pic.pic_init desk start ≡ halted))
    ⊎ ((apic_bit desk ≡ 1)
        × (Pic.pic_init desk start
            ≡ done (
              success,
              record start { use_new_pic = false; trace = setup_accesses desk start ++ [] },
            ))
        × (touches 161 (setup_accesses desk start) ≡ false))
pic_init-cases_example = pic_init-cases desk start

isr_init-gates_example :
    (m' : Machine) × (isr_init desk start ≡ done (tt, m'))
    × (m'.idt_loaded ≡ true)
    × IsGate desk (desk.isr_stub 33) (kind_number 33) (m'.idt 33)
isr_init-gates_example = isr_init-gates desk start 33 (omega arith) (omega arith)

-- A word behind the array of handlers that holds something else.
abbrev followed : Machine
followed = record start { isrs = update start.isrs 300 (other_isr 4096) }

isr_init-isrs_example :
    (m' : Machine) × (isr_init desk followed ≡ done (tt, m'))
    × ((i : ℕ) → m'.isrs i ≡ (if ltb i (256 + 224) then no_isr else followed.isrs i))
    × ((n : ℕ) → m'.idt (48 + n) ≡ followed.idt (48 + n))
isr_init-isrs_example = isr_init-isrs desk followed

isr_common-isr_register_example :
    (isr_register 44 (other_isr 4096) false >>= (λ old. isr_common desk (frame_of 44))) start
    ≡ done (
      tt,
      record start {
        isrs = update start.isrs 44 (other_isr 4096);
        trace = wrote 32 32 ∷ (wrote 160 32 ∷ []);
      },
    )
isr_common-isr_register_example =
    isr_common-isr_register desk (other_isr 4096) (frame_of 44) start
      (record start { isrs = update start.isrs 44 (other_isr 4096) }) success (omega arith) refl
      refl refl

isr_common-arch_init_example :
    (m' : Machine) × (mask : ℕ) × (arch_init desk (λ s. done (error einval, s)) start
      ≡ done (success, m'))
    × ((rest : Trace) × (m'.trace ≡ wrote 33 mask ∷ rest))
    × (byte_bit mask 0 ≡ 0)
    × (isr_common desk (frame_of 32) m' ≡ done (tt, record m' { trace = wrote 32 32 ∷ m'.trace }))
isr_common-arch_init_example =
    isr_common-arch_init desk (λ s. done (error einval, s)) (error einval) (frame_of 32) start
      desk-HasFeatures refl desk-AnswersBytes (λ s. refl) refl

-- "Hi" at 0x100, to a port that is set up.
abbrev greeting : Memory
greeting a = if a == 0x100 then 72 else if a == 0x101 then 105 else 0

abbrev ready : Machine
ready = record start { serial_initialized = true }

putc-settings_example :
    (m' : Machine) × (putc desk 1 72 start ≡ done (tt, m'))
    × (m'.serial_initialized ≡ true)
    × (last_written 1016 m'.trace ≡ some (u8 72))
    × ((l : ℕ) × (last_written 1019 m'.trace ≡ some l) × (lcr_of l ≡ line_settings))
    × ((f : ℕ) × (last_written 1018 m'.trace ≡ some f) × (f % 16 ≡ 7) × (f / 64 ≡ 3))
putc-settings_example = putc-settings desk 1 72 start refl desk-BecomesIdle

-- The settings that the timer gets: 1193182 / 10000, to port 0.
timer_period :
    pit_set_period_us 10000 start
    ≡ done (tt, record start { trace = wrote 0 0 ∷ (wrote 0 119 ∷ []) })
unfolding pit_set_period_us divisor io_outb
timer_period = refl

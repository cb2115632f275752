-- ===== src/Cpu.antt =====
-- The processor and its devices: ports (arch/x86_64/include/cpu/io.h), `cpuid`
-- (arch/x86_64/include/cpu/cpuid.h), interrupt frames (arch/x86_64/include/cpu/isr-arch.h), and the
-- static variables of arch/x86_64/cpu and arch/x86_64/log. What the hardware answers is a parameter.
pub mod Handler
pub mod Idt
pub mod Pic
pub mod Pit
pub mod Dispatch
pub mod Serial
pub mod Arch
pub mod Lines
pub mod Gates
pub mod Timer
pub mod Putting
mod Examples
use mimik.Base.{ℕ, Bool, List, [], ◌∷◌, Outcome, done, Status, ◌==◌, not, bit_and}
use mimik.Base.Commands

-- One access to a port, with the byte that it moved.
pub data Event : Type 0 where
  wrote read : (port byte : ℕ) → Event

-- The accesses so far, the latest first.
abbrev pub Trace : Type 0
Trace = List Event

pub record CpuidRegs : Type 0 where
  pub eax : ℕ
  pub ebx : ℕ
  pub ecx : ℕ
  pub edx : ℕ

-- `struct isr_frame`.
pub record IsrFrame : Type 0 where
  pub r15 : ℕ
  pub r14 : ℕ
  pub r13 : ℕ
  pub r12 : ℕ
  pub r11 : ℕ
  pub r10 : ℕ
  pub r9 : ℕ
  pub r8 : ℕ
  pub rsi : ℕ
  pub rdi : ℕ
  pub rdx : ℕ
  pub rcx : ℕ
  pub rbx : ℕ
  pub rax : ℕ
  pub rbp : ℕ
  pub isr_n : ℕ
  pub error : ℕ

-- `struct idt_entry`, with its bit fields.
pub record IdtEntry : Type 0 where
  pub offset_low : ℕ
  pub segsel : ℕ
  pub ist : ℕ
  pub reserved : ℕ
  pub gate_type : ℕ
  pub zero_bit : ℕ
  pub dpl : ℕ
  pub present : ℕ
  pub offset_mid : ℕ
  pub offset_high : ℕ
  pub padding : ℕ

-- An `isr_t`: `NULL`, the handler of the timer, or a function of another file by its address.
pub data Isr : Type 0 where
  no_isr timer_isr : Isr
  other_isr : ℕ → Isr

-- `isrs` from index 256 on are the words of memory behind the array.
pub record Machine : Type 0 where
  pub trace : Trace
  pub use_new_pic : Bool
  pub serial_initialized : Bool
  pub idt : ℕ → IdtEntry
  pub idt_loaded : Bool
  pub isrs : ℕ → Isr
  pub gdt_loaded : Bool
  pub cr0 : ℕ
  pub cr4 : ℕ

-- What the code gets from outside: the byte that a port answers after the accesses so far, the
-- registers that `cpuid` sets, the addresses of the entry points in cpu/isr.S, the selector that
-- cpu/gdt.S lays out, and what other handlers do.
pub record Hardware : Type 0 where
  pub answer : Trace → ℕ → ℕ
  pub cpuid : ℕ → CpuidRegs
  pub isr_stub : ℕ → ℕ
  pub kernel_cs : ℕ
  pub run : ℕ → IsrFrame → Machine → Outcome (Status × Machine)

abbrev pub Command : Type 0 → Type 0
Command A = Commands.Command Machine A

unfoldable pub io_outb : ℕ → ℕ → Command (Unit {0})
io_outb port b m = done (tt, record m { trace = wrote port b ∷ m.trace })

unfoldable pub io_inb : Hardware → ℕ → Command ℕ
io_inb hw port m =
    let b = hw.answer m.trace port in done (b, record m { trace = read port b ∷ m.trace })

-- The macro `IOWAIT`.
unfoldable pub io_wait : Command (Unit {0})
unfolding io_outb
io_wait = io_outb 128 0

-- A test of one bit, `x & (1 << k)`.
abbrev pub has_bit : ℕ → ℕ → Bool
has_bit x mask = not (bit_and x mask == 0)

-- ===== src/Cpu/Handler.antt =====
-- The handler of the timer (arch/x86_64/cpu/pit.c), and the call through an `isr_t`.
use mimik.Base.{ℕ, ◌==◌, Status, success}
use mimik.Base.Commands.{◌>>◌, pure, check, undefined}
use mimik.Cpu.{Hardware, IsrFrame, Isr, no_isr, timer_isr, other_isr, Command}

abbrev pub pit_irq : ℕ
pit_irq = 32

unfoldable pub pit_handler : IsrFrame → Command Status
pit_handler frame = do check (frame.isr_n == pit_irq); pure success

abbrev pub call_isr : Hardware → Isr → IsrFrame → Command Status
call_isr hw no_isr frame = undefined
call_isr hw timer_isr frame = pit_handler frame
call_isr hw (other_isr a) frame = hw.run a frame

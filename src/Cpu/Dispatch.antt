-- ===== src/Cpu/Dispatch.antt =====
-- `isr_common` of arch/x86_64/cpu/isr.c, which every entry point calls.
use mimik.Base.{Bool, true, false, leb, u8}
use mimik.Base.Commands.{◌>>=◌, ◌>>◌, pure, check}
use mimik.Cpu.{Hardware, IsrFrame, Isr, no_isr, timer_isr, other_isr, Machine, Command}
use mimik.Cpu.Handler.{call_isr}
use mimik.Cpu.Pic.{pic_ack}

abbrev pub is_handler : Isr → Bool
is_handler no_isr = false
is_handler timer_isr = true
is_handler (other_isr a) = true

unfoldable pub isr_common : Hardware → IsrFrame → Command (Unit {0})
isr_common hw frame =
    let n = frame.isr_n in
    do
      check (leb n 255)
      isr ← (λ (m : Machine). pure (m.isrs n) m)
      check (is_handler isr)
      status ← call_isr hw isr frame
      pic_ack (u8 n)

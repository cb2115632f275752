-- ===== src/Cpu/Pit.antt =====
-- The timer (arch/x86_64/cpu/pit.c and include/cpu/pit.h of arch/x86_64).
use mimik.Base.{ℕ, zero, suc, ◌*◌, ◌/◌, ◌%◌, ◌^◌, bit_and, bit_or, ltb, u64, ◌>>>◌, ◌<<<◌, false}
use mimik.Base.Commands.{◌>>=◌, ◌>>◌, check, undefined}
use mimik.Cpu.{Hardware, timer_isr, Command, io_outb, io_wait}
use mimik.Cpu.Handler.{pit_irq}
use mimik.Cpu.Idt.{isr_register}
use mimik.Cpu.Pic.{pic_unmask}

abbrev pub pit_cmd : ℕ
pit_cmd = 67

abbrev pub pit_counter_binary : ℕ
pit_counter_binary = 0

abbrev pub pit_mode_rategen : ℕ
pit_mode_rategen = 2 <<< 1

abbrev pub pit_access_lothenhi : ℕ
pit_access_lothenhi = 4 <<< 4

abbrev pub pit_channel_ch0 : ℕ
pit_channel_ch0 = 0 <<< 6

abbrev pub pit_freq : ℕ
pit_freq = 1193182

-- The divisor for a period that is not 0.
unfoldable pub divisor : ℕ → ℕ
divisor us = pit_freq / us % 2 ^ 16

-- A period of 0 is a division by 0.
unfoldable pub pit_set_period_us : ℕ → Command (Unit {0})
pit_set_period_us zero = undefined
pit_set_period_us (suc us) = do
  check (ltb 1 (divisor (suc us)))
  io_outb pit_channel_ch0 (bit_and (divisor (suc us)) 255)
  io_outb pit_channel_ch0 (divisor (suc us) >>> 8)

unfoldable pub pit_set_period_ms : ℕ → Command (Unit {0})
pit_set_period_ms ms = pit_set_period_us (u64 (ms * 1000))

-- The byte of the command register.
abbrev pub pit_mode : ℕ
pit_mode =
    bit_or (bit_or (bit_or pit_channel_ch0 pit_access_lothenhi) pit_mode_rategen) pit_counter_binary

unfoldable pub pit_init : Hardware → Command (Unit {0})
pit_init hw = do
  io_outb pit_cmd pit_mode
  io_wait
  old ← isr_register pit_irq timer_isr false
  pit_set_period_ms 10
  pic_unmask hw pit_irq

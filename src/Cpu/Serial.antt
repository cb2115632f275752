-- ===== src/Cpu/Serial.antt =====
-- The serial port (arch/x86_64/log/put.c), and `puts` of include/log/put.h.
use mimik.Base.{
  ℕ, zero, suc, ◌+◌, ◌*◌, ◌/◌, ◌%◌, Bool, true, bit_and, ◌==◌, if◌then◌else◌, u8, ◌>>>◌, not,
  out_of_fuel,
}
use mimik.Memory.{Ptr, Memory}
use mimik.Base.Commands.{◌>>=◌, ◌>>◌, pure, modify, when}
use mimik.Cpu.{Hardware, Command, io_outb, io_inb}

abbrev pub com1 : ℕ
com1 = 1016

-- `THR` and `DLL` are the same port.
abbrev pub thr : ℕ
thr = com1 + 0

abbrev pub dll : ℕ
dll = com1 + 0

abbrev pub dlm : ℕ
dlm = com1 + 1

abbrev pub fcr_port : ℕ
fcr_port = com1 + 2

abbrev pub lcr_port : ℕ
lcr_port = com1 + 3

abbrev pub lsr_port : ℕ
lsr_port = com1 + 5

-- `BAUD_MAX / BAUD_TGT`
abbrev pub baud_divisor : ℕ
baud_divisor = 115200 / 115200

-- `union lcr`, and its member `raw` read and written.
pub record Lcr : Type 0 where
  pub data_bits : ℕ
  pub stop_bit : ℕ
  pub parity : ℕ
  pub break_signal_enable : ℕ
  pub dlab : ℕ

unfoldable pub lcr_of : ℕ → Lcr
lcr_of raw = record {
  data_bits = raw % 4;
  stop_bit = raw / 4 % 2;
  parity = raw / 8 % 8;
  break_signal_enable = raw / 64 % 2;
  dlab = raw / 128 % 2;
}

unfoldable pub lcr_raw : Lcr → ℕ
lcr_raw l = l.data_bits + 4 * l.stop_bit + 8 * l.parity + 64 * l.break_signal_enable + 128 * l.dlab

pub record Fcr : Type 0 where
  pub enable_fifo : ℕ
  pub clear_rx_fifo : ℕ
  pub clear_tx_fifo : ℕ
  pub fifo_dma_mode : ℕ
  pub reserved : ℕ
  pub fifo_size : ℕ

unfoldable pub fcr_of : ℕ → Fcr
fcr_of raw = record {
  enable_fifo = raw % 2;
  clear_rx_fifo = raw / 2 % 2;
  clear_tx_fifo = raw / 4 % 2;
  fifo_dma_mode = raw / 8 % 2;
  reserved = raw / 16 % 4;
  fifo_size = raw / 64 % 4;
}

unfoldable pub fcr_raw : Fcr → ℕ
fcr_raw f =
    f.enable_fifo
    + 2 * f.clear_rx_fifo
    + 4 * f.clear_tx_fifo
    + 8 * f.fifo_dma_mode
    + 16 * f.reserved
    + 64 * f.fifo_size

-- `thr_is_empty_and_idle` of `union lsr`.
abbrev pub lsr_idle : ℕ → Bool
lsr_idle raw = raw / 64 % 2 == 1

-- The numbers of the enumerations that `init_serial` uses.
abbrev pub data_bits_8 : ℕ
data_bits_8 = 3

abbrev pub stop_bits_1 : ℕ
stop_bits_1 = 0

abbrev pub parity_even : ℕ
parity_even = 3

abbrev pub fifo_dma_mode_0 : ℕ
fifo_dma_mode_0 = 0

abbrev pub fifo_size_14b : ℕ
fifo_size_14b = 3

unfoldable pub init_serial : Hardware → Command (Unit {0})
init_serial hw = do
  raw ← io_inb hw lcr_port
  let lcr = record (lcr_of raw) { dlab = 1 }
  io_outb lcr_port (lcr_raw lcr)
  io_outb dll (bit_and baud_divisor 255)
  io_outb dlm (bit_and (baud_divisor >>> 8) 255)
  io_outb lcr_port (
      lcr_raw (record lcr {
        data_bits = data_bits_8;
        stop_bit = stop_bits_1;
        parity = parity_even;
        break_signal_enable = 0;
        dlab = 0;
      }))
  raw ← io_inb hw fcr_port
  io_outb fcr_port (
      fcr_raw (record (fcr_of raw) {
        enable_fifo = 1;
        clear_rx_fifo = 1;
        clear_tx_fifo = 1;
        fifo_dma_mode = fifo_dma_mode_0;
        fifo_size = fifo_size_14b;
      }))
  modify (λ m. record m { serial_initialized = true })

-- The `do … while` of `putc`; `fuel` bounds its rounds.
unfoldable pub wait_idle : Hardware → ℕ → Command (Unit {0})
wait_idle hw zero m = out_of_fuel
wait_idle hw (suc fuel) m =
    (do raw ← io_inb hw lsr_port; (if lsr_idle raw then pure tt else wait_idle hw fuel)) m

-- `c` is a `char`, with its sign cut off.
unfoldable pub putc : Hardware → ℕ → ℕ → Command (Unit {0})
putc hw fuel c = do
  (λ m. when (not m.serial_initialized) (init_serial hw) m)
  wait_idle hw fuel
  io_outb thr (u8 c)

-- The loop over the string at `s`; `rounds` bounds its characters.
unfoldable pub puts : Hardware → (fuel rounds : ℕ) → Memory → (s : Ptr) → Command (Unit {0})
puts hw fuel zero mem s m = out_of_fuel
puts hw fuel (suc rounds) mem s m =
    (if mem s == 0 then pure tt else (do putc hw fuel (mem s); puts hw fuel rounds mem (s + 1))) m

-- ===== src/Cpu/Putting.antt =====
-- What the serial port (arch/x86_64/log/put.c) is told and sent.
use mimik.Base.{
  ℕ, zero, suc, ◌+◌, ◌*◌, ◌/◌, ◌%◌, ◌<◌, ◌≡◌, refl, Bool, true, false, List, [], ◌∷◌, ◌++◌, ◌==◌,
  if◌then◌else◌, Option, none, some, done, arith, u8, ◌∙◌, ap, not, ◌&&◌, ◌||◌,
}
use mimik.Memory.{Memory}
use mimik.Base.Commands.{◌>>◌, when}
use mimik.Cpu.{wrote, read, Trace, Machine, Hardware, io_outb, io_inb}
use mimik.Cpu.Serial.{
  thr, dll, dlm, lcr_port, fcr_port, lsr_port, Lcr, lcr_of, lcr_raw, fcr_of, fcr_raw, lsr_idle,
  init_serial, wait_idle, putc,
}

-- The line is idle at the poll number `k`, counted from 0, and at none before.
abbrev pub IdleAfter : Hardware → ℕ → Trace → Type 0
IdleAfter hw zero t = lsr_idle (hw.answer t lsr_port) ≡ true
IdleAfter hw (suc k) t =
    (lsr_idle (hw.answer t lsr_port) ≡ false)
    × IdleAfter hw k (read lsr_port (hw.answer t lsr_port) ∷ t)

-- Whatever has been done so far, the line is idle within `fuel` polls.
abbrev pub BecomesIdle : Hardware → ℕ → Type 0
BecomesIdle hw fuel = (t : Trace) → (k : ℕ) × (k < fuel) × IdleAfter hw k t

-- The accesses behind `k + 1` polls.
abbrev polled : Hardware → ℕ → Trace → Trace
polled hw zero t = read lsr_port (hw.answer t lsr_port) ∷ t
polled hw (suc k) t = polled hw k (read lsr_port (hw.answer t lsr_port) ∷ t)

wait_idle-polled :
    (hw : Hardware) (k fuel : ℕ) (m : Machine)
    → k < fuel
    → IdleAfter hw k m.trace
    → wait_idle hw fuel m ≡ done (tt, record m { trace = polled hw k m.trace })
unfolding wait_idle io_inb
wait_idle-polled hw k zero m lt idle = absurd (omega arith)
wait_idle-polled hw zero (suc fuel) m lt idle = rw idle refl
wait_idle-polled hw (suc k) (suc fuel) m lt idle =
    rw (idle.0) (wait_idle-polled hw k fuel _ (omega arith) idle.1)

-- The bytes that an initialised port was sent, in their order.
unfoldable pub sent : Trace → List ℕ
sent [] = []
sent (wrote port b ∷ t) = let before = sent t in if port == thr then before ++ (b ∷ []) else before
sent (read port b ∷ t) = sent t

-- Whether the latest access is a poll that found the line idle.
abbrev pub is_idle_poll : Trace → Bool
is_idle_poll [] = false
is_idle_poll (wrote port b ∷ t) = false
is_idle_poll (read port b ∷ t) = (port == lsr_port) && lsr_idle b

-- Whether each byte was sent right behind such a poll.
unfoldable pub all_polled : Trace → Bool
all_polled [] = true
all_polled (wrote port b ∷ t) = (not (port == thr) || is_idle_poll t) && all_polled t
all_polled (read port b ∷ t) = all_polled t

-- The byte that was last written to a port.
unfoldable pub last_written : ℕ → Trace → Option ℕ
last_written port [] = none
last_written port (wrote p b ∷ t) =
    let rest = last_written port t in if p == port then some b else rest
last_written port (read p b ∷ t) = last_written port t

last_written-polled :
    (hw : Hardware) (port k : ℕ) (t : Trace)
    → last_written port (polled hw k t) ≡ last_written port t
unfolding last_written
last_written-polled hw port zero t = refl
last_written-polled hw port (suc k) t = last_written-polled hw port k _

-- The settings of the line, and the byte for the queues, where their register was read as `raw`.
abbrev pub line_settings : Lcr
line_settings = record {
  data_bits = 3;
  stop_bit = 0;
  parity = 3;
  break_signal_enable = 0;
  dlab = 0;
}

abbrev queue_byte : ℕ → ℕ
queue_byte raw = 1 + 2 * 1 + 4 * 1 + 8 * 0 + 16 * (raw / 16 % 4) + 64 * 3

-- The accesses of `init_serial`, the latest first, where the line control register was read as `a`
-- and the queue register as `b`.
abbrev init_events : ℕ → ℕ → Trace
init_events a b =
    wrote fcr_port (queue_byte b)
    ∷ read fcr_port b
    ∷ wrote lcr_port 27
    ∷ wrote dlm 0
    ∷ wrote dll 1
    ∷ wrote lcr_port (lcr_raw (record (lcr_of a) { dlab = 1 }))
    ∷ read lcr_port a
    ∷ []

init_serial-events :
    (hw : Hardware) (m : Machine)
    → (a b : ℕ) × (init_serial hw m
        ≡ done (tt, record m { serial_initialized = true; trace = init_events a b ++ m.trace }))
unfolding init_serial io_outb io_inb fcr_raw fcr_of lcr_raw
init_serial-events hw m =
    let a = hw.answer m.trace lcr_port in
    let before =
      wrote lcr_port 27
      ∷ wrote dlm 0
      ∷ wrote dll 1
      ∷ wrote lcr_port (lcr_raw (record (lcr_of a) { dlab = 1 }))
      ∷ read lcr_port a
      ∷ m.trace in
    (a, hw.answer before fcr_port, refl)

putc-fresh :
    (hw : Hardware) (fuel c : ℕ) (m : Machine)
    → m.serial_initialized ≡ false
    → putc hw fuel c m ≡ (init_serial hw >> (wait_idle hw fuel >> io_outb thr (u8 c))) m
unfolding putc
putc-fresh hw fuel c m fresh =
    ap
      (λ (b : Bool).
        ((λ m. when (not b) (init_serial hw) m) >> (wait_idle hw fuel >> io_outb thr (u8 c))) m)
      fresh

-- The first `putc` sets the port up and sends its character: the line has 8 data bits, one
-- stop bit and even parity, the divisor latch is closed again, and the queues are enabled and cleared
-- with the threshold of 14 bytes, if the line is idle within the polls that the fuel allows.
pub putc-settings :
    (hw : Hardware) (fuel c : ℕ) (m : Machine)
    → m.serial_initialized ≡ false
    → BecomesIdle hw fuel
    → (m' : Machine) × (putc hw fuel c m ≡ done (tt, m'))
      × (m'.serial_initialized ≡ true)
      × (last_written thr m'.trace ≡ some (u8 c))
      × ((l : ℕ) × (last_written lcr_port m'.trace ≡ some l) × (lcr_of l ≡ line_settings))
      × ((f : ℕ) × (last_written fcr_port m'.trace ≡ some f) × (f % 16 ≡ 7) × (f / 64 ≡ 3))
unfolding io_outb last_written lcr_of
putc-settings hw fuel c m fresh live =
    let (a, b, init) = init_serial-events hw m in
    let m1 = record m { serial_initialized = true; trace = init_events a b ++ m.trace } in
    let (k, lt, idle) = live m1.trace in
    (
      record m1 { trace = wrote thr (u8 c) ∷ polled hw k m1.trace },
      putc-fresh hw fuel c m fresh ∙ rw (init, wait_idle-polled hw k fuel m1 lt idle) refl,
      refl,
      refl,
      (27, last_written-polled hw lcr_port k m1.trace, refl),
      (queue_byte b, last_written-polled hw fcr_port k m1.trace, omega arith, omega arith),
    )

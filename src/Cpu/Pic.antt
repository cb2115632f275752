-- ===== src/Cpu/Pic.antt =====
-- The interrupt controllers (arch/x86_64/cpu/pic.c). The commands of the newer controller are not
-- written yet in the source: they halt.
use mimik.Base.{
  ℕ, ◌+◌, ◌-◌, Bool, bit_and, bit_or, ltb, leb, ◌==◌, if◌then◌else◌, u8, ◌<<<◌, Status, success,
}
use mimik.Base.Commands.{◌>>=◌, ◌>>◌, pure, modify, todo, when}
use mimik.Cpu.{Hardware, Command, io_outb, io_inb, io_wait}

abbrev pub pic1_comm : ℕ
pic1_comm = 32

abbrev pub pic2_comm : ℕ
pic2_comm = 160

-- Both are `PIC1 + 1`.
abbrev pub pic1_data : ℕ
pic1_data = 33

abbrev pub pic2_data : ℕ
pic2_data = 33

abbrev pub pic_eoi : ℕ
pic_eoi = 32

abbrev pub pic_disable : ℕ
pic_disable = 255

abbrev pub pic_irqbase : ℕ
pic_irqbase = 32

-- `PIC_ICW1_INIT | PIC_ICW1_ICW4`
abbrev pub pic_icw1 : ℕ
pic_icw1 = bit_or 16 1

abbrev pub pic_icw4_8086 : ℕ
pic_icw4_8086 = 1

unfoldable pub has_apic : Hardware → Bool
has_apic hw = bit_and (hw.cpuid 1).edx (1 <<< 9) == 0

unfoldable pub new_pic_init : Command Status
new_pic_init = do io_outb pic1_data pic_disable; io_outb pic2_data pic_disable; todo

-- Between the commands the code waits.
abbrev outb_wait : ℕ → ℕ → Command (Unit {0})
outb_wait port b = do io_outb port b; io_wait

unfoldable pub old_pic_remap : Hardware → ℕ → Command (Unit {0})
old_pic_remap hw off = do
  pic1_mask ← io_inb hw pic1_data
  pic2_mask ← io_inb hw pic2_data
  outb_wait pic1_comm pic_icw1
  outb_wait pic2_comm pic_icw1
  outb_wait pic1_data off
  outb_wait pic2_data (u8 (off + 8))
  outb_wait pic1_data (1 <<< 2)
  outb_wait pic2_data (1 <<< 1)
  outb_wait pic1_data pic_icw4_8086
  outb_wait pic2_data pic_icw4_8086
  io_outb pic1_data pic1_mask
  io_outb pic2_data pic2_mask

abbrev pub data_port : ℕ → ℕ
data_port irq = if ltb irq 8 then pic1_data else pic2_data

-- What the two functions write back for the byte that they read.
unfoldable pub masked : ℕ → ℕ → ℕ
masked irq value = bit_or value (u8 (1 <<< bit_and irq 7))

unfoldable pub unmasked : ℕ → ℕ → ℕ
unmasked irq value = bit_and value (255 - u8 (1 <<< bit_and irq 7))

unfoldable pub old_pic_mask : Hardware → ℕ → Command (Unit {0})
old_pic_mask hw irq = do
  value ← io_inb hw (data_port irq)
  io_outb (data_port irq) (masked irq value)

unfoldable pub old_pic_unmask : Hardware → ℕ → Command (Unit {0})
old_pic_unmask hw irq = do
  value ← io_inb hw (data_port irq)
  io_outb (data_port irq) (unmasked irq value)

unfoldable pub old_pic_ack : ℕ → Command (Unit {0})
old_pic_ack irq = if ltb irq pic_irqbase then pure tt else (do
  when (leb 8 (irq - pic_irqbase)) (io_outb pic2_comm pic_eoi)
  io_outb pic1_comm pic_eoi)

unfoldable pub old_pic_init : Hardware → Command Status
old_pic_init hw = do
  old_pic_remap hw pic_irqbase
  io_outb pic1_data pic_disable
  io_outb pic2_data pic_disable
  pure success

-- The choice that each of the three public commands makes.
abbrev by_pic : Command (Unit {0}) → Command (Unit {0})
by_pic old m = if m.use_new_pic then todo m else old m

unfoldable pub pic_ack : ℕ → Command (Unit {0})
pic_ack irq = by_pic (old_pic_ack irq)

unfoldable pub pic_mask : Hardware → ℕ → Command (Unit {0})
pic_mask hw irq = by_pic (old_pic_mask hw irq)

unfoldable pub pic_unmask : Hardware → ℕ → Command (Unit {0})
pic_unmask hw irq = by_pic (old_pic_unmask hw irq)

unfoldable pub pic_init : Hardware → Command Status
pic_init hw = do
  modify (λ m. record m { use_new_pic = has_apic hw })
  (λ m. if m.use_new_pic then new_pic_init m else old_pic_init hw m)

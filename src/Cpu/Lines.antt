-- ===== src/Cpu/Lines.antt =====
-- What the commands of arch/x86_64/cpu/pic.c do to the lines of the first controller, the only one
-- whose mask they reach.
use mimik.Base.{
  ℕ, ◌/◌, ◌%◌, ◌<◌, ◌≡◌, ◌⊎◌, inl, inr, refl, ◌^◌, ◌++◌, [], bit_and-field, Bool-cases, Bool, true,
  false, ◌∷◌, ◌||◌, not, ◌==◌, if◌then◌else◌, done, halted, success, arith, test_below,
  test_below_lem,
}
use mimik.Base.Commands.{◌>>◌}
use mimik.Bitmap.{to_number}
use mimik.Bitmap.Bits.{byte_bit, byte_put, byte_put_lem, low_three}
use mimik.Cpu.{Event, wrote, read, Trace, Machine, Hardware, Command, io_outb, io_inb, io_wait}
use mimik.Cpu.Pic

-- Every port answers with a byte.
abbrev pub AnswersBytes : Hardware → Type 0
AnswersBytes hw = (t : Trace) (port : ℕ) → hw.answer t port < 256

-- The mask register reads back as it was just written.
abbrev pub IsLatch : Hardware → Type 0
IsLatch hw = (t : Trace) (b : ℕ) → b < 256 → hw.answer (wrote 33 b ∷ t) 33 ≡ b

-- The machine behind a read of the mask register and a write to it.
abbrev pub exchanged : Machine → ℕ → ℕ → Machine
exchanged m v w = record m { trace = wrote 33 w ∷ read 33 v ∷ m.trace }

abbrev pub set_line : Hardware → Bool → ℕ → Command (Unit {0})
set_line hw true irq = Pic.pic_mask hw irq
set_line hw false irq = Pic.pic_unmask hw irq

data_port_lem : (irq : ℕ) → Pic.data_port irq ≡ 33
data_port_lem irq = ground arith

masked-byte : (irq v : ℕ) → Pic.masked irq v ≡ byte_put v (irq % 8) true
unfolding Pic.masked byte_put
masked-byte irq v = rw (low_three irq) refl

unmasked-byte : (irq v : ℕ) → Pic.unmasked irq v ≡ byte_put v (irq % 8) false
unfolding Pic.unmasked byte_put
unmasked-byte irq v = rw (low_three irq) refl

set_line-exchanged :
    (hw : Hardware) (v : Bool) (irq : ℕ) (m : Machine)
    → m.use_new_pic ≡ false
    → let old = hw.answer m.trace 33 in
      set_line hw v irq m ≡ done (tt, exchanged m old (byte_put old (irq % 8) v))
unfolding Pic.pic_mask Pic.pic_unmask Pic.old_pic_mask Pic.old_pic_unmask io_inb io_outb
set_line-exchanged hw true irq m old_pic =
    rw (old_pic, data_port_lem irq, masked-byte irq (hw.answer m.trace 33)) refl
set_line-exchanged hw false irq m old_pic =
    rw (old_pic, data_port_lem irq, unmasked-byte irq (hw.answer m.trace 33)) refl

-- `pic_mask` and `pic_unmask` change the line of the first controller whose number is the request
-- modulo 8, also for a request of 8 or more, and leave its other lines as they were, where the
-- older controllers are in use and the ports answer bytes.
pub set_line-lines :
    (hw : Hardware) (v : Bool) (irq j : ℕ) (m : Machine)
    → AnswersBytes hw
    → m.use_new_pic ≡ false
    → j < 8
    → let old = hw.answer m.trace 33 in
      (new : ℕ) × (set_line hw v irq m ≡ done (tt, exchanged m old new))
      × (new < 256)
      × (byte_bit new j ≡ (if irq % 8 == j then to_number v else byte_bit old j))
set_line-lines hw v irq j m bytes old_pic lt =
    let old = hw.answer m.trace 33 in
    let put = byte_put_lem v old (irq % 8) j (bytes m.trace 33) (omega arith) lt in
    (byte_put old (irq % 8) v, set_line-exchanged hw v irq m old_pic, put.0, put.1)

restored : ℕ → ℕ → Bool
unfolding byte_bit byte_put
restored x k = not (byte_bit x k == 0) || (byte_put (byte_put x k true) k false == x)

restored_table : test_below 256 (λ x. test_below 8 (restored x)) ≡ true
unfolding test_below restored
restored_table = refl

restored_lem :
    (x k : ℕ) → x < 256 → k < 8 → byte_bit x k ≡ 0 → byte_put (byte_put x k true) k false ≡ x
restored_lem x k hx hk clear =
    from_test (test_below_lem 8 k (restored x) hk (test_below_lem 256 x _ hx restored_table))
  where
    from_test : restored x k ≡ true → byte_put (byte_put x k true) k false ≡ x
    from_test h = unfold restored in ground arith

-- `pic_mask` of a line that was not masked writes a mask in which that line is set and the others
-- are as they were, and `pic_unmask` of it then writes the mask back that stood there before. The
-- line is the request modulo 8, the older controllers are in use, the ports answer bytes, and the
-- mask register reads as written.
pub pic_unmask-pic_mask :
    (hw : Hardware) (irq : ℕ) (m : Machine)
    → AnswersBytes hw
    → IsLatch hw
    → m.use_new_pic ≡ false
    → byte_bit (hw.answer m.trace 33) (irq % 8) ≡ 0
    → let old = hw.answer m.trace 33 in
      (new : ℕ) × ((Pic.pic_mask hw irq >> Pic.pic_unmask hw irq) m
        ≡ done (tt, exchanged (exchanged m old new) new old))
      × (new < 256)
      × ((j : ℕ) → j < 8 → byte_bit new j ≡ (if irq % 8 == j then 1 else byte_bit old j))
pic_unmask-pic_mask hw irq m bytes latch old_pic clear =
    let old = hw.answer m.trace 33 in
    let new = byte_put old (irq % 8) true in
    let put = λ (j : ℕ) (lt : j < 8).
      byte_put_lem true old (irq % 8) j (bytes m.trace 33) (omega arith) lt in
    let byte = (put 0 (omega arith)).0 in
    let again : hw.answer (exchanged m old new).trace 33 ≡ new = latch _ new byte in
    let back : byte_put new (irq % 8) false ≡ old =
      restored_lem old (irq % 8) (bytes _ 33) (omega arith) clear in
    (
      new,
      rw
          (
            set_line-exchanged hw true irq m old_pic,
            set_line-exchanged hw false irq (exchanged m old new) old_pic,
            again,
            back,
          )
          refl,
      byte,
      λ j lt. (put j lt).1,
    )

abbrev pub port_of : Event → ℕ
port_of (wrote port b) = port
port_of (read port b) = port

-- Whether some access is to a port.
unfoldable pub touches : ℕ → Trace → Bool
touches port [] = false
touches port (e ∷ t) = (port_of e == port) || touches port t

abbrev pub apic_bit : Hardware → ℕ
apic_bit hw = (hw.cpuid 1).edx / 2 ^ 9 % 2

has_apic_lem : (hw : Hardware) → Pic.has_apic hw ≡ (apic_bit hw == 0)
unfolding Pic.has_apic
has_apic_lem hw = ground (arith, bit_and-field 9 1 (hw.cpuid 1).edx)

-- The accesses that set the older controllers up, the latest first, where the mask register was read
-- as `a` and then `b`: the start of the initialisation in both, the vector offsets 32 and 40, the
-- places 4 and 2, the mode 1 twice, the masks as they were, and all lines masked, twice.
abbrev pub setup_events : ℕ → ℕ → Trace
setup_events a b =
    wrote 33 255
    ∷ wrote 33 255
    ∷ wrote 33 b
    ∷ wrote 33 a
    ∷ wrote 128 0
    ∷ wrote 33 1
    ∷ wrote 128 0
    ∷ wrote 33 1
    ∷ wrote 128 0
    ∷ wrote 33 2
    ∷ wrote 128 0
    ∷ wrote 33 4
    ∷ wrote 128 0
    ∷ wrote 33 40
    ∷ wrote 128 0
    ∷ wrote 33 32
    ∷ wrote 128 0
    ∷ wrote 160 17
    ∷ wrote 128 0
    ∷ wrote 32 17
    ∷ read 33 b
    ∷ read 33 a
    ∷ []

-- Those accesses with what the mask register answers.
abbrev pub setup_accesses : Hardware → Machine → Trace
setup_accesses hw m =
    let a = hw.answer m.trace 33 in setup_events a (hw.answer (read 33 a ∷ m.trace) 33)

-- `pic_init` halts where the processor reports no APIC. Where it reports one, the older controllers
-- are put to use, and its accesses are exactly those of `setup_events`, with what the mask register
-- answers: the initialisation words and the masks of both controllers all go to the data port of the
-- first, and no access is to that of the second.
pub pic_init-cases :
    (hw : Hardware) (m : Machine)
    → ((apic_bit hw ≡ 0) × (Pic.pic_init hw m ≡ halted))
      ⊎ ((apic_bit hw ≡ 1)
          × (Pic.pic_init hw m
              ≡ done (
                success,
                record m { use_new_pic = false; trace = setup_accesses hw m ++ m.trace },
              ))
          × (touches 161 (setup_accesses hw m) ≡ false))
unfolding Pic.pic_init Pic.new_pic_init Pic.old_pic_init Pic.old_pic_remap io_outb io_inb io_wait
    touches
pic_init-cases hw m = elim (Bool-cases (apic_bit hw == 0)) [
  | inl none ↦ inl (ground arith, rw (has_apic_lem hw, none) refl)
  | inr one ↦ inr (ground arith, rw (has_apic_lem hw, one) refl, refl)
]

-- ===== src/Crc/Examples.antt =====
-- Runs of the checksum (arch/x86_64/include/util/crc32-arch.h) with the instructions written out.
use mimik.Base.{
  ℕ, zero, suc, ◌+◌, ◌-◌, ◌*◌, ◌/◌, ◌%◌, ◌^◌, ◌≡◌, refl, arith, ◌∙◌, ◌==◌, if◌then◌else◌, u32,
  bit_xor,
}
use mimik.Memory.{Memory, load_le}
use mimik.Memory.Bytes.{IsBytes}
use mimik.Page.{align_down}
use mimik.Crc.{words_loop, bytes_loop, crc32c}
use mimik.Crc.Bytewise.{IsWordwise, crc32c-bytes}

-- One byte, bit by bit, with the reversed polynomial of CRC-32C.
unfoldable shift_bits : ℕ → ℕ → ℕ
shift_bits zero c = c
shift_bits (suc n) c = shift_bits n (if c % 2 == 1 then bit_xor (c / 2) 2197175160 else c / 2)

abbrev crc_byte : ℕ → ℕ → ℕ
crc_byte crc b = shift_bits 8 (bit_xor (u32 crc) b)

-- Eight bytes of a number, lowest first.
unfoldable crc_bytes : ℕ → ℕ → ℕ → ℕ
crc_bytes zero crc v = crc
crc_bytes (suc n) crc v = crc_bytes n (u32 (crc_byte crc (v % 256))) (v / 256)

crc_bytes-load_le :
    (n : ℕ) (mem : Memory) (p crc : ℕ)
    → IsBytes mem
    → crc_bytes n crc (load_le n mem p) ≡ bytes_loop (crc_bytes 8) crc_byte n mem p crc
unfolding crc_bytes bytes_loop load_le
crc_bytes-load_le zero mem p crc h = refl
crc_bytes-load_le (suc n) mem p crc h =
    let low : (mem p + 256 * load_le n mem (p + 1)) % 256 ≡ mem p = omega (arith, h p) in
    let high : (mem p + 256 * load_le n mem (p + 1)) / 256 ≡ load_le n mem (p + 1) =
      omega (arith, h p) in
    rw (low, high) (crc_bytes-load_le n mem (p + 1) (u32 (crc_byte crc (mem p))) h)

crc_bytes-u32 : (n crc v : ℕ) → u32 (crc_bytes (suc n) crc v) ≡ crc_bytes (suc n) crc v
unfolding crc_bytes
crc_bytes-u32 zero crc v = omega arith
crc_bytes-u32 (suc n) crc v = crc_bytes-u32 n (u32 (crc_byte crc (v % 256))) (v / 256)

crc_bytes-IsWordwise : IsWordwise (crc_bytes 8) crc_byte
crc_bytes-IsWordwise mem p crc h =
    crc_bytes-u32 7 crc (load_le 8 mem p) ∙ crc_bytes-load_le 8 mem p crc h

-- The digits 1 to 9 from address 0 on.
abbrev digits : Memory
digits a = 49 + a % 16

digits-IsBytes : IsBytes digits
digits-IsBytes a = omega arith

-- The known checksum of these nine digits, before its bits are inverted.
crc32c-digits : crc32c (crc_bytes 8) crc_byte digits (2 ^ 32 - 1) 0 9 ≡ 486108540
unfolding shift_bits crc_bytes crc32c words_loop bytes_loop load_le align_down
crc32c-digits = refl

crc32c-bytes_example :
    crc32c (crc_bytes 8) crc_byte digits 0 0 9 ≡ bytes_loop (crc_bytes 8) crc_byte 9 digits 0 0
crc32c-bytes_example =
    crc32c-bytes (crc_bytes 8) crc_byte digits 0 0 9 crc_bytes-IsWordwise digits-IsBytes
      (omega arith)

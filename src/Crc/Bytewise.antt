-- ===== src/Crc/Bytewise.antt =====
-- `crc32c` (arch/x86_64/include/util/crc32-arch.h) and the checksum byte by byte.
use mimik.Base.{
  ℕ, zero, suc, ◌+◌, ◌-◌, ◌*◌, ◌/◌, ◌%◌, ◌^◌, ◌<◌, ◌≡◌, refl, arith, ◌∙◌, ap, sym, u32, bit_and-low,
  bit_and-field,
}
use mimik.Memory.{Memory, load_le}
use mimik.Memory.Bytes.{IsBytes}
use mimik.Page.{align_down}
use mimik.Crc.{words_loop, bytes_loop, crc32c}

align_down-eight : (n : ℕ) → n < 2 ^ 64 → align_down n 8 ≡ n / 8 * 8
unfolding align_down
align_down-eight n lt = omega (arith, bit_and-field 3 61 n)

module _ (crc32q crc32b : ℕ → ℕ → ℕ) where
  -- The instruction on 8 bytes does what the one on single bytes does with them, lowest first.
  abbrev pub IsWordwise : Type 0
  IsWordwise =
      (mem : Memory) (p crc : ℕ)
      → IsBytes mem
      → u32 (crc32q crc (load_le 8 mem p)) ≡ bytes_loop crc32q crc32b 8 mem p crc

  bytes_loop-split :
      (n m total : ℕ) (mem : Memory) (p q crc : ℕ)
      → total ≡ n + m
      → q ≡ p + n
      → bytes_loop crc32q crc32b total mem p crc
        ≡ bytes_loop crc32q crc32b m mem q (bytes_loop crc32q crc32b n mem p crc)
  unfolding bytes_loop
  bytes_loop-split zero m total mem p q crc count at =
      let all : total ≡ m = omega arith in let here : q ≡ p = omega arith in rw (all, here) refl
  bytes_loop-split (suc n) m zero mem p q crc count at = absurd (omega arith)
  bytes_loop-split (suc n) m (suc total) mem p q crc count at =
      bytes_loop-split n m total mem (p + 1) q (u32 (crc32b crc (mem p))) (omega arith)
        (omega arith)

  words_loop-bytes :
      (k n : ℕ) (mem : Memory) (p crc : ℕ)
      → IsWordwise
      → IsBytes mem
      → n ≡ 8 * k
      → words_loop crc32q crc32b k mem p crc ≡ bytes_loop crc32q crc32b n mem p crc
  unfolding words_loop bytes_loop
  words_loop-bytes zero n mem p crc wordwise bytes count =
      let none_left : n ≡ 0 = omega arith in rw none_left refl
  words_loop-bytes (suc k) n mem p crc wordwise bytes count =
      words_loop-bytes k (n - 8) mem (p + 8) (u32 (crc32q crc (load_le 8 mem p))) wordwise bytes
        (omega arith)
      ∙ ap (bytes_loop crc32q crc32b (n - 8) mem (p + 8)) (wordwise mem p crc bytes)
      ∙ sym (bytes_loop-split 8 (n - 8) n mem p (p + 8) crc (omega arith) refl)

  -- `crc32c` is the checksum that goes through the buffer byte by byte, if the instruction on 8 bytes
  -- does what the one on single bytes does with them.
  pub crc32c-bytes :
      (mem : Memory) (crc buf len : ℕ)
      → IsWordwise
      → IsBytes mem
      → len < 2 ^ 64
      → crc32c crc32q crc32b mem crc buf len ≡ bytes_loop crc32q crc32b len mem buf crc
  unfolding crc32c
  crc32c-bytes mem crc buf len wordwise bytes lt =
      let down = align_down-eight len lt in
      let rest = bit_and-low 3 len in
      let words : len / 8 * 8 / 8 ≡ len / 8 = omega arith in
      rw
        (
          down,
          rest,
          words,
          words_loop-bytes (len / 8) (len / 8 * 8) mem buf crc wordwise bytes (omega arith),
        )
        (sym (
          bytes_loop-split (len / 8 * 8) (len % 8) len mem buf (buf + len / 8 * 8) crc (omega arith)
            refl))

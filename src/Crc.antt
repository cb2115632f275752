-- ===== src/Crc.antt =====
-- `crc32c` of arch/x86_64/include/util/crc32-arch.h; the two instructions are parameters.
pub mod Bytewise
mod Examples
use mimik.Base.{ℕ, zero, suc, ◌+◌, ◌-◌, ◌/◌, u32, bit_and}
use mimik.Memory.{Ptr, Memory, load_le}
use mimik.Page.{align_down}

-- `crc32q` and `crc32b`: the checksum so far and the 8 bytes as a number, or one byte.
module _ (crc32q crc32b : ℕ → ℕ → ℕ) where
  -- The first loop, on the rounds left: `q` goes down by 8 from the length rounded down to 8.
  unfoldable pub words_loop : ℕ → Memory → Ptr → ℕ → ℕ
  words_loop zero mem pq crc = crc
  words_loop (suc left) mem pq crc =
      words_loop left mem (pq + 8) (u32 (crc32q crc (load_le 8 mem pq)))

  unfoldable pub bytes_loop : ℕ → Memory → Ptr → ℕ → ℕ
  bytes_loop zero mem pb crc = crc
  bytes_loop (suc left) mem pb crc = bytes_loop left mem (pb + 1) (u32 (crc32b crc (mem pb)))

  unfoldable pub crc32c : Memory → (crc : ℕ) → (buf : Ptr) → (len : ℕ) → ℕ
  crc32c mem crc buf len =
      let q = align_down len 8 in
      bytes_loop (bit_and len 7) mem (buf + q) (words_loop (q / 8) mem buf crc)

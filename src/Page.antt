-- ===== src/Page.antt =====
-- Pages and alignment: include/mem/page.h, include/util/align.h and include/util/size.h.
pub mod Align
use mimik.Base.{ℕ, ◌+◌, ◌-◌, ◌*◌, ◌/◌, ◌^◌, Bool, bit_and, ◌==◌, u64}

abbrev pub page_size : ℕ
page_size = 4096

-- `~(align - 1)` in 64 bits.
abbrev pub align_mask : ℕ → ℕ
align_mask align = 2 ^ 64 - align

-- The macros `ALIGNUP` and `ALIGNDOWN`, at a power of two.
unfoldable pub align_up : ℕ → ℕ → ℕ
align_up val align = bit_and (u64 (val + (align - 1))) (align_mask align)

unfoldable pub align_down : ℕ → ℕ → ℕ
align_down val align = bit_and val (align_mask align)

-- The macros `PAGES`, `BYTES` and `PAGEOFFSET`.
abbrev pub pages_of : ℕ → ℕ
pages_of b = u64 (b + page_size + 2 ^ 64 - 1) / page_size

abbrev pub bytes_of : ℕ → ℕ
bytes_of p = u64 (p * page_size)

unfoldable pub page_offset : ℕ → ℕ
page_offset a = bit_and a (page_size - 1)

abbrev pub is_page_aligned : ℕ → Bool
is_page_aligned a = page_offset a == 0

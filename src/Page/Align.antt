-- ===== src/Page/Align.antt =====
-- The alignment macros compute what their names say.
use mimik.Base.{ℕ, ◌+◌, ◌*◌, ◌/◌, ◌%◌, ◌^◌, ◌<◌, ◌≡◌, arith, bit_and-low, bit_and-field}
use mimik.Page.{page_size, align_up, align_down, page_offset}

pub page_offset-mod : (a : ℕ) → page_offset a ≡ a % 4096
unfolding page_offset
page_offset-mod a = bit_and-low 12 a

-- At page size `ALIGNDOWN` is the greatest multiple of 4096 that is not above an address.
pub align_down-page : (a : ℕ) → a < 2 ^ 64 → align_down a page_size ≡ a / 4096 * 4096
unfolding align_down
align_down-page a h = omega (arith, bit_and-field 12 52 a)

-- At page size `ALIGNUP` is the least multiple of 4096 that is not below an address, for an address
-- that has one in 64 bits.
pub align_up-page : (a : ℕ) → a + 4095 < 2 ^ 64 → align_up a page_size ≡ (a + 4095) / 4096 * 4096
unfolding align_up
align_up-page a h = omega (arith, bit_and-field 12 52 ((a + 4095) % 2 ^ 64))

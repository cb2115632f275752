-- ===== src/Bitmap.antt =====
-- The bitmaps of structs/bitmap.c. The bits stand in memory, from `map` on.
pub mod Bits
pub mod Create
pub mod Access
pub mod Count
mod Examples
use mimik.Base.{
  ℕ, ◌+◌, ◌-◌, ◌/◌, ◌%◌, ◌^◌, ◌≡◌, Bool, true, false, bit_and, bit_or, ltb, leb, ◌==◌,
  if◌then◌else◌, update, u8, u64, Outcome, done, ◌>>=◌, Status, code, error, einval, success, ◌>>>◌,
  ◌<<<◌,
}
use mimik.Memory.{Ptr, Memory, mem_set}

abbrev pub snochange : Status
snochange = code 10

pub record Bitmap : Type 0 where
  pub bytes : ℕ
  pub size : ℕ
  pub unset : ℕ
  pub map : Ptr

-- A `bool_t` that is `TRUE` or `FALSE`, as a number.
abbrev pub to_number : Bool → ℕ
to_number true = 1
to_number false = 0

unfoldable pub bitmap_from : ℕ → Ptr → Memory → Outcome (Bitmap × Memory)
bitmap_from sz ptr mem =
    let bytes = u64 (sz + 7) >>> 3 in
    do
      mem' ← mem_set ptr 0 bytes mem
      done (record { bytes = bytes; size = sz; unset = sz; map = ptr }, mem')

-- `(map[i >> 3] >> (i & 7)) & 1`
unfoldable pub bit_at : Memory → Ptr → ℕ → ℕ
bit_at mem map i = bit_and (mem (map + i >>> 3) >>> bit_and i 7) 1

unfoldable pub bitmap_get : Bitmap → Memory → ℕ → Status
bitmap_get b mem i = if leb b.size i then error einval else code (bit_at mem b.map i)

-- `map[byte] |= mask` and `map[byte] &= ~mask`
unfoldable pub put_bit : Memory → Ptr → ℕ → Bool → Memory
put_bit mem map i v =
    let byte = map + i >>> 3 in
    let mask = u8 (1 <<< bit_and i 7) in
    update mem byte (if v then bit_or (mem byte) mask else bit_and (mem byte) (255 - mask))

unfoldable pub bitmap_set : Bitmap → Memory → ℕ → Bool → Status × Bitmap × Memory
bitmap_set b mem i v =
    if leb b.size i
    then (error einval, b, mem)
    else if bit_at mem b.map i == to_number v
    then (snochange, b, mem)
    else (
      success,
      record b { unset = if v then u64 (b.unset + 2 ^ 64 - 1) else u64 (b.unset + 1) },
      put_bit mem b.map i v,
    )

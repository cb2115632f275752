-- ===== src/Heap/Sizes.antt =====
-- The size classes of mm/mm.c.
use mimik.Base.{
  ℕ, zero, suc, ◌+◌, ◌-◌, ◌/◌, ◌^◌, bit_and, bit_or, ltb, leb, ◌==◌, if◌then◌else◌, u32, u64, ◌>>>◌,
  Outcome, done, out_of_fuel, ◌>>=◌, ◌>>◌, assert,
}

-- `SLAB_MAX`; an `enum slab_type` is its number, in 32 bits without sign.
abbrev pub slab_max : ℕ
slab_max = 16

unfoldable pub smear : ℕ → ℕ → ℕ
smear k sz = bit_or sz (sz >>> k)

unfoldable pub ceil_to_power_of_2 : ℕ → ℕ
ceil_to_power_of_2 sz =
    let sz0 = u64 (sz + (2 ^ 64 - 1)) in
    u64 (smear 32 (smear 16 (smear 8 (smear 4 (smear 2 (smear 1 sz0))))) + 1)

unfoldable pub slab_size : ℕ → ℕ
slab_size type =
    let shift = bit_and type 0xe / 2 + 4 in
    let sz = 2 ^ shift + (if bit_and type 1 == 0 then 0 else 2 ^ (shift - 1)) in
    if ltb 1024 sz then sz + 512 + (if ltb 2048 (sz + 512) then 512 else 0) else sz

-- `for (type = 0; chunk_sz > 0; ++type) chunk_sz >>= 1`
unfoldable pub type_loop : ℕ → ℕ → ℕ → Outcome ℕ
type_loop zero chunk_sz type = out_of_fuel
type_loop (suc rounds) chunk_sz type =
    let rest = type_loop rounds (chunk_sz >>> 1) (u32 (type + 1)) in
    if chunk_sz == 0 then done type else rest

-- A word has 64 bits.
abbrev pub type_rounds : ℕ
type_rounds = 65

-- The index in `slabs` that the source returns a pointer to.
unfoldable pub get_slab_from_size : ℕ → Outcome ℕ
get_slab_from_size sz = do
  type ← type_loop type_rounds (ceil_to_power_of_2 sz >>> 4) 0
  let below = u32 (type + (2 ^ 32 - 1))
  let chosen = if leb sz (slab_size below) then below else type
  assert (ltb chosen slab_max)
  done chosen

-- ===== src/Memory.antt =====
-- The block operations of mem/mem.c over a flat memory: one byte at each address. The ranges
-- that a call touches are taken not to wrap at the end of the address space, but for
-- `mem_copy_reverse`, whose index does wrap.
pub mod Bytes
pub mod Fill
pub mod Copy
pub mod Reverse
mod Examples
use mimik.Base.{
  ℕ, zero, suc, ◌+◌, ◌-◌, ◌*◌, ◌/◌, ◌%◌, ◌^◌, Bool, not, ◌&&◌, bit_or, leb, ltb, ◌==◌,
  if◌then◌else◌, update, u64, Outcome, done, halted, fault, ◌>>=◌, ◌>>◌, assert, ◌<<<◌,
}

abbrev pub Ptr : Type 0
Ptr = ℕ

abbrev pub null : Ptr
null = 0

abbrev pub Memory : Type 0
Memory = Ptr → ℕ

-- Byte `k` of a little-endian number.
unfoldable pub byte_of : ℕ → ℕ → ℕ
byte_of v zero = v % 256
byte_of v (suc k) = byte_of (v / 256) k

-- The number that `n` bytes from `a` on hold.
unfoldable pub load_le : ℕ → Memory → Ptr → ℕ
load_le zero mem a = 0
load_le (suc n) mem a = mem a + 256 * load_le n mem (a + 1)

abbrev pub within : Ptr → ℕ → Ptr → Bool
within a n x = leb a x && ltb x (a + n)

-- `*(uint64_t*)a = v`
unfoldable pub store64 : Memory → Ptr → ℕ → Memory
store64 mem a v x = if within a 8 x then byte_of v (x - a) else mem x

-- The byte `c` in each of `n` bytes of a word.
unfoldable pub spread : ℕ → ℕ → ℕ → ℕ
spread zero c big = big
spread (suc n) c big = spread n c (bit_or (u64 (big <<< 8)) c)

unfoldable pub set_words : ℕ → Ptr → ℕ → Memory → Memory
set_words zero a v mem = mem
set_words (suc n) a v mem = set_words n (a + 8) v (store64 mem a v)

unfoldable pub set_bytes : ℕ → Ptr → ℕ → Memory → Memory
set_bytes zero a c mem = mem
set_bytes (suc n) a c mem = set_bytes n (a + 1) c (update mem a c)

unfoldable pub mem_set : Ptr → ℕ → ℕ → Memory → Outcome Memory
mem_set p c s mem =
    let s_big = s / 8 in
    let c_big = spread 8 c 0 in
    do
      assert (not (p == null))
      assert (leb s_big s)
      done (set_bytes (s - s_big) (p + 8 * s_big) c (set_words s_big p c_big mem))

unfoldable pub copy_words : ℕ → (dst src : Ptr) → Memory → Memory
copy_words zero dst src mem = mem
copy_words (suc n) dst src mem =
    copy_words n (dst + 8) (src + 8) (store64 mem dst (load_le 8 mem src))

unfoldable pub copy_bytes : ℕ → (dst src : Ptr) → Memory → Memory
copy_bytes zero dst src mem = mem
copy_bytes (suc n) dst src mem = copy_bytes n (dst + 1) (src + 1) (update mem dst (mem src))

unfoldable pub mem_copy : (dst src : Ptr) → ℕ → Memory → Outcome Memory
mem_copy dst src sz mem =
    let sz_big = sz / 8 in
    do
      assert (not (dst == null))
      assert (not (src == null))
      assert (leb sz_big sz)
      done (
          copy_bytes (sz - sz_big) (dst + 8 * sz_big) (src + 8 * sz_big)
            (copy_words sz_big dst src mem))

-- The address of `b[sz - 1]`: the index is a `size_t`, and the address wraps with it.
abbrev pub before : Ptr → ℕ → Ptr
before b sz = u64 (b + u64 (sz + 2 ^ 64 - 1))

-- `while (sz-- > 0)`: the body sees the decremented `sz`.
unfoldable pub reverse_loop : ℕ → (dst src : Ptr) → Memory → Memory
reverse_loop zero dst src mem = mem
reverse_loop (suc sz) dst src mem =
    reverse_loop sz dst src (update mem (before dst sz) (mem (before src sz)))

unfoldable pub mem_copy_reverse : (dst src : Ptr) → ℕ → Memory → Outcome Memory
mem_copy_reverse dst src sz mem = do
  assert (not (dst == null))
  assert (not (src == null))
  done (reverse_loop sz dst src mem)

-- ===== src/Memory/Copy.antt =====
-- `mem_copy`, its two loops and what it writes.
use mimik.Base.{
  ℕ, zero, suc, ◌+◌, ◌-◌, ◌*◌, ◌/◌, ◌≤◌, ◌≡◌, ◌≢◌, ◌⊎◌, if◌then◌else◌, update, arith, done,
}
use mimik.Memory.{Ptr, null, Memory, load_le, within, store64, copy_words, copy_bytes, mem_copy}
use mimik.Memory.Bytes.{IsBytes, byte_of-load_le}
use mimik.Memory.Fill.{moved}

-- Two ranges of `n` bytes share no address.
abbrev pub Apart : Ptr → Ptr → ℕ → Type 0
Apart a b n = (a + n ≤ b) ⊎ (b + n ≤ a)

store64-load :
    (mem : Memory) (dst src x : Ptr)
    → IsBytes mem
    → store64 mem dst (load_le 8 mem src) x
      ≡ (if within dst 8 x then mem (src + (x - dst)) else mem x)
unfolding store64
store64-load mem dst src x h = ground (arith, byte_of-load_le 8 (x - dst) mem src h)

store64-IsBytes :
    (mem : Memory) (dst src : Ptr) → IsBytes mem → IsBytes (store64 mem dst (load_le 8 mem src))
store64-IsBytes mem dst src h x =
    ground (arith, store64-load mem dst src x h, h x, h (src + (x - dst)))

copy_bytes-within :
    (n : ℕ) (dst src x : Ptr) (mem : Memory)
    → Apart dst src n
    → copy_bytes n dst src mem x ≡ (if within dst n x then mem (src + (x - dst)) else mem x)
unfolding copy_bytes
copy_bytes-within zero dst src x mem h = ground arith
copy_bytes-within (suc n) dst src x mem h =
    ground (arith, copy_bytes-within n (dst + 1) (src + 1) x (update mem dst (mem src)))

copy_words-within :
    (n : ℕ) (dst src x : Ptr) (mem : Memory)
    → IsBytes mem
    → Apart dst src (8 * n)
    → copy_words n dst src mem x ≡ (if within dst (8 * n) x then mem (src + (x - dst)) else mem x)
unfolding copy_words
copy_words-within zero dst src x mem b h = ground arith
copy_words-within (suc n) dst src x mem b h = ground (
  arith,
  copy_words-within n (dst + 8) (src + 8) x (store64 mem dst (load_le 8 mem src))
      (store64-IsBytes mem dst src b),
  store64-load mem dst src x b,
  store64-load mem dst src (src + 8 + (x - (dst + 8))) b,
)

-- `mem_copy` between ranges that do not meet over the bytes that it moves returns. It copies the
-- first `8 * (sz / 8) + (sz - sz / 8)` bytes from `src` to `dst`, and changes no other address.
pub mem_copy-within :
    (dst src : Ptr) (sz : ℕ) (mem : Memory)
    → dst ≢ null
    → src ≢ null
    → IsBytes mem
    → Apart dst src (moved sz)
    → (mem' : Memory) × (mem_copy dst src sz mem ≡ done mem')
      × ((x : Ptr) → mem' x ≡ (if within dst (moved sz) x then mem (src + (x - dst)) else mem x))
unfolding mem_copy
mem_copy-within dst src sz mem nd ns b h = (
  copy_bytes (sz - sz / 8) (dst + 8 * (sz / 8)) (src + 8 * (sz / 8)) mid,
  ground arith,
  λ x. ground (
    arith,
    copy_bytes-within (sz - sz / 8) (dst + 8 * (sz / 8)) (src + 8 * (sz / 8)) x mid,
    copy_words-within (sz / 8) dst src x mem b,
    copy_words-within (sz / 8) dst src (src + 8 * (sz / 8) + (x - (dst + 8 * (sz / 8)))) mem b,
  ),
)
  where
    mid : Memory
    mid = copy_words (sz / 8) dst src mem

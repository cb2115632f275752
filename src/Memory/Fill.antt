-- ===== src/Memory/Fill.antt =====
-- `mem_set`, its two loops and what it writes.
use mimik.Base.{
  ℕ, zero, suc, ◌+◌, ◌-◌, ◌*◌, ◌/◌, ◌≤◌, ◌<◌, ◌≡◌, ◌≢◌, if◌then◌else◌, update, arith, done,
}
use mimik.Memory.{Ptr, null, Memory, within, store64, spread, set_words, set_bytes, mem_set}
use mimik.Memory.Bytes.{byte_of-spread}

-- The number of bytes that a block operation of length `s` moves: the words, and then as many
-- single bytes as `s` exceeds the number of words.
abbrev pub moved : ℕ → ℕ
moved s = 8 * (s / 8) + (s - s / 8)

store64-spread :
    (mem : Memory) (a x : Ptr) (c : ℕ)
    → c < 256
    → store64 mem a (spread 8 c 0) x ≡ (if within a 8 x then c else mem x)
unfolding store64
store64-spread mem a x c h = ground (arith, byte_of-spread c (x - a))

set_words-within :
    (n : ℕ) (a x : Ptr) (c : ℕ) (mem : Memory)
    → c < 256
    → set_words n a (spread 8 c 0) mem x ≡ (if within a (8 * n) x then c else mem x)
unfolding set_words
set_words-within zero a x c mem h = ground arith
set_words-within (suc n) a x c mem h =
    ground (
      arith,
      set_words-within n (a + 8) x c (store64 mem a (spread 8 c 0)),
      store64-spread mem a x c,
    )

set_bytes-within :
    (n : ℕ) (a x : Ptr) (c : ℕ) (mem : Memory)
    → set_bytes n a c mem x ≡ (if within a n x then c else mem x)
unfolding set_bytes
set_bytes-within zero a x c mem = ground arith
set_bytes-within (suc n) a x c mem = ground (arith, set_bytes-within n (a + 1) x c (update mem a c))

-- The memory that `mem_set` leaves.
pub filled : Ptr → ℕ → ℕ → Memory → Memory
filled p c s mem =
    set_bytes (s - s / 8) (p + 8 * (s / 8)) c (set_words (s / 8) p (spread 8 c 0) mem)

pub filled_at :
    (p : Ptr) (c s : ℕ) (mem : Memory) (x : Ptr)
    → c < 256
    → filled p c s mem x ≡ (if within p (moved s) x then c else mem x)
unfolding filled
filled_at p c s mem x h = ground (
  arith,
  set_bytes-within (s - s / 8) (p + 8 * (s / 8)) x c (set_words (s / 8) p (spread 8 c 0) mem),
  set_words-within (s / 8) p x c mem,
)

pub mem_set-eq-filled :
    (p : Ptr) (c s : ℕ) (mem : Memory) → p ≢ null → mem_set p c s mem ≡ done (filled p c s mem)
unfolding mem_set filled
mem_set-eq-filled p c s mem h = ground arith

-- `mem_set` of a pointer that is not null returns. It stores the byte `c` at each of the first
-- `8 * (s / 8) + (s - s / 8)` addresses from `p` on, and changes no other address.
pub mem_set-within :
    (p : Ptr) (c s : ℕ) (mem : Memory)
    → p ≢ null
    → c < 256
    → (mem' : Memory) × (mem_set p c s mem ≡ done mem')
      × ((x : Ptr) → mem' x ≡ (if within p (moved s) x then c else mem x))
mem_set-within p c s mem ne h =
    (filled p c s mem, mem_set-eq-filled p c s mem ne, λ x. filled_at p c s mem x h)

-- From a length of 8 on, `mem_set` with a non-null pointer overwrites the byte just behind the
-- range that it was asked to fill.
pub mem_set_overruns :
    (p : Ptr) (c s : ℕ) (mem : Memory)
    → p ≢ null
    → c < 256
    → 8 ≤ s
    → (mem' : Memory) × (mem_set p c s mem ≡ done mem') × (mem' (p + s) ≡ c)
mem_set_overruns p c s mem ne h long =
    (filled p c s mem, mem_set-eq-filled p c s mem ne, ground (arith, filled_at p c s mem (p + s)))

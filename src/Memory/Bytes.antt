-- ===== src/Memory/Bytes.antt =====
-- Words and their bytes (the 64-bit loads and stores of mem/mem.c).
use mimik.Base.{
  ℕ, zero, suc, ◌+◌, ◌<◌, ◌≡◌, refl, true, ◌==◌, ==_iff, arith, test_below, test_below_lem,
}
use mimik.Memory.{Ptr, Memory, byte_of, load_le, spread}

-- Every address holds a byte.
abbrev pub IsBytes : Memory → Type 0
IsBytes mem = (a : Ptr) → mem a < 256

pub byte_of-load_le :
    (n k : ℕ) (mem : Memory) (a : Ptr)
    → IsBytes mem
    → k < n
    → byte_of (load_le n mem a) k ≡ mem (a + k)
unfolding byte_of load_le
byte_of-load_le zero k mem a h lt = absurd (omega arith)
byte_of-load_le (suc n) zero mem a h lt = ground (arith, h a)
byte_of-load_le (suc n) (suc k) mem a h lt = ground (arith, h a, byte_of-load_le n k mem (a + 1) h)

spread_table : test_below 256 (λ c. test_below 8 (λ k. byte_of (spread 8 c 0) k == c)) ≡ true
unfolding test_below byte_of spread
spread_table = refl

-- The word that `mem_set` stores is its byte, eight times.
pub byte_of-spread : (c k : ℕ) → c < 256 → k < 8 → byte_of (spread 8 c 0) k ≡ c
byte_of-spread c k hc hk = (==_iff _ _).0 (
    test_below_lem 8 k (λ k. byte_of (spread 8 c 0) k == c) hk
      (test_below_lem 256 c _ hc spread_table))

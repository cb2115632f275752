-- ===== src/Memory/Reverse.antt =====
-- `mem_copy_reverse` and the range that it really moves.
use mimik.Base.{ℕ, zero, suc, ◌+◌, ◌-◌, ◌≤◌, ◌^◌, ◌≡◌, ◌≢◌, if◌then◌else◌, update, arith, done}
use mimik.Memory.{Ptr, null, Memory, before, within, reverse_loop, mem_copy_reverse}

-- The address that is used with a decremented `sz` is one below `b + sz`.
before-eq : (b sz : ℕ) → 1 ≤ b → b + sz ≤ 2 ^ 64 → before b sz ≡ b + sz - 1
before-eq b sz h k = omega arith

reverse_loop-within :
    (sz : ℕ) (dst src x : Ptr) (mem : Memory)
    → 1 ≤ src
    → src ≤ dst
    → dst + sz ≤ 2 ^ 64
    → reverse_loop sz dst src mem x
      ≡ (if within (dst - 1) sz x then mem (src - 1 + (x - (dst - 1))) else mem x)
unfolding reverse_loop
reverse_loop-within zero dst src x mem h le fits = ground arith
reverse_loop-within (suc sz) dst src x mem h le fits =
    let d : before dst sz ≡ dst + sz - 1 = before-eq dst sz (omega arith) (omega arith) in
    let s : before src sz ≡ src + sz - 1 = before-eq src sz (omega arith) (omega arith) in
    rw (d, s)
      (ground
        (arith, reverse_loop-within sz dst src x (update mem (dst + sz - 1) (mem (src + sz - 1)))))

-- `mem_copy_reverse` to a destination that is not below its source, overlapping or not, returns.
-- It moves `sz` bytes as they were before the call, from one below `src` to one below `dst`, and
-- changes no other address: the range that it moves is off by one from the one that it is given.
pub mem_copy_reverse-within :
    (dst src : Ptr) (sz : ℕ) (mem : Memory)
    → src ≢ null
    → src ≤ dst
    → dst + sz ≤ 2 ^ 64
    → (mem' : Memory) × (mem_copy_reverse dst src sz mem ≡ done mem')
      × ((x : Ptr)
          → mem' x ≡ (if within (dst - 1) sz x then mem (src - 1 + (x - (dst - 1))) else mem x))
unfolding mem_copy_reverse
mem_copy_reverse-within dst src sz mem ne le fits = (
  reverse_loop sz dst src mem,
  ground arith,
  λ x. reverse_loop-within sz dst src x mem (ground arith) le fits,
)

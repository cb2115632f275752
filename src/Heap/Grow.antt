-- ===== src/Heap/Grow.antt =====
-- What `alloc_slab` adds to a free list, and what `mm_alloc` takes from it (mm/mm.c).
use mimik.Base.{
  ℕ, zero, suc, ◌+◌, ◌*◌, ◌^◌, ◌<◌, ◌≤◌, ◌≡◌, ◌⊎◌, refl, arith, List, [], ◌∷◌, Bool-cases, inl, inr,
  ltb, done, u64,
}
use mimik.Memory.{Ptr}
use mimik.Ring.{Links}
use mimik.Ring.Chain.{NotIn, IsRing}
use mimik.Ring.Insert.{list_insert-IsRing}
use mimik.Heap.Slabs.{Slab, grow_loop}

-- `n` chunks of `size` bytes from `start` on, the last one first.
abbrev pub chunks_onto : ℕ → ℕ → Ptr → List Ptr → List Ptr
chunks_onto zero size start xs = xs
chunks_onto (suc n) size start xs = chunks_onto n size (start + size) (start ∷ xs)

-- No node of a list stands at `lo` or above it and below `hi`.
abbrev pub Outside : Ptr → Ptr → List Ptr → Type 0
Outside lo hi [] = Unit {0}
Outside lo hi (x ∷ xs) = ((x < lo) ⊎ (hi ≤ x)) × Outside lo hi xs

Outside-NotIn : (lo hi : Ptr) (xs : List Ptr) → lo < hi → Outside lo hi xs → NotIn lo xs
Outside-NotIn lo hi [] lt out = tt
Outside-NotIn lo hi (x ∷ xs) lt out = (λ e. ground arith, Outside-NotIn lo hi xs lt out.1)

Outside-later : (lo up hi : Ptr) (xs : List Ptr) → lo ≤ up → Outside lo hi xs → Outside up hi xs
Outside-later lo up hi [] le out = tt
Outside-later lo up hi (x ∷ xs) le out = (ground arith, Outside-later lo up hi xs le out.1)

-- The loop of `alloc_slab` on a ring outside the new memory: it puts the chunks that end below
-- `limit` in front, one after the other.
pub grow_loop-run :
    (rounds limit size : ℕ) (s : Slab) (h : Links) (xs : List Ptr)
    → IsRing h s.freelist xs
    → Outside s.end limit (s.freelist ∷ xs)
    → 16 ≤ size
    → size ≤ 4096
    → 0 < s.end
    → limit + 4096 ≤ 2 ^ 64
    → limit ≤ s.end + 16 * rounds
    → s.end < limit
    → (n e : ℕ) × (g : Links) × (grow_loop rounds limit size s h ≡ done (record s { end = e }, g))
      × (e ≡ s.end + n * size)
      × (e < limit)
      × (limit ≤ e + size)
      × IsRing g s.freelist (chunks_onto n size s.end xs)
unfolding grow_loop
grow_loop-run zero limit size s h xs r out lo hi pos top enough below = absurd (omega arith)
grow_loop-run (suc rounds) limit size s h xs r out lo hi pos top enough below =
    elim (Bool-cases (ltb (s.end + size) limit)) [
      | inr stop ↦ (0, s.end, h, rw (step, stop) refl, omega arith, below, ground arith, r)
      | inl more ↦
          let (g, run, ring, same) =
            list_insert-IsRing h s.freelist s.end xs r (λ e. omega arith)
              (Outside-NotIn s.end limit (s.freelist ∷ xs) below out) in
          let lt : s.end + size < limit = ground arith in
          let (n, e, g', run', value, low, high, ring') =
            grow_loop-run rounds limit size (record s { end = s.end + size }) g (s.end ∷ xs) ring
              (
                (Outside-later s.end (s.end + size) limit (s.freelist ∷ xs) (omega arith) out).0,
                (
                  inl (omega arith),
                  Outside-later s.end (s.end + size) limit xs (omega arith) out.1,
                ),
              )
              lo hi (omega arith) top (omega arith) lt in
          (suc n, e, g', rw (step, more, run) run', omega arith, low, high, ring')
    ]
  where
    step : u64 (s.end + size) ≡ s.end + size
    step = omega arith

-- ===== src/Bitmap/Create.antt =====
-- `bitmap_from`.
use mimik.Base.{
  ℕ, ◌+◌, ◌/◌, ◌^◌, ◌<◌, ◌≡◌, ◌≢◌, refl, leb, if◌then◌else◌, arith, done, bit_and, ◌>>>◌,
  bit_and-one,
}
use mimik.Memory.{Ptr, null, Memory}
use mimik.Memory.Bytes.{IsBytes}
use mimik.Memory.Fill.{filled, filled_at, mem_set-eq-filled}
use mimik.Bitmap.{Bitmap, bit_at, bitmap_from}
use mimik.Bitmap.Count.{IsBitmap, zeros-clear}
use mimik.Bitmap.Access.{free, outside, view}

filled-bit :
    (ptr : Ptr) (sz i : ℕ) (mem : Memory)
    → i < sz
    → bit_at (filled ptr 0 ((sz + 7) / 8) mem) ptr i ≡ 0
unfolding bit_at
filled-bit ptr sz i mem lt = ground (
  arith,
  filled_at ptr 0 ((sz + 7) / 8) mem (ptr + i / 8),
  bit_and-one (filled ptr 0 ((sz + 7) / 8) mem (ptr + i / 8) >>> bit_and i 7),
)

filled-IsBytes : (p : Ptr) (s : ℕ) (mem : Memory) → IsBytes mem → IsBytes (filled p 0 s mem)
filled-IsBytes p s mem b x = ground (arith, filled_at p 0 s mem x, b x)

-- `bitmap_from` at an address that is not null returns a well-formed bitmap of the asked size, in
-- which every index in range is free.
pub bitmap_from-IsBitmap :
    (sz : ℕ) (ptr : Ptr) (mem : Memory)
    → ptr ≢ null
    → sz + 7 < 2 ^ 64
    → IsBytes mem
    → (b : Bitmap) × (mem' : Memory) × (bitmap_from sz ptr mem ≡ done (b, mem'))
      × IsBitmap b mem'
      × (b.size ≡ sz)
      × (b.unset ≡ sz)
      × ((i : ℕ) → view b mem' i ≡ (if leb sz i then outside else free))
unfolding bitmap_from view
bitmap_from-IsBitmap sz ptr mem ne fits b = (
  record { bytes = (sz + 7) / 8; size = sz; unset = sz; map = ptr },
  filled ptr 0 ((sz + 7) / 8) mem,
  ground (arith, mem_set-eq-filled ptr 0 ((sz + 7) / 8) mem),
  record {
    memory = filled-IsBytes ptr ((sz + 7) / 8) mem b;
    sized = fits;
    bytes = refl;
    counted = omega (
      arith,
      zeros-clear (filled ptr 0 ((sz + 7) / 8) mem) ptr sz (λ i lt. filled-bit ptr sz i mem lt),
    );
  },
  refl,
  refl,
  λ i. ground (arith, filled-bit ptr sz i mem),
)

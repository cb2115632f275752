-- ===== src/Bitmap/Count.antt =====
-- The count of free bits, and that `bitmap_set` keeps it (structs/bitmap.c).
use mimik.Base.{
  ℕ, zero, suc, ◌+◌, ◌-◌, ◌/◌, ◌^◌, ◌<◌, ◌≤◌, ◌≡◌, refl, Bool, leb, ◌==◌, arith, Bool-cases, inl,
  inr,
}
use mimik.Memory.{Ptr, Memory}
use mimik.Memory.Bytes.{IsBytes}
use mimik.Bitmap.{Bitmap, to_number, bit_at, put_bit, bitmap_set}
use mimik.Bitmap.Bits.{bit_at-le, bit_at-put_bit, put_bit-IsBytes}

-- How many of the first `n` bits are 0.
unfoldable pub zeros : Memory → Ptr → ℕ → ℕ
zeros mem map zero = 0
zeros mem map (suc n) = zeros mem map n + (1 - bit_at mem map n)

pub record IsBitmap (b : Bitmap) (mem : Memory) : Type 0 where
  pub memory : IsBytes mem
  pub sized : b.size + 7 < 2 ^ 64
  pub bytes : b.bytes ≡ (b.size + 7) / 8
  pub counted : b.unset ≡ zeros mem b.map b.size

pub zeros-le : (mem : Memory) (map : Ptr) (n : ℕ) → zeros mem map n ≤ n
unfolding zeros
zeros-le mem map zero = omega arith
zeros-le mem map (suc n) = omega (arith, zeros-le mem map n)

-- A count above 0 comes from a bit that is 0.
pub zeros-pos :
    (mem : Memory) (map : Ptr) (n i : ℕ) → i < n → bit_at mem map i ≡ 0 → 0 < zeros mem map n
unfolding zeros
zeros-pos mem map zero i lt z = absurd (omega arith)
zeros-pos mem map (suc n) i lt z = ground (arith, zeros-pos mem map n i)

-- A bit that is 0, where the count is above 0.
pub zeros-witness :
    (mem : Memory) (map : Ptr) (n : ℕ)
    → 0 < zeros mem map n
    → (i : ℕ) × (i < n) × (bit_at mem map i ≡ 0)
unfolding zeros
zeros-witness mem map zero h = absurd (omega arith)
zeros-witness mem map (suc n) h = elim (Bool-cases (bit_at mem map n == 0)) [
  | inl zero_bit ↦ (n, omega arith, ground arith)
  | inr one_bit ↦
      let (i, lt, z) = zeros-witness mem map n (ground (arith, bit_at-le mem map n)) in
      (i, omega arith, z)
]

-- If every bit is 0, all are free.
pub zeros-clear :
    (mem : Memory) (map : Ptr) (n : ℕ)
    → ((i : ℕ) → i < n → bit_at mem map i ≡ 0)
    → zeros mem map n ≡ n
unfolding zeros
zeros-clear mem map zero clear = refl
zeros-clear mem map (suc n) clear =
    omega (arith, clear n (omega arith), zeros-clear mem map n (λ i lt. clear i (omega arith)))

-- If every bit is 1, none is free.
pub zeros-full :
    (mem : Memory) (map : Ptr) (n : ℕ)
    → ((i : ℕ) → i < n → bit_at mem map i ≡ 1)
    → zeros mem map n ≡ 0
unfolding zeros
zeros-full mem map zero full = refl
zeros-full mem map (suc n) full =
    omega (arith, full n (omega arith), zeros-full mem map n (λ i lt. full i (omega arith)))

pub zeros-suc :
    (mem : Memory) (map : Ptr) (n : ℕ)
    → zeros mem map (suc n) ≡ zeros mem map n + (1 - bit_at mem map n)
unfolding zeros
zeros-suc mem map n = refl

zeros-above :
    (mem : Memory) (map : Ptr) (n i : ℕ) (v : Bool)
    → IsBytes mem
    → n ≤ i
    → zeros (put_bit mem map i v) map n ≡ zeros mem map n
unfolding zeros
zeros-above mem map zero i v b h = refl
zeros-above mem map (suc n) i v b h =
    ground (arith, bit_at-put_bit mem map i n v b, zeros-above mem map n i v b)

-- Setting a bit that was 0 takes one from the count, and clearing one that was 1 adds one.
pub zeros-put_bit :
    (mem : Memory) (map : Ptr) (n i : ℕ) (v : Bool)
    → IsBytes mem
    → i < n
    → zeros (put_bit mem map i v) map n + to_number v + (1 - bit_at mem map i) ≡ zeros mem map n + 1
unfolding zeros
zeros-put_bit mem map zero i v b h = absurd (omega arith)
zeros-put_bit mem map (suc n) i v b h = ground (
  arith,
  bit_at-put_bit mem map i n v b,
  zeros-above mem map n i v b,
  zeros-put_bit mem map n i v b,
  bit_at-le mem map i,
  bit_at-le mem map n,
)

-- On every branch `bitmap_set` keeps the bitmap well formed: the field `unset` stays the number of
-- bits that are 0, and the memory stays one of bytes.
pub bitmap_set-IsBitmap :
    (b : Bitmap) (mem : Memory) (i : ℕ) (v : Bool)
    → IsBitmap b mem
    → IsBitmap (bitmap_set b mem i v).1 (bitmap_set b mem i v).2
unfolding bitmap_set
bitmap_set-IsBitmap b mem i v ok = elim (Bool-cases (leb b.size i)) [
  | inl out ↦ rw out ok
  | inr in_range ↦ rw in_range (elim (Bool-cases (bit_at mem b.map i == to_number v)) [
    | inl same ↦ rw same ok
    | inr differs ↦ rw differs (record {
      memory = put_bit-IsBytes mem b.map i v ok.memory;
      sized = ok.sized;
      bytes = ok.bytes;
      counted = ground (
        arith,
        zeros-put_bit mem b.map b.size i v ok.memory,
        bit_at-le mem b.map i,
        zeros-le mem b.map b.size,
      );
    })
  ])
]

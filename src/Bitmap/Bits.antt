-- ===== src/Bitmap/Bits.antt =====
-- One bit of memory: what `bitmap_set` writes is what `bitmap_get` reads (structs/bitmap.c).
use mimik.Base.{
  ℕ, ◌+◌, ◌-◌, ◌/◌, ◌%◌, ◌<◌, ◌≤◌, ◌≡◌, ◌≢◌, refl, Bool, true, false, bit_and, bit_or, ltb, ◌==◌,
  if◌then◌else◌, update, u8, arith, ◌>>>◌, ◌<<<◌, bit_and-low, test_below, test_below_lem, ◌&&◌,
  bit_and-one,
}
use mimik.Memory.{Ptr, Memory}
use mimik.Memory.Bytes.{IsBytes}
use mimik.Bitmap.{to_number, bit_at, put_bit}

-- The bits of one byte.
unfoldable pub byte_bit : ℕ → ℕ → ℕ
byte_bit x k = bit_and (x >>> k) 1

unfoldable pub byte_put : ℕ → ℕ → Bool → ℕ
byte_put x k v = if v then bit_or x (u8 (1 <<< k)) else bit_and x (255 - u8 (1 <<< k))

put_ok : Bool → ℕ → ℕ → ℕ → Bool
unfolding byte_bit byte_put
put_ok v x k j =
    ltb (byte_put x k v) 256
    && (byte_bit (byte_put x k v) j == (if k == j then to_number v else byte_bit x j))

put_table :
    (v : Bool) → test_below 256 (λ x. test_below 8 (λ k. test_below 8 (λ j. put_ok v x k j))) ≡ true
unfolding test_below put_ok
put_table true = refl
put_table false = refl

put_ok-byte : (v : Bool) (x k j : ℕ) → x < 256 → k < 8 → j < 8 → put_ok v x k j ≡ true
put_ok-byte v x k j hx hk hj =
    test_below_lem 8 j (λ j. put_ok v x k j) hj
      (test_below_lem 8 k (λ k. test_below 8 (λ j. put_ok v x k j)) hk
        (test_below_lem 256 x _ hx (put_table v)))

pub byte_put_lem :
    (v : Bool) (x k j : ℕ)
    → x < 256
    → k < 8
    → j < 8
    → (byte_put x k v < 256)
      × (byte_bit (byte_put x k v) j ≡ (if k == j then to_number v else byte_bit x j))
byte_put_lem v x k j hx hk hj = split (put_ok-byte v x k j hx hk hj)
  where
    split :
        put_ok v x k j ≡ true
        → (byte_put x k v < 256)
          × (byte_bit (byte_put x k v) j ≡ (if k == j then to_number v else byte_bit x j))
    split h = unfold put_ok in ground arith

pub low_three : (i : ℕ) → bit_and i 7 ≡ i % 8
low_three i = bit_and-low 3 i

bit_at-byte :
    (mem : Memory) (map : Ptr) (i : ℕ) → bit_at mem map i ≡ byte_bit (mem (map + i / 8)) (i % 8)
unfolding bit_at byte_bit
bit_at-byte mem map i = rw (low_three i) refl

put_bit-byte :
    (mem : Memory) (map : Ptr) (i : ℕ) (v : Bool)
    → put_bit mem map i v ≡ update mem (map + i / 8) (byte_put (mem (map + i / 8)) (i % 8) v)
unfolding put_bit byte_put
put_bit-byte mem map i v = rw (low_three i) refl

-- A bit is 0 or 1.
pub bit_at-le : (mem : Memory) (map : Ptr) (i : ℕ) → bit_at mem map i ≤ 1
unfolding bit_at
bit_at-le mem map i = omega (arith, bit_and-one (mem (map + i / 8) >>> bit_and i 7))

-- After bit `i` has been written, it reads as written, and every other bit as before.
pub bit_at-put_bit :
    (mem : Memory) (map : Ptr) (i j : ℕ) (v : Bool)
    → IsBytes mem
    → bit_at (put_bit mem map i v) map j ≡ (if i == j then to_number v else bit_at mem map j)
bit_at-put_bit mem map i j v b =
    rw (bit_at-byte (put_bit mem map i v) map j, bit_at-byte mem map j, put_bit-byte mem map i v)
      (ground (
        arith,
        byte_put_lem v (mem (map + i / 8)) (i % 8) (j % 8) (b _) (omega arith) (omega arith),
      ))

pub put_bit-IsBytes :
    (mem : Memory) (map : Ptr) (i : ℕ) (v : Bool) → IsBytes mem → IsBytes (put_bit mem map i v)
put_bit-IsBytes mem map i v b x = rw (put_bit-byte mem map i v) (
    ground
      (arith, b x, byte_put_lem v (mem (map + i / 8)) (i % 8) 0 (b _) (omega arith) (omega arith)))

-- A write to bit `i` touches one byte.
pub put_bit-frame :
    (mem : Memory) (map : Ptr) (i : ℕ) (v : Bool) (x : Ptr)
    → x ≢ map + i / 8
    → put_bit mem map i v x ≡ mem x
put_bit-frame mem map i v x ne = rw (put_bit-byte mem map i v) (ground arith)

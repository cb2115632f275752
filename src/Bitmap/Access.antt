-- ===== src/Bitmap/Access.antt =====
-- `bitmap_set` and `bitmap_get` as operations on a set of indices (structs/bitmap.c).
use mimik.Base.{
  ℕ, ◌+◌, ◌/◌, ◌<◌, ◌≤◌, ◌≡◌, Bool, true, false, leb, ◌==◌, if◌then◌else◌, arith, ◌⊎◌, Status, code,
  error, success, einval,
}
use mimik.Memory.{Ptr, Memory}
use mimik.Memory.Bytes.{IsBytes}
use mimik.Bitmap.{Bitmap, bit_at, bitmap_get, bitmap_set, snochange}
use mimik.Bitmap.Bits.{bit_at-le, bit_at-put_bit, put_bit-frame}

-- The abstract view: an index is in range and set, in range and free, or out of range.
pub data Cell : Type 0 where
  locked free outside : Cell

unfoldable pub view : Bitmap → Memory → ℕ → Cell
view b mem i = if leb b.size i then outside else if bit_at mem b.map i == 1 then locked else free

abbrev pub cell_of : Bool → Cell
cell_of true = locked
cell_of false = free

abbrev pub status_of : Cell → Status
status_of locked = code 1
status_of free = code 0
status_of outside = error einval

-- What `bitmap_set` reports, from the view of the index before the call.
abbrev pub set_status : Cell → Bool → Status
set_status outside v = error einval
set_status locked true = snochange
set_status locked false = success
set_status free true = success
set_status free false = snochange

-- `bitmap_get` reports the view.
pub bitmap_get-view :
    (b : Bitmap) (mem : Memory) (i : ℕ) → bitmap_get b mem i ≡ status_of (view b mem i)
unfolding bitmap_get view
bitmap_get-view b mem i = ground (arith, bit_at-le mem b.map i)

-- `bitmap_set` reports what the view of the index asks for. Afterwards the index, if it is in
-- range, is locked or free as it was told; the view of every other index is what it was.
pub bitmap_set-view :
    (b : Bitmap) (mem : Memory) (i j : ℕ) (v : Bool)
    → IsBytes mem
    → let (s, b', mem') = bitmap_set b mem i v in
      (s ≡ set_status (view b mem i) v)
      × (view b' mem' j
          ≡ (if i == j then (if leb b.size i then outside else cell_of v) else view b mem j))
unfolding bitmap_set view
bitmap_set-view b mem i j true h =
    ground (arith, bit_at-le mem b.map i, bit_at-put_bit mem b.map i j true h)
bitmap_set-view b mem i j false h =
    ground (arith, bit_at-le mem b.map i, bit_at-put_bit mem b.map i j false h)

-- `bitmap_set` changes no byte of memory outside the bytes of the map.
pub bitmap_set-frame :
    (b : Bitmap) (mem : Memory) (i : ℕ) (v : Bool) (x : Ptr)
    → (x < b.map) ⊎ (b.map + (b.size + 7) / 8 ≤ x)
    → (bitmap_set b mem i v).2 x ≡ mem x
unfolding bitmap_set
bitmap_set-frame b mem i v x out = ground (arith, put_bit-frame mem b.map i v x)

-- ===== src/Pm/State.antt =====
-- The static variables of mm/pm.c as one record, and its macros.
use mimik.Base.{
  ℕ, ◌+◌, ◌*◌, ◌/◌, List, [], ◌∷◌, bit_and, ◌==◌, if◌then◌else◌, u64, Outcome, ◌>>>◌, ◌<<<◌, Option,
  none, some, or_fault,
}
use mimik.Memory.{Ptr, Memory}
use mimik.Bitmap.{Bitmap}
use mimik.Page.{page_size}

-- `BITMAP_SIZE`, the pages that one bitmap tracks: 128 MB.
abbrev pub bitmap_size : ℕ
bitmap_size = 32768

-- `TOBITMAP`, `TOINDEX` and `TOPADDR`.
unfoldable pub to_bitmap : ℕ → ℕ
to_bitmap a = a >>> 27

unfoldable pub to_index : ℕ → ℕ
to_index a = bit_and a 0x7fff000 / page_size

unfoldable pub to_paddr : ℕ → ℕ → ℕ
to_paddr b i = u64 (b <<< 27 + i * page_size)

-- A `struct mem_bitmap`, with the address of its `link`.
pub record MemBitmap : Type 0 where
  pub node : Ptr
  pub index : ℕ
  pub first_free : ℕ
  pub super : Bitmap

-- `mem_bitmaps` is the sequence of nodes behind the list's head, as the ring of structs/list.c
-- orders them; `first_free_bitmap` is the address of one of them.
pub record Pm : Type 0 where
  pub memory : Memory
  pub used : ℕ
  pub free : ℕ
  pub mem_bitmaps : List MemBitmap
  pub first_free_bitmap : Ptr
  pub next_bitmap_page : ℕ

unfoldable pub find_node : Ptr → List MemBitmap → Option MemBitmap
find_node p [] = none
find_node p (b ∷ bs) = if b.node == p then some b else find_node p bs

-- The bitmap that `first_free_bitmap` points to.
unfoldable pub current : Pm → Outcome MemBitmap
current s = or_fault (find_node s.first_free_bitmap s.mem_bitmaps)

-- A write through a pointer to a `struct mem_bitmap`.
unfoldable pub put_node : MemBitmap → List MemBitmap → List MemBitmap
put_node b [] = []
put_node b (c ∷ cs) = if c.node == b.node then b ∷ cs else c ∷ put_node b cs

abbrev pub store_bitmap : Pm → MemBitmap → Pm
store_bitmap s b = record s { mem_bitmaps = put_node b s.mem_bitmaps }

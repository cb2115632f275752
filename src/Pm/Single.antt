-- ===== src/Pm/Single.antt =====
-- The allocator of mm/pm.c while it has its first bitmap only, the one of the first 128 MB.
use mimik.Base.{
  ℕ, zero, suc, ◌+◌, ◌/◌, ◌%◌, ◌^◌, ◌<◌, ◌≤◌, ◌≡◌, ◌≢◌, refl, Bool, true, false, [], ◌∷◌, ◌==◌,
  if◌then◌else◌, arith, done, some, inl, inr, Bool-cases, bit_and-field,
}
use mimik.Memory.{Ptr, Memory}
use mimik.Bitmap.{Bitmap, bit_at}
use mimik.Bitmap.Bits.{bit_at-le}
use mimik.Bitmap.Count.{IsBitmap, zeros-witness}
use mimik.Bitmap.Access.{Cell, locked, free, view}
use mimik.Pm.State.{bitmap_size, to_bitmap, to_index, MemBitmap, Pm, find_node, current, put_node}
use mimik.Pm.Search.{find_bitmap_by_index}

pub record Single : Type 0 where
  pub memory : Memory
  pub used : ℕ
  pub unused : ℕ
  pub node : Ptr
  pub first_free : ℕ
  pub super : Bitmap
  pub next_bitmap_page : ℕ

abbrev pub bitmap0 : Single → MemBitmap
bitmap0 t = record { node = t.node; index = 0; first_free = t.first_free; super = t.super }

-- The state with that one bitmap.
abbrev pub to_pm : Single → Pm
to_pm t = record {
  memory = t.memory;
  used = t.used;
  free = t.unused;
  mem_bitmaps = bitmap0 t ∷ [];
  first_free_bitmap = t.node;
  next_bitmap_page = t.next_bitmap_page;
}

abbrev pub page : Single → ℕ → Cell
page t i = view t.super t.memory i

-- The bitmap is well formed and of full size.
pub record IsSingle (t : Single) : Type 0 where
  pub bitmap : IsBitmap t.super t.memory
  pub size : t.super.size ≡ bitmap_size

-- `first_free` is the least index of a free page.
pub record IsReady (t : Single) : Type 0 where
  pub single : IsSingle t
  pub in_range : t.first_free < bitmap_size
  pub is_free : page t t.first_free ≡ free
  pub below : (k : ℕ) → k < t.first_free → page t k ≡ locked

pub to_bitmap-low : (a : ℕ) → a < 2 ^ 27 → to_bitmap a ≡ 0
unfolding to_bitmap
to_bitmap-low a h = omega arith

pub to_index-div : (a : ℕ) → to_index a ≡ a / 4096 % 32768
unfolding to_index
to_index-div a = omega (arith, bit_and-field 12 15 a)

pub current-bitmap0 : (t : Single) → current (to_pm t) ≡ done (bitmap0 t)
unfolding current find_node
current-bitmap0 t = ground arith

pub find_bitmap0 : (t : Single) → find_bitmap_by_index 0 (bitmap0 t ∷ []) ≡ some (bitmap0 t)
unfolding find_bitmap_by_index
find_bitmap0 t = refl

pub put_bitmap0 : (b c : MemBitmap) → c.node ≡ b.node → put_node b (c ∷ []) ≡ b ∷ []
unfolding put_node
put_bitmap0 b c h = ground arith

-- An index in range is free or locked, as its bit says.
module _ {t : Single} (ok : IsSingle t) where
  pub page-bit :
      (i : ℕ)
      → i < bitmap_size
      → page t i ≡ (if bit_at t.memory t.super.map i == 1 then locked else free)
  unfolding view
  page-bit i lt = ground (arith, ok.size)

  pub bit_of_free :
      (i : ℕ) → page t i ≡ free → (i < bitmap_size) × (bit_at t.memory t.super.map i ≡ 0)
  unfolding view
  bit_of_free i h = ground (arith, ok.size, bit_at-le t.memory t.super.map i)

  pub locked_of_ne : (i : ℕ) → i < bitmap_size → page t i ≢ free → page t i ≡ locked
  unfolding view
  locked_of_ne i lt h = ground (arith, ok.size)

  -- While the count of free pages is above 0, there is one.
  pub some_free : 0 < t.super.unset → (i : ℕ) × (i < bitmap_size) × (page t i ≡ free)
  unfolding view
  some_free pos =
      let (i, lt, z) =
        zeros-witness t.memory t.super.map t.super.size (ground (arith, ok.bitmap.counted)) in
      (i, ground (arith, ok.size), ground (arith, ok.size))

is_free : Cell → Bool
is_free free = true
is_free _ = false

-- The least free index from `lo` on, where there is one.
pub least_free :
    (t : Single) (gap lo : ℕ)
    → IsSingle t
    → page t (lo + gap) ≡ free
    → (j : ℕ) × (lo ≤ j)
      × (j ≤ lo + gap)
      × (page t j ≡ free)
      × ((k : ℕ) → lo ≤ k → k < j → page t k ≡ locked)
unfolding is_free
least_free t zero lo ok h =
    (lo, omega arith, omega arith, rw (zero_gap lo) at h, λ k a b. absurd (omega arith))
  where
    zero_gap : (n : ℕ) → n + 0 ≡ n
    zero_gap n = omega arith
least_free t (suc gap) lo ok h = elim (Bool-cases (is_free (page t lo))) [
  | inl here ↦ (lo, omega arith, omega arith, ground arith, λ k a b. absurd (omega arith))
  | inr taken ↦
      let (j, a, b, f, below) = least_free t gap (lo + 1) ok (rw (shift lo gap) at h) in
      let in_range : lo + suc gap < bitmap_size = (bit_of_free ok (lo + suc gap) h).0 in
      (
        j,
        omega arith,
        omega arith,
        f,
        λ k p q. elim (Bool-cases (k == lo)) [
          | inl e ↦ locked_of_ne ok k (omega arith) (λ g. ground arith)
          | inr ne ↦ below k (ground arith) q
        ],
      )
]
  where
    shift : (n g : ℕ) → n + suc g ≡ n + 1 + g
    shift n g = omega arith

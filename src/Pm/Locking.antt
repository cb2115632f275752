-- ===== src/Pm/Locking.antt =====
-- `pm_try_lock_page` and `pm_request_page` (mm/pm.c), with one bitmap.
use mimik.Base.{
  ℕ, ◌+◌, ◌/◌, ◌^◌, ◌<◌, ◌≤◌, ◌≡◌, ◌≢◌, refl, Bool, true, false, ◌==◌, if◌then◌else◌, arith, done,
  fault, Outcome, ◌∙◌,
}
use mimik.Memory.{Ptr, Memory}
use mimik.Bitmap.{Bitmap, bitmap_set}
use mimik.Bitmap.Bits.{bit_at-le}
use mimik.Bitmap.Count.{bitmap_set-IsBitmap, zeros-pos, zeros-le}
use mimik.Bitmap.Access.{locked, free, view, set_status, bitmap_set-view, cell_of}
use mimik.Page.{page_size}
use mimik.Pm.State.{bitmap_size, to_index, Pm}
use mimik.Pm.Lock.{is_success, account, minus_page, set_in, try_set_page, lock_page_with}
use mimik.Pm.Single.{
  Single, bitmap0, to_pm, page, IsSingle, IsReady, to_bitmap-low, to_index-div, find_bitmap0,
  put_bitmap0, bit_of_free, page-bit,
}
use mimik.Pm.Seek.{with_first, relocate, refresh-least, refresh-full}

-- The state after `bitmap_set` of an index.
abbrev pub put_page : Single → ℕ → Bool → Single
put_page t i v =
    let (s, super, memory) = bitmap_set t.super t.memory i v in
    record t { super = super; memory = memory }

-- `bitmap_set` keeps the size and the place of the bits.
bitmap_set-size :
    (b : Bitmap) (mem : Memory) (i : ℕ) (v : Bool) → (bitmap_set b mem i v).1.size ≡ b.size
unfolding bitmap_set
bitmap_set-size b mem i v = ground arith

pub put_page-IsSingle : {t : Single} (i : ℕ) (v : Bool) → IsSingle t → IsSingle (put_page t i v)
put_page-IsSingle {t} i v ok = record {
  bitmap = bitmap_set-IsBitmap t.super t.memory i v ok.bitmap;
  size = bitmap_set-size t.super t.memory i v ∙ ok.size;
}

-- The pages after the write of one in range.
pub put_page-page :
    (t : Single) (i j : ℕ) (v : Bool)
    → IsSingle t
    → i < bitmap_size
    → page (put_page t i v) j ≡ (if i == j then cell_of v else page t j)
put_page-page t i j v ok lt =
    ground (arith, ok.size, (bitmap_set-view t.super t.memory i j v ok.bitmap.memory).1)

-- What the count of free pages becomes.
pub put_page-unset :
    (t : Single) (i : ℕ)
    → IsSingle t
    → page t i ≡ free
    → 0 < t.super.unset
    → (put_page t i true).super.unset + 1 ≡ t.super.unset
unfolding bitmap_set
put_page-unset t i ok f pos = ground (
  arith,
  bit_of_free ok i f,
  ok.size,
  ok.bitmap.counted,
  zeros-le t.memory t.super.map t.super.size,
)

pub low_index : (a : ℕ) → a < 2 ^ 27 → to_index a ≡ a / 4096
low_index a h = omega (arith, to_index-div a)

set_in-bitmap0 :
    (t : Single) (paddr : ℕ) (v : Bool)
    → paddr < 2 ^ 27
    → IsSingle t
    → set_in (bitmap0 t) paddr v (to_pm t)
      ≡ done
          (is_success (set_status (page t (paddr / 4096)) v), to_pm (put_page t (paddr / 4096) v))
unfolding set_in
set_in-bitmap0 t paddr v low ok =
    let i = paddr / 4096 in
    rw (low_index paddr low) (
      ground (
        arith,
        (bitmap_set-view t.super t.memory i 0 v ok.bitmap.memory).0,
        put_bitmap0 (record (bitmap0 t) { super = (bitmap_set t.super t.memory i v).1 }) (bitmap0 t)
            refl,
      ))

-- Writing what is there changes nothing.
pub put_page-same :
    (t : Single) (i : ℕ) (v : Bool) → IsSingle t → page t i ≡ cell_of v → put_page t i v ≡ t
unfolding bitmap_set view
put_page-same t i true ok h = ground (arith, bit_at-le t.memory t.super.map i)
put_page-same t i false ok h = ground (arith, bit_at-le t.memory t.super.map i)

-- Where the count of free pages is 0, every page is locked.
full_page :
    {t : Single} → IsSingle t → t.super.unset ≡ 0 → (k : ℕ) → k < bitmap_size → page t k ≡ locked
full_page {t} ok z k lt = ground (
  arith,
  page-bit ok k lt,
  bit_at-le t.memory t.super.map k,
  zeros-pos t.memory t.super.map t.super.size k,
  ok.bitmap.counted,
  ok.size,
)

module _ (alloc : Pm → Outcome (Ptr × Pm)) (request : Pm → Outcome (ℕ × Pm)) (fuel : ℕ) where
  -- The bitmap of a page below 128 MB is there, and the bit is put in it.
  pub try_set_page-low :
      (t : Single) (paddr : ℕ) (v : Bool)
      → paddr < 2 ^ 27
      → IsSingle t
      → try_set_page alloc request fuel paddr v (to_pm t)
        ≡ done
            (is_success (set_status (page t (paddr / 4096)) v), to_pm (put_page t (paddr / 4096) v))
  unfolding try_set_page
  try_set_page-low t paddr v low ok =
      ground (arith, to_bitmap-low paddr low, find_bitmap0 t, set_in-bitmap0 t paddr v low ok)

  -- Locking a page that is locked changes nothing.
  pub lock_page-locked :
      (t : Single) (paddr : ℕ)
      → paddr < 2 ^ 27
      → IsSingle t
      → page t (paddr / 4096) ≡ locked
      → lock_page_with alloc request fuel paddr (to_pm t) ≡ done (false, to_pm t)
  unfolding lock_page_with
  lock_page-locked t paddr low ok h =
      ground (arith, try_set_page-low t paddr true low ok, put_page-same t (paddr / 4096) true ok)

  module _ (enough : bitmap_size ≤ fuel) where
    -- Locking a free page finds the next `first_free`, while one is left.
    pub lock_page-free :
        (t : Single) (paddr : ℕ)
        → paddr < 2 ^ 27
        → IsSingle t
        → page t (paddr / 4096) ≡ free
        → 2 ≤ t.super.unset
        → ((k : ℕ) → k < t.first_free → k ≢ paddr / 4096 → page t k ≡ locked)
        → (j : ℕ) × (lock_page_with alloc request fuel paddr (to_pm t)
            ≡ done (
              true,
              account page_size minus_page (to_pm (with_first (put_page t (paddr / 4096) true) j)),
            ))
          × IsReady (with_first (put_page t (paddr / 4096) true) j)
    unfolding lock_page_with
    lock_page-free t paddr low ok f more below =
        let i = paddr / 4096 in
        let t' = put_page t i true in
        let ok' : IsSingle t' = put_page-IsSingle i true ok in
        let (in_range, bit) = bit_of_free ok i f in
        let low_locked : (k : ℕ) → k < t.first_free → page t' k ≡ locked =
          λ k lt. ground (arith, put_page-page t i k true ok in_range, below k lt) in
        let (j, lo, j_free, between, ready) =
          relocate t' ok' (omega (arith, put_page-unset t i ok f (omega arith))) low_locked in
        (
          j,
          ground (
            arith,
            try_set_page-low t paddr true low ok,
            to_bitmap-low paddr low,
            refresh-least alloc request fuel enough t' j ok' lo j_free between,
          ),
          ready,
        )

    -- Locking the last free page is a fault: the search for another bitmap reads the head of the
    -- list as one.
    pub lock_page-last :
        (t : Single) (paddr : ℕ)
        → paddr < 2 ^ 27
        → IsReady t
        → page t (paddr / 4096) ≡ free
        → t.super.unset ≡ 1
        → lock_page_with alloc request fuel paddr (to_pm t) ≡ fault
    unfolding lock_page_with
    lock_page-last t paddr low ready f one =
        let i = paddr / 4096 in
        let t' = put_page t i true in
        let ok' : IsSingle t' = put_page-IsSingle i true ready.single in
        let none_free : t'.super.unset ≡ 0 =
          omega (arith, put_page-unset t i ready.single f (omega arith)) in
        ground (
          arith,
          try_set_page-low t paddr true low ready.single,
          to_bitmap-low paddr low,
          refresh-full alloc request fuel enough t' ok' ready.in_range
              (λ k a b. full_page ok' none_free k b),
        )

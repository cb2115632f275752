-- ===== src/Pm/Pages.antt =====
-- What one call of `pm_try_lock_page`, `pm_try_release_page` or `pm_request_page` does (mm/pm.c),
-- with one bitmap.
use mimik.Base.{
  ℕ, suc, ◌+◌, ◌*◌, ◌/◌, ◌^◌, ◌<◌, ◌≤◌, ◌≡◌, refl, Bool, true, false, ltb, ◌==◌, if◌then◌else◌, u64,
  arith, done, fault, Outcome, ◌⊎◌, inl, inr,
}
use mimik.Memory.{Ptr}
use mimik.Bitmap.Access.{Cell, locked, free}
use mimik.Page.{page_size}
use mimik.Pm.State.{bitmap_size, to_paddr, Pm}
use mimik.Pm.Lock.{
  minus_page, request_page_with, pm_request_page, pm_try_lock_page, move_back, pm_try_release_page,
}
use mimik.Pm.Single.{
  Single, bitmap0, to_pm, page, IsSingle, IsReady, to_bitmap-low, current-bitmap0, put_bitmap0,
  page-bit,
}
use mimik.Pm.Seek.{with_first, with_first-IsSingle}
use mimik.Pm.Locking.{
  put_page, put_page-IsSingle, put_page-page, put_page-same, put_page-unset, low_index,
  try_set_page-low, lock_page-locked, lock_page-free, lock_page-last,
}

-- What a page is, in the terms of the two calls.
abbrev pub is_free : Cell → Bool
is_free free = true
is_free _ = false

abbrev pub is_locked : Cell → Bool
is_locked locked = true
is_locked _ = false

-- `t'` is `t` with page `i` as `c` says, and every other page as it was.
abbrev pub Changed : Single → ℕ → Cell → Single → Type 0
Changed t i c t' = (j : ℕ) → page t' j ≡ (if i == j then c else page t j)

-- If `moved`, a page has gone to the account `up` from the account `down`.
abbrev pub Accounts : Bool → (up down up' down' : ℕ) → Type 0
Accounts moved up down up' down' =
    (up' ≡ (if moved then u64 (up + page_size) else up))
    × (down' ≡ (if moved then u64 (down + minus_page) else down))

low_page :
    (t : Single) (i : ℕ) → IsSingle t → i < bitmap_size → (page t i ≡ locked) ⊎ (page t i ≡ free)
low_page t i ok lt = ground (arith, page-bit ok i lt)

module _ (alloc : Pm → Outcome (Ptr × Pm)) (depth fuel : ℕ) (enough : bitmap_size ≤ fuel) where
  -- `pm_try_lock_page` of a page of the first 128 MB, while at least two pages are free: it returns
  -- true exactly when the page was free. Afterwards the page is locked and every other page is as
  -- it was, one page has moved between the accounts if the call returned true, and `first_free`
  -- is again the least index of a free page. The count of free pages drops by one at most.
  pub pm_try_lock_page_lem :
      (t : Single) (paddr : ℕ)
      → paddr < 2 ^ 27
      → IsReady t
      → 2 ≤ t.super.unset
      → (b : Bool) × (t' : Single) × (pm_try_lock_page alloc depth fuel paddr (to_pm t)
          ≡ done (b, to_pm t'))
        × (b ≡ is_free (page t (paddr / 4096)))
        × Changed t (paddr / 4096) locked t'
        × Accounts b t.used t.unused t'.used t'.unused
        × (t.super.unset ≤ t'.super.unset + 1)
        × IsReady t'
  unfolding pm_try_lock_page
  pm_try_lock_page_lem t paddr low ready more =
      let i = paddr / 4096 in
      let ok = ready.single in
      elim (low_page t i ok (omega arith)) [
        | inl taken ↦ (
          false,
          t,
          lock_page-locked alloc (pm_request_page alloc depth fuel) fuel t paddr low ok taken,
          ground arith,
          λ j. ground arith,
          (refl, refl),
          omega arith,
          ready,
        )
        | inr vacant ↦
            let (j, run, ready') =
              lock_page-free alloc (pm_request_page alloc depth fuel) fuel enough t paddr low ok
                vacant more (λ k lt ne. ready.below k lt) in
            (
              true,
              record (with_first (put_page t i true) j) {
                used = u64 (t.used + page_size);
                unused = u64 (t.unused + minus_page);
              },
              run,
              ground arith,
              λ k. put_page-page t i k true ok (omega arith),
              (refl, refl),
              omega (arith, put_page-unset t i ok vacant (omega arith)),
              record {
                single = record { bitmap = ready'.single.bitmap; size = ready'.single.size };
                in_range = ready'.in_range;
                is_free = ready'.is_free;
                below = ready'.below;
              },
            )
      ]

  -- `pm_request_page` with room in the accounts and at least two free pages returns the address of
  -- the lowest free page. Afterwards that page is locked and every other page is as it was, one page
  -- has moved between the accounts, and `first_free` is again the least index of a free page.
  pub pm_request_page_lem :
      (t : Single)
      → IsReady t
      → 2 ≤ t.super.unset
      → page_size ≤ t.unused
      → (t' : Single) × (pm_request_page alloc (suc depth) fuel (to_pm t)
          ≡ done (t.first_free * page_size, to_pm t'))
        × (page t t.first_free ≡ free)
        × ((k : ℕ) → k < t.first_free → page t k ≡ locked)
        × Changed t t.first_free locked t'
        × Accounts true t.used t.unused t'.used t'.unused
        × IsReady t'
  unfolding pm_request_page request_page_with to_paddr
  pm_request_page_lem t ready more room =
      let i = t.first_free in
      let ok = ready.single in
      let paddr = i * page_size in
      let lt : i < bitmap_size = ready.in_range in
      let back : paddr / 4096 ≡ i = omega arith in
      let up = with_first t (i + 1) in
      let (j, run, ready') =
        lock_page-free alloc (pm_request_page alloc depth fuel) fuel enough up paddr (omega arith)
          (with_first-IsSingle (i + 1) ok) (rw back ready.is_free) more
          (λ k a ne. ready.below k (omega arith)) in
      (
        record (with_first (put_page t (paddr / 4096) true) j) {
          used = u64 (t.used + page_size);
          unused = u64 (t.unused + minus_page);
        },
        ground (arith, current-bitmap0 t, put_bitmap0 (bitmap0 up) (bitmap0 t)),
        ready.is_free,
        ready.below,
        λ k. ground (arith, put_page-page t (paddr / 4096) k true ok (omega arith)),
        (refl, refl),
        record {
          single = record { bitmap = ready'.single.bitmap; size = ready'.single.size };
          in_range = ready'.in_range;
          is_free = ready'.is_free;
          below = ready'.below;
        },
      )

  move_back-low :
      (t : Single) (paddr : ℕ)
      → paddr < 2 ^ 27
      → move_back alloc depth fuel paddr (to_pm t)
        ≡ done (
            to_pm (
              with_first t
                (if ltb (paddr / 4096) t.first_free then paddr / 4096 else t.first_free)))
  unfolding move_back
  move_back-low t paddr low = ground (
    arith,
    to_bitmap-low paddr low,
    low_index paddr low,
    current-bitmap0 t,
    put_bitmap0 (bitmap0 (with_first t (paddr / 4096))) (bitmap0 t),
  )

  -- `pm_try_release_page` of a page of the first 128 MB returns true exactly when the page was
  -- locked. Afterwards the page is free and every other page is as it was, one page has moved back
  -- between the accounts if the call returned true, and `first_free` is again the least index of a
  -- free page.
  pub pm_try_release_page_lem :
      (t : Single) (paddr : ℕ)
      → paddr < 2 ^ 27
      → IsReady t
      → (b : Bool) × (t' : Single) × (pm_try_release_page alloc depth fuel paddr (to_pm t)
          ≡ done (b, to_pm t'))
        × (b ≡ is_locked (page t (paddr / 4096)))
        × Changed t (paddr / 4096) free t'
        × Accounts b t.unused t.used t'.unused t'.used
        × IsReady t'
  unfolding pm_try_release_page
  pm_try_release_page_lem t paddr low ready =
      let i = paddr / 4096 in
      let ok = ready.single in
      let cleared = put_page t i false in
      let j = if ltb i t.first_free then i else t.first_free in
      elim (low_page t i ok (omega arith)) [
        | inr vacant ↦ (
          false,
          t,
          ground (
            arith,
            try_set_page-low alloc (pm_request_page alloc depth fuel) fuel t paddr false low ok,
            put_page-same t i false ok,
          ),
          ground arith,
          λ k. ground arith,
          (refl, refl),
          ready,
        )
        | inl taken ↦ (
          true,
          record (with_first cleared j) {
            used = u64 (t.used + minus_page);
            unused = u64 (t.unused + page_size);
          },
          ground (
            arith,
            try_set_page-low alloc (pm_request_page alloc depth fuel) fuel t paddr false low ok,
            move_back-low cleared paddr low,
          ),
          ground arith,
          λ k. put_page-page t i k false ok (omega arith),
          (refl, refl),
          record {
            single = record {
              bitmap = (put_page-IsSingle i false ok).bitmap;
              size = (put_page-IsSingle i false ok).size;
            };
            in_range = ground (arith, ready.in_range);
            is_free = ground (
              arith,
              put_page-page t i i false ok (omega arith),
              put_page-page t i t.first_free false ok (omega arith),
              ready.is_free,
            );
            below =
                λ k lt. ground (arith, put_page-page t i k false ok (omega arith), ready.below k);
          },
        )
      ]

  -- Where one page of the first 128 MB is free and no other bitmap exists, `pm_try_lock_page` of that
  -- page is a fault: the search for the next free page reads the head of the list of bitmaps as a
  -- bitmap.
  pub pm_try_lock_page-last :
      (t : Single) (paddr : ℕ)
      → paddr < 2 ^ 27
      → IsReady t
      → page t (paddr / 4096) ≡ free
      → t.super.unset ≡ 1
      → pm_try_lock_page alloc depth fuel paddr (to_pm t) ≡ fault
  unfolding pm_try_lock_page
  pm_try_lock_page-last t paddr low ready f one =
      lock_page-last alloc (pm_request_page alloc depth fuel) fuel enough t paddr low ready f one

-- ===== src/Pm/Ranges.antt =====
-- Locking and releasing runs of pages (`pm_try_lock_pages` and `pm_try_release_pages` of mm/pm.c),
-- with one bitmap.
use mimik.Base.{
  ℕ, zero, suc, ◌+◌, ◌/◌, ◌^◌, ◌<◌, ◌≤◌, ◌≡◌, refl, Bool, true, false, ◌&&◌, ltb, leb, ◌==◌,
  if◌then◌else◌, u64, arith, done, Outcome, inl, inr, Bool-cases,
}
use mimik.Memory.{Ptr}
use mimik.Bitmap.Access.{Cell, locked, free}
use mimik.Page.{page_size, pages_of}
use mimik.Pm.State.{bitmap_size, Pm}
use mimik.Pm.Lock.{lock_loop, pm_try_lock_pages, release_loop, pm_try_release_pages}
use mimik.Pm.Single.{Single, to_pm, page, IsReady}
use mimik.Pm.Pages.{is_free, Changed, pm_try_lock_page_lem, pm_try_release_page_lem}

-- The pages that a range of `bytes` takes: an empty one takes a page all the same.
abbrev pub run_length : ℕ → ℕ
run_length bytes = if bytes == 0 then 1 else pages_of bytes

abbrev pub in_run : ℕ → ℕ → ℕ → Bool
in_run i n j = leb i j && ltb j (i + n)

-- `t'` is `t` with the pages of a run as `c` says, and every other page as it was.
abbrev pub RunChanged : Single → ℕ → ℕ → Cell → Single → Type 0
RunChanged t i n c t' = (j : ℕ) → page t' j ≡ (if in_run i n j then c else page t j)

unfoldable pub all_free : Single → ℕ → ℕ → Bool
all_free t i zero = true
all_free t i (suc n) = is_free (page t i) && all_free t (i + 1) n

all_free-Changed :
    (t t' : Single) (i lo n : ℕ) (c : Cell)
    → Changed t i c t'
    → i < lo
    → all_free t' lo n ≡ all_free t lo n
unfolding all_free
all_free-Changed t t' i lo zero c ch lt = refl
all_free-Changed t t' i lo (suc n) c ch lt =
    ground (arith, ch lo, all_free-Changed t t' i (lo + 1) n c ch)

module _ (alloc : Pm → Outcome (Ptr × Pm)) (depth fuel : ℕ) (enough : bitmap_size ≤ fuel) where
  lock_loop-run :
      (n paddr : ℕ) (ok : Bool) (t : Single)
      → paddr / 4096 + n ≤ bitmap_size
      → IsReady t
      → n < t.super.unset
      → (t' : Single) × (lock_loop alloc depth fuel n paddr ok (to_pm t)
          ≡ done (ok && all_free t (paddr / 4096) n, to_pm t'))
        × RunChanged t (paddr / 4096) n locked t'
        × (t.super.unset ≤ t'.super.unset + n)
        × IsReady t'
  unfolding lock_loop all_free
  lock_loop-run zero paddr ok t fits ready more =
      (t, ground arith, λ j. ground arith, omega arith, ready)
  lock_loop-run (suc n) paddr ok t fits ready more =
      let i = paddr / 4096 in
      let (b, t1, run, was, changed, accounts, count, ready1) =
        pm_try_lock_page_lem alloc depth fuel enough t paddr (omega arith) ready (omega arith) in
      let next : u64 (paddr + page_size) / 4096 ≡ i + 1 = omega arith in
      let (t2, rest, changed2, count2, ready2) =
        lock_loop-run n (u64 (paddr + page_size)) (ok && b) t1 (omega arith) ready1 (omega arith) in
      (
        t2,
        ground (arith, all_free-Changed t t1 i (i + 1) n locked changed (omega arith)),
        λ j. ground (arith, changed j, changed2 j),
        omega arith,
        ready2,
      )

  -- `pm_try_lock_pages` of a range inside the first 128 MB, while more pages are free than the range
  -- takes, returns true exactly when every page of the range was free. Afterwards every page of the
  -- range is locked, every other page is as it was, and `first_free` is again the least index of a
  -- free page. The range starts at the page of `paddr` and has one page for each 4096 bytes or part
  -- of them, and one page if `bytes` is 0.
  pub pm_try_lock_pages_lem :
      (paddr bytes : ℕ) (t : Single)
      → bytes + 4095 < 2 ^ 64
      → paddr / 4096 + run_length bytes ≤ bitmap_size
      → IsReady t
      → run_length bytes < t.super.unset
      → (t' : Single) × (pm_try_lock_pages alloc depth fuel paddr bytes (to_pm t)
          ≡ done (all_free t (paddr / 4096) (run_length bytes), to_pm t'))
        × RunChanged t (paddr / 4096) (run_length bytes) locked t'
        × (t.super.unset ≤ t'.super.unset + run_length bytes)
        × IsReady t'
  unfolding pm_try_lock_pages all_free
  pm_try_lock_pages_lem paddr bytes t size fits ready more = elim (Bool-cases (bytes == 0)) [
    | inl none_asked ↦
        let (b, t1, run, was, changed, accounts, count, ready1) =
          pm_try_lock_page_lem alloc depth fuel enough t paddr (ground arith) ready
            (ground arith) in
        (t1, ground arith, λ j. ground (arith, changed j), ground arith, ready1)
    | inr some_asked ↦
        rw some_asked
          (lock_loop-run (pages_of bytes) paddr true t (ground arith) ready (ground arith))
  ]

  release_loop-run :
      (n paddr : ℕ) (t : Single)
      → paddr / 4096 + n ≤ bitmap_size
      → IsReady t
      → (t' : Single) × (release_loop alloc depth fuel n paddr true (to_pm t)
          ≡ done (true, to_pm t'))
        × RunChanged t (paddr / 4096) n free t'
        × IsReady t'
  unfolding release_loop
  release_loop-run zero paddr t fits ready = (t, refl, λ j. ground arith, ready)
  release_loop-run (suc n) paddr t fits ready =
      let i = paddr / 4096 in
      let (b, t1, run, was, changed, accounts, ready1) =
        pm_try_release_page_lem alloc depth fuel enough t paddr (omega arith) ready in
      let next : u64 (paddr + page_size) / 4096 ≡ i + 1 = omega arith in
      let (t2, rest, changed2, ready2) =
        release_loop-run n (u64 (paddr + page_size)) t1 (omega arith) ready1 in
      (t2, ground arith, λ j. ground (arith, changed j, changed2 j), ready2)

  -- `pm_try_release_pages` of a range inside the first 128 MB that is not empty returns true,
  -- whichever of its pages were locked. Afterwards every page of the range is free, every other page
  -- is as it was, and `first_free` is again the least index of a free page.
  pub pm_try_release_pages_lem :
      (paddr bytes : ℕ) (t : Single)
      → 0 < bytes
      → bytes + 4095 < 2 ^ 64
      → paddr / 4096 + run_length bytes ≤ bitmap_size
      → IsReady t
      → (t' : Single) × (pm_try_release_pages alloc depth fuel paddr bytes (to_pm t)
          ≡ done (true, to_pm t'))
        × RunChanged t (paddr / 4096) (run_length bytes) free t'
        × IsReady t'
  unfolding pm_try_release_pages
  pm_try_release_pages_lem paddr bytes t pos size fits ready =
      let asked : (bytes == 0) ≡ false = ground arith in
      rw asked (release_loop-run (pages_of bytes) paddr t (ground arith) ready)

  all_free_run :
      (t : Single) (i n j : ℕ) → all_free t i n ≡ true → in_run i n j ≡ true → page t j ≡ free
  unfolding all_free
  all_free_run t i zero j all inside = absurd (ground arith)
  all_free_run t i (suc n) j all inside = ground (arith, all_free_run t (i + 1) n j)

  -- Locking a range of free pages and releasing it again both return true, and every page is then as
  -- it was, where the state has one bitmap, the range is not empty and lies in the first 128 MB, and
  -- there is a free page outside it.
  pub pm_try_release_pages-lock_pages :
      (paddr bytes : ℕ) (t : Single)
      → 0 < bytes
      → bytes + 4095 < 2 ^ 64
      → paddr / 4096 + run_length bytes ≤ bitmap_size
      → IsReady t
      → run_length bytes < t.super.unset
      → all_free t (paddr / 4096) (run_length bytes) ≡ true
      → (mid after : Single) × (pm_try_lock_pages alloc depth fuel paddr bytes (to_pm t)
          ≡ done (true, to_pm mid))
        × (pm_try_release_pages alloc depth fuel paddr bytes (to_pm mid) ≡ done (true, to_pm after))
        × ((j : ℕ) → page after j ≡ page t j)
        × (after.first_free ≡ t.first_free)
  pm_try_release_pages-lock_pages paddr bytes t pos size fits ready more all =
      let (mid, locked_run, changed, count, ready1) =
        pm_try_lock_pages_lem paddr bytes t size fits ready more in
      let (after, released, changed2, ready2) =
        pm_try_release_pages_lem paddr bytes mid pos size fits ready1 in
      let same : (j : ℕ) → page after j ≡ page t j = λ j.
        ground
          (arith, changed j, changed2 j, all_free_run t (paddr / 4096) (run_length bytes) j all) in
      (
        mid,
        after,
        ground arith,
        released,
        same,
        ground (
          arith,
          same t.first_free,
          same after.first_free,
          ready.is_free,
          ready2.is_free,
          ready.below after.first_free,
          ready2.below t.first_free,
        ),
      )

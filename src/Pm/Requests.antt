-- ===== src/Pm/Requests.antt =====
-- What `pm_request_pages` (mm/pm.c) finds and locks, with one bitmap.
use mimik.Base.{
  ℕ, ◌+◌, ◌*◌, ◌/◌, ◌^◌, ◌<◌, ◌≤◌, ◌≡◌, refl, Bool, true, false, ltb, if◌then◌else◌, u64, arith,
  done, Outcome, inl, inr, Bool-cases, ap, ap₂, ◌∙◌,
}
use mimik.Memory.{Ptr}
use mimik.Bitmap.Access.{locked, free}
use mimik.Page.{page_size, bytes_of}
use mimik.Pm.State.{bitmap_size, to_paddr, Pm}
use mimik.Pm.Lock.{pm_try_lock_pages}
use mimik.Pm.Request.{pm_request_pages}
use mimik.Pm.Single.{Single, to_pm, page, IsReady, current-bitmap0}
use mimik.Pm.Ranges.{run_length, RunChanged, in_run, all_free, pm_try_lock_pages_lem}
use mimik.Pm.Scan.{at_run, free_in, pages_loop-run}

run_pages : (num : ℕ) → 0 < num → num ≤ bitmap_size → run_length (num * page_size) ≡ num
run_pages num pos le = ground arith

-- The variables of the loop before its first round.
start_run :
    (t : Single)
    → record (at_run t t.first_free 0) { index = t.first_free } ≡ at_run t t.first_free 0
start_run t =
    ap (λ (i : ℕ). record (at_run t t.first_free 0) { index = i }) (plus_zero t.first_free)
  where
    plus_zero : (a : ℕ) → a ≡ a + 0
    plus_zero a = omega arith

module _ (alloc : Pm → Outcome (Ptr × Pm)) (depth fuel : ℕ) (enough : bitmap_size < fuel) where
  lock_run :
      (num first : ℕ) (t : Single)
      → 0 < num
      → first + num ≤ bitmap_size
      → IsReady t
      → num < t.super.unset
      → all_free t first num ≡ true
      → (t' : Single) × (pm_try_lock_pages alloc depth fuel
            (first * page_size)
            (num * page_size)
            (to_pm t)
          ≡ done (true, to_pm t'))
        × RunChanged t first num locked t'
        × IsReady t'
  lock_run num first t pos inside ready more all =
      let pages = run_pages num pos (omega arith) in
      let back : first * page_size / 4096 ≡ first = omega arith in
      let (t', lock, changed, count, ready') =
        pm_try_lock_pages_lem alloc depth fuel (omega arith) (first * page_size) (num * page_size) t
          (omega arith) (rw (back, pages) inside) ready (rw pages more) in
      (
        t',
        lock ∙ ap (λ (b : Bool). done (b, to_pm t')) (locks pages back),
        λ j. changed j ∙ ap₂ (λ (i n : ℕ). if in_run i n j then locked else page t j) back pages,
        ready',
      )
    where
      locks :
          run_length (num * page_size) ≡ num
          → first * page_size / 4096 ≡ first
          → all_free t (first * page_size / 4096) (run_length (num * page_size)) ≡ true
      locks pages back = ap₂ (all_free t) back pages ∙ all

  -- `pm_request_pages`, with one bitmap, where there is a run of `num` free pages, more pages are
  -- free than that, and the account has room, returns the address of the first page of the first
  -- such run. Afterwards the pages of that run are locked, every other page is as it was, and
  -- `first_free` is the least index of a free page.
  pub pm_request_pages_lem :
      (num r : ℕ) (t : Single)
      → 0 < num
      → IsReady t
      → num < t.super.unset
      → num * page_size ≤ t.unused
      → r + num ≤ bitmap_size
      → all_free t r num ≡ true
      → (first : ℕ) × (t' : Single) × (pm_request_pages alloc depth fuel num (to_pm t)
          ≡ done (first * page_size, to_pm t'))
        × (all_free t first num ≡ true)
        × ((k : ℕ) → all_free t k num ≡ true → first ≤ k)
        × RunChanged t first num locked t'
        × IsReady t'
  unfolding pm_request_pages to_paddr
  pm_request_pages_lem num r t pos ready more room fits run =
      let ok = ready.single in
      let (first, loop, all, inside, least) =
        pages_loop-run fuel num r t t.first_free 0 ok (omega arith) (omega arith) (ahead r run) fits
          run (λ j a b. absurd (omega arith)) in
      let bytes : bytes_of num ≡ num * page_size = omega arith in
      let paddr : u64 (0 * 2 ^ 27 + first * page_size) ≡ first * page_size = omega arith in
      let (t', lock, changed, ready') = lock_run num first t pos inside ready more all in
      let enough_memory : ltb t.unused (num * page_size) ≡ false = ground arith in
      (
        first,
        t',
        rw (bytes, enough_memory, current-bitmap0 t, start_run t, loop, paddr, lock) refl,
        all,
        (λ k a. least k (ahead k a) a),
        changed,
        ready',
      )
    where
      not_below : (k : ℕ) → page t k ≡ free → t.first_free ≤ k
      not_below k f = elim (Bool-cases (ltb k t.first_free)) [
        | inl low ↦ absurd (ground (arith, ready.below k (ground arith)))
        | inr high ↦ ground arith
      ]

      ahead : (k : ℕ) → all_free t k num ≡ true → t.first_free ≤ k
      ahead k all = not_below k (free_in t num k k all (omega arith) (omega arith))

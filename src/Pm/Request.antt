-- ===== src/Pm/Request.antt =====
-- `pm_request_pages` and `pm_request_bytes` (mm/pm.c): runs of pages.
use mimik.Base.{
  ℕ, zero, suc, ◌+◌, ◌-◌, ◌*◌, ◌/◌, ◌^◌, Bool, true, false, ◌&&◌, ◌||◌, List, [], ◌∷◌, ltb, ◌==◌,
  if◌then◌else◌, u64, Outcome, done, halted, out_of_fuel, ◌>>=◌, ◌>>◌, assert, Option, none, some,
  code, error, einval, or_fault,
}
use mimik.Memory.{Ptr}
use mimik.Bitmap.{bitmap_get}
use mimik.Page.{page_size, bytes_of, align_up}
use mimik.Pm.State.{bitmap_size, to_paddr, MemBitmap, Pm, current}
use mimik.Pm.Lock.{pm_try_lock_pages}

-- The bitmap at `mem_bitmap->link.next`; behind the last one stands the list's head.
unfoldable pub next_bitmap : Ptr → List MemBitmap → Option MemBitmap
next_bitmap p [] = none
next_bitmap p (b ∷ []) = none
next_bitmap p (b ∷ c ∷ bs) = if b.node == p then some c else next_bitmap p (c ∷ bs)

-- The variables of the loop of `pm_request_pages`. A round that comes from `goto retry` makes no
-- test of the loop's condition.
pub record Run : Type 0 where
  pub bitmap : MemBitmap
  pub index : ℕ
  pub start_index : ℕ
  pub found : ℕ
  pub retrying : Bool

-- The branch of an index out of range: on to the next bitmap.
unfoldable pub retry : Run → MemBitmap → Run
retry r next =
    let far = ltb 1 (u64 (next.index + 2 ^ 64 - r.bitmap.index)) in
    let index = u64 (next.index * bitmap_size) in
    if far
    then record { bitmap = next; index = index; start_index = index; found = 0; retrying = true }
    else record r { bitmap = next; retrying = true }

-- The rest of a round whose page is free or locked, with the increment of the `for`.
unfoldable pub count_page : Run → Bool → Run
count_page r true = record r {
  index = u64 (r.index + 1);
  found = u64 (r.found + 1);
  retrying = false;
}
count_page r false = record r {
  index = u64 (r.index + 1);
  start_index = u64 (r.index + 1);
  found = 0;
  retrying = false;
}

unfoldable pub pages_loop : ℕ → ℕ → Pm → Run → Outcome Run
pages_loop zero num s r = out_of_fuel
pages_loop (suc rounds) num s r =
    let go = λ (r' : Run). pages_loop rounds num s r' in
    if r.retrying || (ltb r.found num && ltb r.index r.bitmap.super.size)
    then elim (bitmap_get r.bitmap.super s.memory r.index) [
      | error einval ↦
          or_fault (next_bitmap r.bitmap.node s.mem_bitmaps) >>= λ next. go (retry r next)
      | error e ↦ halted
      | code zero ↦ go (count_page r true)
      | code (suc n) ↦ go (count_page r false)
    ]
    else done r

module _ (alloc : Pm → Outcome (Ptr × Pm)) (depth fuel : ℕ) where
  unfoldable pub pm_request_pages : ℕ → Pm → Outcome (ℕ × Pm)
  pm_request_pages num s = if ltb s.free (bytes_of num) then halted else do
    b ← current s
    let r : Run = record {
      bitmap = b;
      index = b.first_free;
      start_index = b.first_free;
      found = 0;
      retrying = false;
    }
    r' ← pages_loop fuel num s r
    let paddr = to_paddr r'.bitmap.index r'.start_index
    (locked, s') ← pm_try_lock_pages alloc depth fuel paddr (bytes_of num) s
    assert locked
    done (paddr, s')

  unfoldable pub pm_request_bytes : ℕ → Pm → Outcome (ℕ × Pm)
  pm_request_bytes bytes s = pm_request_pages (align_up bytes page_size / page_size) s

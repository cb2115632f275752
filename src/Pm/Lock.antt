-- ===== src/Pm/Lock.antt =====
-- Locking, releasing and requesting pages (mm/pm.c).
use mimik.Base.{
  ℕ, zero, suc, ◌+◌, ◌-◌, ◌^◌, Bool, true, false, ◌&&◌, ◌||◌, ltb, ◌==◌, if◌then◌else◌, u64,
  Outcome, done, halted, out_of_fuel, ◌>>=◌, ◌>>◌, assert, none, some, Status, code, error,
  or_fault,
}
use mimik.Memory.{Ptr}
use mimik.Bitmap.{bitmap_set}
use mimik.Page.{page_size, pages_of}
use mimik.Pm.State.{to_bitmap, to_index, to_paddr, MemBitmap, Pm, current, store_bitmap}
use mimik.Pm.Search.{
  find_bitmap_by_index, create_bitmap, find_first_free_bitmap, find_first_free_index,
}

-- `sts == SUCCESS`
abbrev pub is_success : Status → Bool
is_success (code zero) = true
is_success (code (suc n)) = false
is_success (error e) = false

-- `mem_info.used += used; mem_info.free += free`
abbrev pub account : ℕ → ℕ → Pm → Pm
account used free s = record s { used = u64 (s.used + used); free = u64 (s.free + free) }

abbrev pub minus_page : ℕ
minus_page = 2 ^ 64 - page_size

-- `bitmap_set(&mem_bitmap->super, index, state)`
unfoldable pub set_in : MemBitmap → ℕ → Bool → Pm → Outcome (Bool × Pm)
set_in b paddr state s =
    let (sts, super, memory) = bitmap_set b.super s.memory (to_index paddr) state in
    done (is_success sts, record (store_bitmap s (record b { super = super })) { memory = memory })

module _ (alloc : Pm → Outcome (Ptr × Pm)) (request : Pm → Outcome (ℕ × Pm)) (fuel : ℕ) where
  unfoldable pub try_set_page : ℕ → Bool → Pm → Outcome (Bool × Pm)
  try_set_page paddr state s =
      let index = to_bitmap paddr in
      elim (find_bitmap_by_index index s.mem_bitmaps) [
        | some b ↦ set_in b paddr state s
        | none ↦ create_bitmap alloc request index s >>= λ (b, s'). set_in b paddr state s'
      ]

  -- `first_free_bitmap->index == bitmap && !find_first_free_index()`, and then
  -- `find_first_free_bitmap()`
  unfoldable pub refresh : ℕ → Pm → Outcome Pm
  refresh bitmap s = do
    b ← current s
    if b.index == bitmap
        then (do
          (found, s') ← find_first_free_index alloc request fuel s
          if found then done s' else find_first_free_bitmap alloc request s')
        else done s

  unfoldable pub lock_page_with : ℕ → Pm → Outcome (Bool × Pm)
  lock_page_with paddr s = do
    (set, s1) ← try_set_page paddr true s
    if set
        then (do s2 ← refresh (to_bitmap paddr) s1; done (true, account page_size minus_page s2))
        else done (false, s1)

  unfoldable pub request_page_with : Pm → Outcome (ℕ × Pm)
  request_page_with s = if ltb s.free page_size then halted else do
    b ← current s
    let paddr = to_paddr b.index b.first_free
    (locked, s') ←
        lock_page_with paddr (store_bitmap s (record b { first_free = u64 (b.first_free + 1) }))
    assert locked
    done (paddr, s')

module _ (alloc : Pm → Outcome (Ptr × Pm)) where
  -- `create_bitmap` requests a page in turn: `depth` bounds the nesting.
  unfoldable pub pm_request_page : (depth fuel : ℕ) → Pm → Outcome (ℕ × Pm)
  pm_request_page zero fuel s = out_of_fuel
  pm_request_page (suc depth) fuel s =
      request_page_with alloc (λ s'. pm_request_page depth fuel s') fuel s

  module _ (depth fuel : ℕ) where
    unfoldable pub pm_try_lock_page : ℕ → Pm → Outcome (Bool × Pm)
    pm_try_lock_page = lock_page_with alloc (pm_request_page depth fuel) fuel

    -- The loop of `pm_try_lock_pages` with `left` rounds to go.
    unfoldable pub lock_loop : ℕ → ℕ → Bool → Pm → Outcome (Bool × Pm)
    lock_loop zero paddr ok s = done (ok, s)
    lock_loop (suc left) paddr ok s = do
      (locked, s') ← pm_try_lock_page paddr s
      lock_loop left (u64 (paddr + page_size)) (ok && locked) s'

    unfoldable pub pm_try_lock_pages : ℕ → ℕ → Pm → Outcome (Bool × Pm)
    pm_try_lock_pages paddr bytes s =
        if bytes == 0 then pm_try_lock_page paddr s else lock_loop (pages_of bytes) paddr true s

    -- The part of `pm_try_release_page` that moves `first_free_bitmap` and `first_free` back.
    unfoldable pub move_back : ℕ → Pm → Outcome Pm
    move_back paddr s =
        let bitmap = to_bitmap paddr in
        let index = to_index paddr in
        do
          b ← current s
          s1 ←
              if ltb bitmap b.index
              then (do
                c ← or_fault (find_bitmap_by_index bitmap s.mem_bitmaps)
                done (record s { first_free_bitmap = c.node }))
              else done s
          c ← current s1
          if (bitmap == c.index) && ltb index c.first_free
              then done (store_bitmap s1 (record c { first_free = index }))
              else done s1

    unfoldable pub pm_try_release_page : ℕ → Pm → Outcome (Bool × Pm)
    pm_try_release_page paddr s = do
      (set, s1) ← try_set_page alloc (pm_request_page depth fuel) fuel paddr false s
      if set
          then (do s2 ← move_back paddr s1; done (true, account minus_page page_size s2))
          else done (false, s1)

    unfoldable pub release_loop : ℕ → ℕ → Bool → Pm → Outcome (Bool × Pm)
    release_loop zero paddr ok s = done (ok, s)
    release_loop (suc left) paddr ok s = do
      (released, s') ← pm_try_release_page paddr s
      release_loop left (u64 (paddr + page_size)) (ok || released) s'

    unfoldable pub pm_try_release_pages : ℕ → ℕ → Pm → Outcome (Bool × Pm)
    pm_try_release_pages paddr bytes s =
        if bytes == 0
        then pm_try_release_page paddr s
        else release_loop (pages_of bytes) paddr true s

-- ===== src/Pm/Search.antt =====
-- The functions of mm/pm.c that look for a bitmap or a free page, and `create_bitmap`.
use mimik.Base.{
  ℕ, zero, suc, ◌+◌, ◌-◌, ◌^◌, Bool, true, false, not, List, [], ◌∷◌, ◌++◌, map, ltb, ◌==◌,
  if◌then◌else◌, u64, Outcome, done, fault, halted, out_of_fuel, ◌>>=◌, ◌>>◌, assert, or_fault,
  Option, none, some, code, error, einval,
}
use mimik.Memory.{Ptr, null}
use mimik.Bitmap.{bitmap_from, bitmap_get}
use mimik.Pm.State.{bitmap_size, MemBitmap, Pm, find_node, current, store_bitmap}

unfoldable pub find_bitmap_by_index : ℕ → List MemBitmap → Option MemBitmap
find_bitmap_by_index index [] = none
find_bitmap_by_index index (b ∷ bs) =
    if b.index == index then some b else find_bitmap_by_index index bs

-- Where the loop of `create_bitmap` stops: at the first bitmap with an index above `index`, or at
-- the list's head (`none`).
unfoldable pub find_position : ℕ → List MemBitmap → Option Ptr
find_position index [] = none
find_position index (b ∷ bs) = if ltb index b.index then some b.node else find_position index bs

-- `list_insert(mem_bitmap->link.prev, &new_bitmap->link)`
unfoldable pub insert_at : Option Ptr → MemBitmap → List MemBitmap → List MemBitmap
insert_at none new bs = bs ++ new ∷ []
insert_at (some p) new [] = new ∷ []
insert_at (some p) new (b ∷ bs) =
    if b.node == p then new ∷ b ∷ bs else b ∷ insert_at (some p) new bs

-- What `list_for_each(mem_bitmap, &first_free_bitmap->link, link)` goes through: the nodes behind
-- the one at `p`, the list's head, which is no bitmap (`none`), and the nodes in front.
unfoldable pub ring_after : Ptr → List (Option MemBitmap) → List MemBitmap → List (Option MemBitmap)
ring_after p before [] = []
ring_after p before (b ∷ bs) =
    if b.node == p then map some bs ++ none ∷ before else ring_after p (before ++ some b ∷ []) bs

-- What that loop comes to: a bitmap with a free page, or the last value of `prev_bitmap`.
pub data Found : Type 0 where
  hit : MemBitmap → Found
  missed : Option MemBitmap → Found

abbrev pub next_prev : Option MemBitmap → MemBitmap → Option MemBitmap
next_prev none b = some b
next_prev (some prev) b = if u64 (b.index + 2 ^ 64 - prev.index) == 1 then some b else some prev

-- `mem_bitmap->super.unset` of the list's head lies outside the object.
unfoldable pub scan_ring : Option MemBitmap → List (Option MemBitmap) → Outcome Found
scan_ring prev [] = done (missed prev)
scan_ring prev (none ∷ bs) = fault
scan_ring prev (some b ∷ bs) =
    if ltb 0 b.super.unset then done (hit b) else scan_ring (next_prev prev b) bs

-- `alloc` is `mm_alloc(sizeof(struct mem_bitmap))`, and `request` the inner `pm_request_page`.
module _ (alloc : Pm → Outcome (Ptr × Pm)) (request : Pm → Outcome (ℕ × Pm)) where
  -- The field `index` of the new bitmap is 0, whatever index is asked for.
  unfoldable pub create_bitmap : ℕ → Pm → Outcome (MemBitmap × Pm)
  create_bitmap index s = do
    let pos = find_position index s.mem_bitmaps
    (new, s1) ← alloc s
    assert (not (new == null))
    (super, memory) ← bitmap_from bitmap_size s1.next_bitmap_page s1.memory
    let b : MemBitmap = record { node = new; index = 0; first_free = 0; super = super }
    let bs = insert_at pos b s1.mem_bitmaps
    (page, s2) ← request (record s1 { memory = memory; mem_bitmaps = bs })
    -- `mem_bitmap` is a pointer, so what the request has made of the bitmap is seen.
    b' ← or_fault (find_node new s2.mem_bitmaps)
    done (b', record s2 { next_bitmap_page = page })

  unfoldable pub find_first_free_bitmap : Pm → Outcome Pm
  find_first_free_bitmap s = do
    found ← scan_ring none (ring_after s.first_free_bitmap [] s.mem_bitmaps)
    elim found [
      | hit b ↦ done (record s { first_free_bitmap = b.node })
      | missed none ↦ halted
      | missed (some prev) ↦ do
        (b, s') ← create_bitmap (u64 (prev.index + 1)) s
        done (record s' { first_free_bitmap = b.node })
    ]

  -- `while (++first_free_bitmap->first_free < first_free_bitmap->super.size)`, the increment and
  -- the test, with the next round behind it.
  abbrev advance : Pm → (Pm → Outcome (Bool × Pm)) → Outcome (Bool × Pm)
  advance s again = do
    b ← current s
    let b' : MemBitmap = record b { first_free = u64 (b.first_free + 1) }
    if ltb b'.first_free b'.super.size
        then again (store_bitmap s b')
        else done (false, store_bitmap s b')

  unfoldable pub find_first_free_index : ℕ → Pm → Outcome (Bool × Pm)
  find_first_free_index zero s = out_of_fuel
  find_first_free_index (suc fuel) s =
      let again = λ (s' : Pm). find_first_free_index fuel s' in
      do
        b ← current s
        elim (bitmap_get b.super s.memory b.first_free) [
          | error einval ↦ find_first_free_bitmap s >>= λ s'. advance s' again
          | error e ↦ halted
          | code zero ↦ done (true, s)
          | code (suc n) ↦ advance s again
        ]

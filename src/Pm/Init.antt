-- ===== src/Pm/Init.antt =====
-- `pm_init` and what it calls (mm/pm.c), from the memory map of include/boot/bootinfo.h.
use mimik.Base.{
  ℕ, ◌+◌, ◌-◌, ◌^◌, Bool, not, ◌&&◌, List, [], ◌∷◌, ◌==◌, if◌then◌else◌, u64, Outcome, done, ◌>>=◌,
  ◌>>◌, assert,
}
use mimik.Memory.{Ptr}
use mimik.Bitmap.{bitmap_from}
use mimik.Pm.State.{bitmap_size, to_bitmap, MemBitmap, Pm}
use mimik.Pm.Lock.{pm_try_lock_pages, pm_request_page}

-- `struct bootinfo_mem_segment`; a type of 0 is reserved, 1 is available.
pub record Segment : Type 0 where
  pub type : ℕ
  pub addr : ℕ
  pub length : ℕ

abbrev pub reserved : ℕ
reserved = 0

-- What the linker decides: the kernel's physical range, where the static variables stand, and what
-- is left of the state when the 14 bytes behind `mem_info` are cleared.
pub record Layout : Type 0 where
  pub paddr_start : ℕ
  pub paddr_end : ℕ
  pub mem_bitmap0 : Ptr
  pub pages_bitmap0 : Ptr
  pub behind_mem_info : Pm → Pm

-- The state with the first bitmap only, which tracks the first 128 MB.
unfoldable pub init_first_bitmap : Layout → Pm → Outcome Pm
init_first_bitmap l s = do
  (super, memory) ← bitmap_from bitmap_size l.pages_bitmap0 s.memory
  let b : MemBitmap = record { node = l.mem_bitmap0; index = 0; first_free = 0; super = super }
  done (record s { memory = memory; mem_bitmaps = b ∷ []; first_free_bitmap = l.mem_bitmap0 })

module _ (alloc : Pm → Outcome (Ptr × Pm)) (depth fuel : ℕ) where
  -- One round of the loop of `compute_mem_size`.
  unfoldable pub add_segment : Segment → Pm → Outcome Pm
  add_segment seg s =
      let s' = record s { free = u64 (s.free + seg.length) } in
      if seg.type == reserved && to_bitmap seg.addr == 0
      then (do (locked, s2) ← pm_try_lock_pages alloc depth fuel seg.addr seg.length s'; done s2)
      else done s'

  unfoldable pub segments_loop : List Segment → Pm → Outcome Pm
  segments_loop [] s = done s
  segments_loop (seg ∷ segs) s = add_segment seg s >>= λ s'. segments_loop segs s'

  -- `mem_set(&mem_info, 0, sizeof(mem_info))` of mem/mem.c clears 30 bytes, and `mem_info` has 16.
  unfoldable pub compute_mem_size : Layout → List Segment → Pm → Outcome Pm
  compute_mem_size l segs s =
      segments_loop segs (l.behind_mem_info (record s { used = 0; free = 0 }))

  -- `initialized` is the flag `K.subsys_init.pm`.
  unfoldable pub pm_init : Bool → Layout → List Segment → Pm → Outcome Pm
  pm_init initialized l segs s = do
    assert (not initialized)
    s1 ← init_first_bitmap l s
    s2 ← compute_mem_size l segs s1
    (locked, s3) ←
        pm_try_lock_pages alloc depth fuel l.paddr_start
          (u64 (l.paddr_end + 2 ^ 64 - l.paddr_start)) s2
    (page, s4) ← pm_request_page alloc depth fuel s3
    done (record s4 { next_bitmap_page = page })

-- ===== src/Pm/Start.antt =====
-- The set-up of mm/pm.c: `init_first_bitmap` and `compute_mem_size`.
use mimik.Base.{
  ℕ, ◌+◌, ◌/◌, ◌^◌, ◌<◌, ◌≤◌, ◌≡◌, ◌≢◌, refl, Bool, true, false, ◌&&◌, ◌||◌, List, [], ◌∷◌, ◌==◌,
  if◌then◌else◌, u64, arith, done, Outcome, inl, inr, Bool-cases, ◌>>=◌,
}
use mimik.Memory.{Ptr, null}
use mimik.Memory.Bytes.{IsBytes}
use mimik.Bitmap.Access.{locked, free}
use mimik.Bitmap.Create.{bitmap_from-IsBitmap}
use mimik.Pm.State.{bitmap_size, to_bitmap, Pm}
use mimik.Pm.Init.{
  Segment, reserved, Layout, init_first_bitmap, add_segment, segments_loop, compute_mem_size,
}
use mimik.Pm.Single.{Single, to_pm, page, IsReady}
use mimik.Pm.Ranges.{run_length, in_run, pm_try_lock_pages_lem}

-- The state that `init_first_bitmap` leaves is one with a single bitmap, and every page of the first
-- 128 MB is free in it. The memory is one of bytes and the static bitmap has an address.
pub init_first_bitmap-IsReady :
    (l : Layout) (s : Pm)
    → l.pages_bitmap0 ≢ null
    → IsBytes s.memory
    → (t : Single) × (init_first_bitmap l s ≡ done (to_pm t))
      × IsReady t
      × (t.super.unset ≡ bitmap_size)
      × ((i : ℕ) → i < bitmap_size → page t i ≡ free)
unfolding init_first_bitmap
init_first_bitmap-IsReady l s ne bytes =
    let (b, mem, run, ok, size, unset, all) =
      bitmap_from-IsBitmap bitmap_size l.pages_bitmap0 s.memory ne (omega arith) bytes in
    (
      record {
        memory = mem;
        used = s.used;
        unused = s.free;
        node = l.mem_bitmap0;
        first_free = 0;
        super = b;
        next_bitmap_page = s.next_bitmap_page;
      },
      ground (arith, run),
      record {
        single = record { bitmap = ok; size = size };
        in_range = omega arith;
        is_free = ground (arith, all 0);
        below = λ k lt. absurd (omega arith);
      },
      unset,
      λ i lt. ground (arith, all i),
    )

-- A reserved segment that starts in the first 128 MB: these alone are locked.
abbrev pub is_low : Segment → Bool
is_low seg = seg.type == reserved && to_bitmap seg.addr == 0

abbrev pub budget : List Segment → ℕ
budget [] = 0
budget (seg ∷ segs) = (if is_low seg then run_length seg.length else 0) + budget segs

abbrev pub covered : List Segment → ℕ → Bool
covered [] j = false
covered (seg ∷ segs) j =
    (is_low seg && in_run (seg.addr / 4096) (run_length seg.length) j) || covered segs j

-- The segments that are locked end inside the first 128 MB.
abbrev pub AllFit : List Segment → Type 0
AllFit [] = Unit {0}
AllFit (seg ∷ segs) =
    (is_low seg ≡ true
      → (seg.length + 4095 < 2 ^ 64) × (seg.addr / 4096 + run_length seg.length ≤ bitmap_size))
    × AllFit segs

module _ (alloc : Pm → Outcome (Ptr × Pm)) (depth fuel : ℕ) (enough : bitmap_size ≤ fuel) where
  add_segment-run :
      (seg : Segment) (t : Single)
      → (is_low seg ≡ true
          → (seg.length + 4095 < 2 ^ 64) × (seg.addr / 4096 + run_length seg.length ≤ bitmap_size))
      → IsReady t
      → budget (seg ∷ []) < t.super.unset
      → (t' : Single) × (add_segment alloc depth fuel seg (to_pm t) ≡ done (to_pm t'))
        × ((j : ℕ) → page t' j ≡ (if covered (seg ∷ []) j then locked else page t j))
        × (t.super.unset ≤ t'.super.unset + budget (seg ∷ []))
        × IsReady t'
  unfolding add_segment
  add_segment-run seg t fits ready more =
      let counted : Single = record t { unused = u64 (t.unused + seg.length) } in
      let still : IsReady counted = record {
        single = record { bitmap = ready.single.bitmap; size = ready.single.size };
        in_range = ready.in_range;
        is_free = ready.is_free;
        below = ready.below;
      } in
      elim (Bool-cases (is_low seg)) [
        | inl low ↦
            let (small, inside) = fits low in
            let (t', run, changed, count, ready') =
              pm_try_lock_pages_lem alloc depth fuel enough seg.addr seg.length counted small inside
                still (ground arith) in
            (t', ground (arith, run), λ j. ground (arith, changed j), ground arith, ready')
        | inr other ↦ (counted, ground arith, λ j. ground arith, ground arith, still)
      ]

  segments_loop-run :
      (segs : List Segment) (t : Single)
      → AllFit segs
      → IsReady t
      → budget segs < t.super.unset
      → (t' : Single) × (segments_loop alloc depth fuel segs (to_pm t) ≡ done (to_pm t'))
        × ((j : ℕ) → page t' j ≡ (if covered segs j then locked else page t j))
        × IsReady t'
  unfolding segments_loop
  segments_loop-run [] t fits ready more = (t, refl, λ j. refl, ready)
  segments_loop-run (seg ∷ segs) t fits ready more =
      let (t1, run, changed, count, ready1) = add_segment-run seg t fits.0 ready (ground arith) in
      let (t2, rest, changed2, ready2) = segments_loop-run segs t1 fits.1 ready1 (ground arith) in
      (t2, ground (arith, run, rest), λ j. ground (arith, changed j, changed2 j), ready2)

  -- `compute_mem_size` right behind `init_first_bitmap`, where the reserved segments that start in
  -- the first 128 MB end there and leave a page of it free, the memory is one of bytes, the static
  -- bitmap has an address, and none of the allocator's state stands in the 14 bytes behind
  -- `mem_info`, which are cleared as well: afterwards a page of the first 128 MB is
  -- locked if such a segment covers it and free if none does, and `first_free` is the least index of
  -- a free page.
  pub compute_mem_size-covered :
      (l : Layout) (segs : List Segment) (s : Pm)
      → l.pages_bitmap0 ≢ null
      → IsBytes s.memory
      → AllFit segs
      → budget segs < bitmap_size
      → ((s' : Pm) → l.behind_mem_info s' ≡ s')
      → (t : Single) × ((init_first_bitmap l s >>= λ s'.
            compute_mem_size alloc depth fuel l segs s')
          ≡ done (to_pm t))
        × ((j : ℕ) → j < bitmap_size → page t j ≡ (if covered segs j then locked else free))
        × IsReady t
  unfolding compute_mem_size
  compute_mem_size-covered l segs s ne bytes fits more apart =
      let (t0, start, ready0, unset, all) = init_first_bitmap-IsReady l s ne bytes in
      let cleared : Single = record t0 { used = 0; unused = 0 } in
      let still : IsReady cleared = record {
        single = record { bitmap = ready0.single.bitmap; size = ready0.single.size };
        in_range = ready0.in_range;
        is_free = ready0.is_free;
        below = ready0.below;
      } in
      let (t, run, changed, ready) = segments_loop-run segs cleared fits still (ground arith) in
      (t, rw (start, apart) run, λ j lt. ground (arith, changed j, all j), ready)

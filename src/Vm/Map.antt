-- ===== src/Vm/Map.antt =====
-- `create_pt`, `recurse_map`, `vm_map_pages` and the other entry points that map pages
-- (arch/x86_64/mm/vm.c). The search for space is in `Space`.
pub mod Space
use mimik.Base.{
  ℕ, zero, suc, ◌+◌, ◌*◌, ◌/◌, ◌%◌, ◌^◌, ◌-◌, Bool, true, false, not, ◌&&◌, ◌||◌, List, [], ◌∷◌,
  ltb, leb, ◌==◌, if◌then◌else◌, u64, Outcome, done, fault, halted, out_of_fuel, Status, code,
  error, success, is_error, bit_or, bit_and,
}
use mimik.Memory.{Ptr}
use mimik.Page.{page_size, page_offset, is_page_aligned, pages_of, bytes_of, align_down}
use mimik.Pm.State.{Pm}
use mimik.Pm.Lock.{pm_request_page}
use mimik.Vm.State.{
  pt_length, Pte, zero_pte, pte_paddr, set_pte, flag_writable, flag_user, is_flag_set, indices_of,
  TablePtr, direct, window, Table, Vm, Command, and_then, ◌>>=◌, ◌>>◌, pure, check, frame_of,
  read_entry, write_entry,
}
use mimik.Vm.Window.{map_page_tmp, unmap_page_tmp}
use mimik.Vm.Lookup.{pt_num_levels, pt_last_level, is_kvaddr}
use mimik.Vm.Flag.{update_pt_pte_flags}
use Space.{find_space}

-- `mem_set((ptr_t)vaddr, 0, PT_SIZE)` of a page of the window clears the 512 entries there, and,
-- since mem/mem.c goes on for 3584 bytes, the first 448 entries of the next page of the window,
-- which has to be mapped.
abbrev pub overrun_entries : ℕ
overrun_entries = 448

abbrev pub clear_entries : (ℕ → Table) → ℕ → ℕ → ℕ → Table
clear_entries tables f n g i = if (g == f) && ltb i n then zero_pte else tables g i

unfoldable pub clear_table : TablePtr → Command (Unit {0})
clear_table (direct f) s = fault
clear_table (window k) s =
    (do
      f ← frame_of (window k)
      g ← frame_of (window (k + 1))
      (λ s'. done (
        tt,
        record s' {
          tables = clear_entries (clear_entries s'.tables f pt_length) g overrun_entries;
        },
      )))
      s

abbrev pub lift_pm : {A : Type 0} → Vm → Outcome (A × Pm) → Outcome (A × Vm)
lift_pm s (done (a, pm)) = done (a, record s { pm = pm })
lift_pm s halted = halted
lift_pm s fault = fault
lift_pm s out_of_fuel = out_of_fuel

-- What `recurse_map` writes through its pointers: `*paddr` and `*pages`.
pub record Progress : Type 0 where
  pub paddr : ℕ
  pub pages : ℕ

-- The loop of `recurse_map` at the last level, on the rounds left to the end of the table.
unfoldable pub map_last : TablePtr → ℕ → ℕ → ℕ → Progress → Command (Status × Progress)
map_last pt flags zero i q = pure (success, q)
map_last pt flags (suc left) i q =
    let skip = map_last pt flags left (i + 1) q in
    let taken : Progress = record { paddr = u64 (q.paddr + page_size); pages = q.pages - 1 } in
    let again = map_last pt flags left (i + 1) taken in
    if q.pages == 0 then pure (success, q) else do
      pte ← read_entry pt i
      if pte.present then skip else (do write_entry pt i (set_pte q.paddr flags); again)

-- `alloc` is `mm_alloc` of a `struct mem_bitmap`, for the page allocator; `depth` and `fuel` are its
-- bounds.
module _ (alloc : Pm → Outcome (Ptr × Pm)) (depth fuel : ℕ) where
  unfoldable pub request : Command ℕ
  request s = lift_pm s (pm_request_page alloc depth fuel s.pm)

  unfoldable pub create_pt : TablePtr → ℕ → Command TablePtr
  create_pt pt index = do
    check (ltb index pt_length)
    paddr ← request
    vaddr ← map_page_tmp paddr flag_writable
    clear_table vaddr
    write_entry pt index (set_pte paddr flag_writable)
    pure vaddr

  -- The same loop at a level above the last; `below` is the recursive call.
  unfoldable pub map_upper :
      (TablePtr → Progress → Command (Status × Progress))
      → TablePtr
      → ℕ
      → ℕ
      → ℕ
      → Progress
      → Command (Status × Progress)
  map_upper below pt flags zero i q = pure (success, q)
  map_upper below pt flags (suc left) i q =
      let again = λ (q' : Progress). map_upper below pt flags left (i + 1) q' in
      if q.pages == 0 then pure (success, q) else do
        pte ← read_entry pt i
        p ← (if pte.present then map_page_tmp (pte_paddr pte) flag_writable else create_pt pt i)
        update_pt_pte_flags pt i flags
        (res, q') ← below p q
        unmap_page_tmp p
        if is_error res then pure (res, q') else again q'

  unfoldable pub recurse_map : TablePtr → List ℕ → ℕ → Progress → ℕ → Command (Status × Progress)
  recurse_map pt [] level q flags = λ s. fault
  recurse_map pt (i ∷ index) level q flags =
      let below = λ (p : TablePtr) (q' : Progress). recurse_map p index (level + 1) q' flags in
      do
        check (ltb level pt_num_levels)
        if level == pt_last_level
            then map_last pt flags (pt_length - i) i q
            else map_upper below pt flags (pt_length - i) i q

  -- The address with the indices put into the bit fields of `hint`, sign extended.
  unfoldable pub address_of : ℕ → List ℕ → ℕ
  address_of hint (i0 ∷ i1 ∷ i2 ∷ i3 ∷ []) =
      let sign = if bit_and i0 0x100 == 0 then hint / 2 ^ 48 else 0xffff in
      sign * 2 ^ 48
      + i0 % 512 * 2 ^ 39
      + i1 % 512 * 2 ^ 30
      + i2 % 512 * 2 ^ 21
      + i3 % 512 * 2 ^ 12
      + hint % 2 ^ 12
  address_of hint _ = hint

  -- `rounds` bounds the search for space. The result has the status and what `*vaddr_hint` holds.
  unfoldable pub vm_map_pages : ℕ → TablePtr → ℕ → ℕ → ℕ → ℕ → Command (Status × ℕ)
  vm_map_pages rounds table paddr_start pages hint flags = do
    check (is_page_aligned paddr_start)
    check (is_page_aligned hint)
    check (ltb 0 pages)
    (res, indices) ← find_space rounds 4 table (indices_of hint) 0 paddr_start pages flags
    if is_error res then pure (res, hint) else do
      (res', q) ← recurse_map table indices 0 (record { paddr = paddr_start; pages = pages }) flags
      if is_error res' then pure (res', hint) else pure (res', address_of hint indices)

  unfoldable pub vm_map_bytes : ℕ → TablePtr → ℕ → ℕ → ℕ → ℕ → Command (Status × ℕ)
  vm_map_bytes rounds table paddr_start bytes hint flags =
      let aligned_paddr = align_down paddr_start page_size in
      let bytes' = u64 (paddr_start + bytes + 2 ^ 64 - aligned_paddr) in
      do
        (res, hint') ←
            vm_map_pages rounds table aligned_paddr (pages_of bytes') (align_down hint page_size)
              flags
        pure (res, bit_or hint' (page_offset paddr_start))

  -- `vaddr_end` is the linker's `LAYOUT_VADDR_END`, the hint where there is none.
  unfoldable pub kernel_hint : ℕ → ℕ → Command ℕ
  kernel_hint vaddr_end hint =
      if hint == 0 then pure vaddr_end else (do check (is_kvaddr hint); pure hint)

  unfoldable pub vmk_map_pages : ℕ → ℕ → ℕ → ℕ → ℕ → ℕ → Command (Status × ℕ)
  vmk_map_pages rounds vaddr_end paddr_start pages hint flags s =
      (do
        check (not (is_flag_set flags flag_user))
        hint' ← kernel_hint vaddr_end hint
        vm_map_pages rounds s.kpml4 paddr_start pages hint' flags)
        s

  unfoldable pub vmk_map_bytes : ℕ → ℕ → ℕ → ℕ → ℕ → ℕ → Command (Status × ℕ)
  vmk_map_bytes rounds vaddr_end paddr_start bytes hint flags s =
      (do
        check (not (is_flag_set flags flag_user))
        hint' ← kernel_hint vaddr_end hint
        vm_map_bytes rounds s.kpml4 paddr_start bytes hint' flags)
        s

-- ===== src/Heap/Mapping.antt =====
-- `mm_map` and `mm_map_in_table` (mm/mm.c): address space with a fresh page behind each page of it.
use mimik.Base.{ℕ, zero, suc, ◌+◌, ◌-◌, ◌^◌, u64, if◌then◌else◌, Status, is_error, Outcome}
use mimik.Memory.{Ptr, null}
use mimik.Page.{page_size, pages_of, bytes_of}
use mimik.Pm.State.{Pm}
use mimik.Pm.Lock.{is_success}
use mimik.Vm.State.{TablePtr, Command, ◌>>=◌, ◌>>◌, pure, check}
use mimik.Vm.Lookup.{vm_set_backing, vmk_set_backing}
use mimik.Vm.Map.{request, vm_map_pages, vmk_map_pages}

-- The address that the macros `vm_reserve_pages` and `vmk_reserve_pages` map to.
abbrev pub reserve_paddr : ℕ → ℕ
reserve_paddr pages = u64 (2 ^ 64 - bytes_of pages)

module _ (alloc : Pm → Outcome (Ptr × Pm)) (depth fuel : ℕ) where
  -- The loop over the pages; `back` is `vmk_set_backing`, or `vm_set_backing` of a table.
  unfoldable pub back_loop : (ℕ → ℕ → Command Status) → ℕ → ℕ → Command (Unit {0})
  back_loop back zero vaddr = pure tt
  back_loop back (suc pages) vaddr = do
    paddr ← request alloc depth fuel
    res ← back vaddr paddr
    check (is_success res)
    back_loop back pages (u64 (vaddr + page_size))

  -- `rounds` bounds the search for space, and `vaddr_end` is the end of the kernel's image.
  unfoldable pub mm_map : (rounds vaddr_end : ℕ) → (hint size flags : ℕ) → Command Ptr
  mm_map rounds vaddr_end hint size flags =
      let pages = pages_of size in
      do
        (res, hint') ←
            vmk_map_pages alloc depth fuel rounds vaddr_end (reserve_paddr pages) pages hint flags
        if is_error res then pure null else (do back_loop vmk_set_backing pages hint'; pure hint')

  unfoldable pub mm_map_in_table : (rounds : ℕ) → TablePtr → (hint size flags : ℕ) → Command Ptr
  mm_map_in_table rounds table hint size flags =
      let pages = pages_of size in
      do
        (res, hint') ←
            vm_map_pages alloc depth fuel rounds table (reserve_paddr pages) pages hint flags
        if is_error res
            then pure null
            else (do back_loop (vm_set_backing table) pages hint'; pure hint')

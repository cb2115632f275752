-- ===== src/Vm/Lookup.antt =====
-- `recurse_find`, `recurse_set_backing` and their entry points (arch/x86_64/mm/vm.c).
use mimik.Base.{
  ℕ, zero, suc, ◌+◌, ◌*◌, ◌/◌, ◌%◌, ◌^◌, Bool, not, ◌||◌, List, [], ◌∷◌, ltb, leb, ◌==◌,
  if◌then◌else◌, fault, Status, code, error, enomap, success, bit_or,
}
use mimik.Page.{page_offset, is_page_aligned}
use mimik.Vm.State.{
  Pte, pte_paddr, flag_writable, indices_of, TablePtr, Command, ◌>>=◌, ◌>>◌, pure, check,
  read_entry, write_entry,
}
use mimik.Vm.Window.{map_page_tmp, unmap_page_tmp}

abbrev pub pt_num_levels : ℕ
pt_num_levels = 4

abbrev pub pt_last_level : ℕ
pt_last_level = 3

-- `index` points to the indices of this level and of those below it. `paddr` is what the out
-- parameter holds before the call; the result has what it holds afterwards.
unfoldable pub recurse_find : TablePtr → List ℕ → ℕ → ℕ → Command (Status × ℕ)
recurse_find pt [] level paddr = λ s. fault
recurse_find pt (i ∷ index) level paddr =
    let below = λ (p : TablePtr). recurse_find p index (level + 1) paddr in
    do
      check (ltb level pt_num_levels)
      pte ← read_entry pt i
      if not pte.present
          then pure (error enomap, paddr)
          else if level == pt_last_level
          then pure (success, pte_paddr pte)
          else (do
            p ← map_page_tmp (pte_paddr pte) flag_writable
            res ← below p
            unmap_page_tmp p
            pure res)

abbrev finish_find : ℕ → Status × ℕ → Status × ℕ
finish_find vaddr (code zero, paddr) = (code zero, bit_or paddr (page_offset vaddr))
finish_find vaddr (code (suc n), paddr) = (code (suc n), paddr)
finish_find vaddr (error e, paddr) = (error e, paddr)

-- The pointers `table` and `paddr` are not null.
unfoldable pub vm_vaddr_to_paddr : TablePtr → ℕ → ℕ → Command (Status × ℕ)
vm_vaddr_to_paddr table vaddr paddr = do
  res ← recurse_find table (indices_of vaddr) 0 paddr
  pure (finish_find vaddr res)

abbrev pub heap_start : ℕ
heap_start = 0xffff800000000000

-- The macro `ISKVADDR`.
abbrev pub is_kvaddr : ℕ → Bool
is_kvaddr a = leb heap_start a

unfoldable pub vmk_vaddr_to_paddr : ℕ → ℕ → Command (Status × ℕ)
vmk_vaddr_to_paddr vaddr paddr s =
    (do check (is_kvaddr vaddr); vm_vaddr_to_paddr s.kpml4 vaddr paddr) s

-- `bytes &= ~0x000ffffffffff000; bytes |= paddr` for a page-aligned `paddr`: bits 12 to 51 are
-- replaced, bits 52 to 63 are or-ed in.
unfoldable pub back_pte : Pte → ℕ → Pte
back_pte e paddr = record e {
  reserved =
      paddr / 2 ^ 12 % 2 ^ 40 + bit_or (e.reserved / 2 ^ 40) (paddr / 2 ^ 52 % 2 ^ 11) * 2 ^ 40;
  no_execute = e.no_execute || (paddr / 2 ^ 63 % 2 == 1);
}

unfoldable pub recurse_set_backing : TablePtr → List ℕ → ℕ → ℕ → Command Status
recurse_set_backing pt [] level paddr = λ s. fault
recurse_set_backing pt (i ∷ index) level paddr =
    let below = λ (p : TablePtr). recurse_set_backing p index (level + 1) paddr in
    do
      check (ltb level pt_num_levels)
      pte ← read_entry pt i
      if not pte.present
          then pure (error enomap)
          else if level == pt_last_level
          then (do write_entry pt i (back_pte pte paddr); pure success)
          else (do
            p ← map_page_tmp (pte_paddr pte) flag_writable
            res ← below p
            unmap_page_tmp p
            pure res)

unfoldable pub vm_set_backing : TablePtr → ℕ → ℕ → Command Status
vm_set_backing table vaddr paddr = do
  check (is_page_aligned vaddr)
  check (is_page_aligned paddr)
  recurse_set_backing table (indices_of vaddr) 0 paddr

unfoldable pub vmk_set_backing : ℕ → ℕ → Command Status
vmk_set_backing vaddr paddr s = vm_set_backing s.kpml4 vaddr paddr s

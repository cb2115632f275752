-- ===== src/Vm/Flag.antt =====
-- `recurse_flag`, `vm_flag_pages`, `vmk_flag_pages` and what they share with the mapping
-- (arch/x86_64/mm/vm.c).
use mimik.Base.{
  ℕ, zero, suc, ◌+◌, ◌-◌, false, not, List, [], ◌∷◌, ltb, ◌==◌, if◌then◌else◌, fault, Status, error,
  enomap, success, is_error,
}
use mimik.Page.{is_page_aligned}
use mimik.Vm.State.{
  pt_length, Pte, pte_paddr, is_flag_set, flag_writable, flag_user, set_pte, indices_of, TablePtr,
  Command, ◌>>=◌, ◌>>◌, pure, check, read_entry, write_entry,
}
use mimik.Vm.Window.{map_page_tmp, unmap_page_tmp}
use mimik.Vm.Lookup.{pt_num_levels, pt_last_level, is_kvaddr}

-- The entry that `update_pt_pte_flags` leaves.
unfoldable pub updated : Pte → ℕ → Pte
updated e flags = record e {
  writable = is_flag_set flags flag_writable;
  user_accessible = is_flag_set flags flag_user;
  no_execute = false;
}

unfoldable pub update_pt_pte_flags : TablePtr → ℕ → ℕ → Command (Unit {0})
update_pt_pte_flags pt index flags = do
  check (ltb index pt_length)
  e ← read_entry pt index
  write_entry pt index (updated e flags)

-- One call of `recurse_flag` at a level above the last, on the rounds left to the end of the table:
-- `below` is the recursive call. The result is the status and the pages that are left.
unfoldable pub flag_upper :
    (TablePtr → ℕ → Command (Status × ℕ)) → TablePtr → ℕ → ℕ → ℕ → ℕ → Command (Status × ℕ)
flag_upper below pt flags zero i pages = pure (success, pages)
flag_upper below pt flags (suc left) i pages =
    let again = λ (n : ℕ). flag_upper below pt flags left (i + 1) n in
    if pages == 0 then pure (success, pages) else do
      pte ← read_entry pt i
      if not pte.present then pure (error enomap, pages) else do
        p ← map_page_tmp (pte_paddr pte) flag_writable
        update_pt_pte_flags pt i flags
        (res, n) ← below p pages
        unmap_page_tmp p
        if is_error res then pure (res, n) else again n

-- The same at the last level.
unfoldable pub flag_last : TablePtr → ℕ → ℕ → ℕ → ℕ → Command (Status × ℕ)
flag_last pt flags zero i pages = pure (success, pages)
flag_last pt flags (suc left) i pages =
    let again = flag_last pt flags left (i + 1) (pages - 1) in
    if pages == 0 then pure (success, pages) else do
      pte ← read_entry pt i
      if not pte.present
          then pure (error enomap, pages)
          else (do write_entry pt i (set_pte (pte_paddr pte) flags); again)

-- `index` points to the indices of this level and of those below it.
unfoldable pub recurse_flag : TablePtr → List ℕ → ℕ → ℕ → ℕ → Command (Status × ℕ)
recurse_flag pt [] level pages flags = λ s. fault
recurse_flag pt (i ∷ index) level pages flags =
    let below = λ (p : TablePtr) (n : ℕ). recurse_flag p index (level + 1) n flags in
    do
      check (ltb level pt_num_levels)
      if level == pt_last_level
          then flag_last pt flags (pt_length - i) i pages
          else flag_upper below pt flags (pt_length - i) i pages

unfoldable pub vm_flag_pages : TablePtr → ℕ → ℕ → ℕ → Command Status
vm_flag_pages table vaddr_start pages flags = do
  check (is_page_aligned vaddr_start)
  check (ltb 0 pages)
  (res, n) ← recurse_flag table (indices_of vaddr_start) 0 pages flags
  pure res

unfoldable pub vmk_flag_pages : ℕ → ℕ → ℕ → Command Status
vmk_flag_pages vaddr_start pages flags s =
    (do
      check (not (is_flag_set flags flag_user))
      check (is_kvaddr vaddr_start)
      vm_flag_pages s.kpml4 vaddr_start pages flags)
      s

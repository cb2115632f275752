-- ===== src/Vm/Unmap.antt =====
-- `recurse_unmap` and its entry points (arch/x86_64/mm/vm.c).
use mimik.Base.{
  ℕ, zero, suc, ◌+◌, ◌*◌, ◌^◌, ◌-◌, not, List, [], ◌∷◌, ltb, leb, ◌==◌, if◌then◌else◌, u64, fault,
}
use mimik.Page.{page_size, is_page_aligned, pages_of, align_down}
use mimik.Vm.State.{
  pt_length, zero_pte, pte_paddr, flag_writable, indices_of, TablePtr, Command, ◌>>=◌, ◌>>◌, pure,
  check, read_entry, write_entry,
}
use mimik.Vm.Window.{map_page_tmp, unmap_page_tmp}
use mimik.Vm.Lookup.{pt_last_level, is_kvaddr}

-- `for (; level < PT_LAST_LEVEL; ++level) pages <<= 9`, on the levels left.
unfoldable pub shift_levels : ℕ → ℕ → ℕ
shift_levels zero pages = pages
shift_levels (suc left) pages = shift_levels left (u64 (pages * 2 ^ 9))

unfoldable pub get_pages_per_entry : ℕ → ℕ
get_pages_per_entry level = shift_levels (pt_last_level - level) 1

-- What a call writes through its pointers: `index[0]` and those below it, and `*vaddr`.
pub record Cursor : Type 0 where
  pub index : List ℕ
  pub vaddr : ℕ

-- The loop of `recurse_unmap`, on the rounds left to the end of the table. `below` is the recursive
-- call, which returns the pages that it has unmapped; `rest` are the indices of the lower levels.
unfoldable pub unmap_loop :
    (TablePtr → List ℕ → ℕ → Command (ℕ × Cursor))
    → TablePtr
    → ℕ
    → ℕ
    → ℕ
    → ℕ
    → List ℕ
    → ℕ
    → ℕ
    → Command (ℕ × Cursor)
unmap_loop below pt level pages zero i rest vaddr unmapped =
    pure (unmapped, record { index = i ∷ rest; vaddr = vaddr })
unmap_loop below pt level pages (suc left) i rest vaddr unmapped =
    let per_entry = get_pages_per_entry level in
    let stop = λ (c : Cursor) (n : ℕ). pure (n, record { index = i ∷ c.index; vaddr = c.vaddr }) in
    let again =
      λ (c : Cursor) (n : ℕ). unmap_loop below pt level pages left (i + 1) c.index c.vaddr n in
    let onward = λ (c : Cursor) (n : ℕ). (if leb pages n then stop c n else again c n) in
    if not (ltb unmapped pages)
    then pure (unmapped, record { index = i ∷ rest; vaddr = vaddr })
    else (do
      pte ← read_entry pt i
      if level == pt_last_level
          then (do
            write_entry pt i zero_pte
            onward (record { index = rest; vaddr = u64 (vaddr + page_size) }) (unmapped + 1))
          else if pte.present
          then (do
            p ← map_page_tmp (pte_paddr pte) flag_writable
            (n, c) ← below p rest vaddr
            unmap_page_tmp p
            onward c (unmapped + n))
          else onward (record { index = rest; vaddr = u64 (vaddr + per_entry * page_size) })
              (unmapped + per_entry))

unfoldable pub recurse_unmap : (depth : ℕ) → TablePtr → List ℕ → ℕ → ℕ → ℕ → Command (ℕ × Cursor)
recurse_unmap depth pt [] level vaddr pages = λ s. fault
recurse_unmap zero pt (i ∷ rest) level vaddr pages = λ s. fault
recurse_unmap (suc depth) pt (i ∷ rest) level vaddr pages =
    let below =
      λ (p : TablePtr) (index : List ℕ) (v : ℕ). recurse_unmap depth p index (level + 1) v pages in
    unmap_loop below pt level pages (pt_length - i) i rest vaddr 0

-- Four levels of tables.
unfoldable pub vm_unmap_pages : TablePtr → ℕ → ℕ → Command ℕ
vm_unmap_pages table vaddr_start pages = do
  check (is_page_aligned vaddr_start)
  check (ltb 0 pages)
  (n, c) ← recurse_unmap 4 table (indices_of vaddr_start) 0 vaddr_start pages
  pure n

unfoldable pub vm_unmap_bytes : TablePtr → ℕ → ℕ → Command ℕ
vm_unmap_bytes table vaddr_start bytes =
    let aligned_vaddr = align_down vaddr_start page_size in
    vm_unmap_pages table aligned_vaddr
      (pages_of (u64 (vaddr_start + bytes + 2 ^ 64 - aligned_vaddr)))

unfoldable pub vmk_unmap_pages : ℕ → ℕ → Command ℕ
vmk_unmap_pages vaddr_start pages s =
    (do check (is_kvaddr vaddr_start); vm_unmap_pages s.kpml4 vaddr_start pages) s

unfoldable pub vmk_unmap_bytes : ℕ → ℕ → Command ℕ
vmk_unmap_bytes vaddr_start bytes s =
    (do check (is_kvaddr vaddr_start); vm_unmap_bytes s.kpml4 vaddr_start bytes) s

-- ===== src/Vm/RunExamples.antt =====
-- The theorems on mapping, unmapping and rights (arch/x86_64/mm/vm.c), at the page tables of
-- `Examples`.
use mimik.Base.{
  ◌*◌, ℕ, ◌+◌, ◌%◌, ◌^◌, ◌<◌, ◌≡◌, refl, inl, true, false, arith, if◌then◌else◌, none, some, done,
  success, halted, Outcome,
}
use mimik.Memory.{Ptr}
use mimik.Pm.State.{Pm}
use mimik.Vm.State.{indices_of, direct, Table, Vm, and_then, flag_writable}
use mimik.Vm.Flag.{vm_flag_pages}
use mimik.Vm.Unmap.{vm_unmap_pages}
use mimik.Vm.Map.{vm_map_pages}
use mimik.Vm.Init.{vm_init}
use mimik.Vm.Bracket.{IsWindow, with_tables}
use mimik.Vm.Walk.{translate}
use mimik.Vm.Backing.{IsLevelled}
use mimik.Vm.Runs.{last_table}
use mimik.Vm.Effect.{hits}
use mimik.Vm.Access.{access, granted}
use mimik.Vm.Rights.{vm_flag_pages-access}
use mimik.Vm.Unmapping.{vm_unmap_pages-translate}
use mimik.Vm.Mapped.{page_for, vm_map_pages-translate, vm_unmap_pages-map_pages}
use mimik.Vm.Setup.{with_static, window_indices, IsApart, vm_init-IsWindow}
use mimik.Vm.Examples.{tables, state, state-IsWindow, mapped_address, tables-IsLevelled}

-- The page behind the mapped one.
abbrev free_address : ℕ
free_address = 549755813888 + 1073741824 + 2097152 + 8192

mapped_table : last_table tables 0x1000 (indices_of mapped_address) ≡ some 0x4000
unfolding last_table indices_of
mapped_table = refl

free_table : last_table tables 0x1000 (indices_of free_address) ≡ some 0x4000
unfolding last_table indices_of
free_table = refl

mapped_entry : (k : ℕ) → k < 1 → (tables 0x4000 (1 + k)).present ≡ true
mapped_entry k lt = ground arith

free_entries : (k : ℕ) → k < 2 → (tables 0x4000 (2 + k)).present ≡ false
free_entries k lt = ground arith

-- The allocator of bitmap nodes is not asked.
abbrev no_alloc : Pm → Outcome (Ptr × Pm)
no_alloc pm = halted

vm_flag_pages-access_example :
    (tables' : ℕ → Table) × (vm_flag_pages (direct 0x1000) mapped_address 1 flag_writable state
      ≡ done (success, with_tables state tables'))
    × (access tables' 0x1000 (indices_of (mapped_address + 0 * 4096)) ≡ granted flag_writable)
    × ((v : ℕ) → translate tables' 0x1000 v ≡ translate tables 0x1000 v)
vm_flag_pages-access_example =
    vm_flag_pages-access 0x1000 mapped_address 1 flag_writable 0x4000 0 state state-IsWindow
      tables-IsLevelled (omega arith) (omega arith) (omega arith) mapped_table mapped_entry

vm_unmap_pages-translate_example :
    (tables' : ℕ → Table) × (vm_unmap_pages (direct 0x1000) mapped_address 2 state
      ≡ done (2, with_tables state tables'))
    × ((v : ℕ)
        → translate tables' 0x1000 v
          ≡ (if hits tables 0x1000 0x4000 1 2 v then none else translate tables 0x1000 v))
    × IsLevelled tables' 0x1000
vm_unmap_pages-translate_example =
    vm_unmap_pages-translate 0x1000 mapped_address 2 0x4000 state state-IsWindow tables-IsLevelled
      (omega arith) (omega arith) (omega arith) mapped_table

vm_map_pages-translate_example :
    (tables' : ℕ → Table) × (vm_map_pages no_alloc 0 0 4
        (direct 0x1000)
        0x7000
        2
        free_address
        flag_writable
        state
      ≡ done ((success, free_address), with_tables state tables'))
    × ((v : ℕ)
        → translate tables' 0x1000 v ≡ (
            if hits tables 0x1000 0x4000 2 2 v
            then some (page_for 0x7000 free_address v % 2 ^ 52 + v % 4096)
            else translate tables 0x1000 v))
    × IsLevelled tables' 0x1000
vm_map_pages-translate_example =
    vm_map_pages-translate no_alloc 0 0 4 0x1000 0x7000 2 free_address flag_writable 0x4000
      state-IsWindow tables-IsLevelled (omega arith) (omega arith) (omega arith) (inl (omega arith))
      (omega arith) (omega arith) (omega arith) free_table free_entries

vm_unmap_pages-map_pages_example :
    (tables' : ℕ → Table) × (and_then
        (vm_map_pages no_alloc 0 0 4 (direct 0x1000) 0x7000 2 free_address flag_writable state)
        (λ r. vm_unmap_pages (direct 0x1000) free_address 2)
      ≡ done (2, with_tables state tables'))
    × ((v : ℕ) → translate tables' 0x1000 v ≡ translate tables 0x1000 v)
    × IsLevelled tables' 0x1000
vm_unmap_pages-map_pages_example =
    vm_unmap_pages-map_pages no_alloc 0 0 4 0x1000 0x7000 2 free_address flag_writable 0x4000
      state-IsWindow tables-IsLevelled (omega arith) (omega arith) (omega arith) (inl (omega arith))
      (omega arith) (omega arith) (omega arith) free_table free_entries

-- The static table at 0x8000.
apart : IsApart 0x8000 0x1000 tables
apart = record {
  aligned = omega arith;
  small = omega arith;
  other_root = λ e. absurd (omega arith);
  other_page = λ f i there. ground arith;
}

no_window : last_table tables 0x1000 window_indices ≡ none
unfolding last_table
no_window = refl

vm_init-IsWindow_example :
    (s' : Vm) × (vm_init 0x1000 0x8000 state ≡ done (tt, s'))
    × IsWindow 510 s'
    × (last_table (with_static 0x8000 s') 0x1000 window_indices ≡ some 0x8000)
vm_init-IsWindow_example = vm_init-IsWindow 0x1000 0x8000 state apart no_window

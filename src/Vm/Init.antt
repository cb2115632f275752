-- ===== src/Vm/Init.antt =====
-- `vm_init` (arch/x86_64/mm/vm.c): the static table of the window is hung into the page tables. The
-- register that holds the first table and the physical address of the static table are arguments.
use mimik.Base.{ℕ, zero, suc, ◌+◌, ltb, if◌then◌else◌, update, List, [], ◌∷◌, out_of_fuel}
use mimik.Vm.State.{
  pt_length, zero_pte, pte_paddr, set_pte, flag_writable, direct, Command, ◌>>=◌, ◌>>◌, pure,
  put_entry,
}
use mimik.Vm.Map.{overrun_entries}

-- What the variable `pt` points to: a page table, or the static one.
pub data Spot : Type 0 where
  page : ℕ → Spot
  static : Spot

-- `mem_set(&tmp_pt, 0, sizeof(struct pt))`; entries from 512 on are the words behind the table, of
-- which mem/mem.c clears 448 as well.
unfoldable pub clear_static : Command (Unit {0})
clear_static s = pure tt (record s {
  tmp_pt = λ i. if ltb i (pt_length + overrun_entries) then zero_pte else s.tmp_pt i;
})

-- One round of the loop over the levels, at entry `i`.
unfoldable pub hang_step : (tmp_paddr i : ℕ) → Spot → Command Spot
hang_step tmp_paddr i (page f) s =
    let e = s.tables f i in
    if e.present
    then pure (page (pte_paddr e)) s
    else pure static
        (record s { tables = put_entry s.tables f i (set_pte tmp_paddr flag_writable) })
hang_step tmp_paddr i static s =
    pure static (record s { tmp_pt = update s.tmp_pt i (set_pte tmp_paddr flag_writable) })

unfoldable pub hang_loop : ℕ → List ℕ → Spot → Command Spot
hang_loop tmp_paddr [] pt = pure pt
hang_loop tmp_paddr (i ∷ indices) pt = do
  pt' ← hang_step tmp_paddr i pt
  hang_loop tmp_paddr indices pt'

-- The loop for the first free index has no bound of its own; `fuel` bounds its rounds.
unfoldable pub free_loop : ℕ → ℕ → Command (Unit {0})
free_loop zero k s = out_of_fuel
free_loop (suc fuel) k s =
    let again = free_loop fuel (k + 1) s in
    if (s.tmp_pt k).present then again else pure tt (record s { first_free_tmp_index = k })

-- `pml4_index`, `pdp_index` and `pd_index` of `PT_TMP_START_VADDR`.
abbrev pub tmp_indices : List ℕ
tmp_indices = 511 ∷ 511 ∷ 511 ∷ []

unfoldable pub vm_init : (cr3 tmp_paddr : ℕ) → Command (Unit {0})
vm_init cr3 tmp_paddr = do
  (λ s. pure tt (record s { kpml4 = direct cr3 }))
  clear_static
  pt ← hang_loop tmp_paddr tmp_indices (page cr3)
  free_loop pt_length 0

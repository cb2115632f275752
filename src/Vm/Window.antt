-- ===== src/Vm/Window.antt =====
-- `map_page_tmp` and `unmap_page_tmp` (arch/x86_64/mm/vm.c): the window of temporary mappings.
use mimik.Base.{
  ℕ, zero, suc, ◌+◌, ◌%◌, not, ◌&&◌, ltb, ◌==◌, if◌then◌else◌, update, Outcome, done, fault, halted,
  out_of_fuel,
}
use mimik.Vm.State.{
  pt_length, Pte, zero_pte, set_pte, TablePtr, direct, window, Vm, Command, ◌>>◌, pure, check,
}

-- `pdp_index` and `pd_index` of `PT_TMP_START_VADDR`: the slot that maps `tmp_pt` itself.
abbrev pub self_slot : ℕ
self_slot = 511

-- The `do … while` that moves `first_free_tmp_index` on.
unfoldable pub next_slot : ℕ → ℕ → (ℕ → Pte) → Outcome ℕ
next_slot zero k tmp = out_of_fuel
next_slot (suc fuel) k tmp =
    let k' = if k + 1 == self_slot then k + 1 + 1 else k + 1 in
    let again = next_slot fuel k' tmp in
    if ltb k' pt_length && (tmp k').present then again else done k'

abbrev lift_slot : Vm → Outcome ℕ → Outcome (Unit {0} × Vm)
lift_slot s (done k) = done (tt, record s { first_free_tmp_index = k })
lift_slot s halted = halted
lift_slot s fault = fault
lift_slot s out_of_fuel = out_of_fuel

-- The loop runs at most over the slots of the table.
abbrev advance_slot : Command (Unit {0})
advance_slot s = lift_slot s (next_slot pt_length s.first_free_tmp_index s.tmp_pt)

unfoldable pub map_page_tmp : ℕ → ℕ → Command TablePtr
map_page_tmp paddr flags s =
    (do
      check (ltb s.first_free_tmp_index pt_length)
      let k = s.first_free_tmp_index % 512
      (λ s'. done (tt, record s' { tmp_pt = update s'.tmp_pt k (set_pte paddr flags) }))
      advance_slot
      pure (window k))
      s

-- An address below the window fails the first assertion.
unfoldable pub unmap_page_tmp : TablePtr → Command (Unit {0})
unmap_page_tmp (direct f) s = halted
unmap_page_tmp (window k) s =
    (do
      check (not (k == self_slot))
      (λ s'. done (
        tt,
        record s' {
          tmp_pt = update s'.tmp_pt k zero_pte;
          first_free_tmp_index =
              if ltb k s'.first_free_tmp_index then k else s'.first_free_tmp_index;
        },
      )))
      s

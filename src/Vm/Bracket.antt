-- ===== src/Vm/Bracket.antt =====
-- Mapping a table into the window and unmapping it again restores the window
-- (`map_page_tmp` and `unmap_page_tmp` of arch/x86_64/mm/vm.c).
use mimik.Base.{ℕ, suc, ◌+◌, ◌*◌, ◌/◌, ◌%◌, ◌^◌, ◌<◌, ◌≤◌, ◌≡◌, false, update, arith, done}
use mathlib.Core.Path.{fun_ext}
use mimik.Vm.State.{Pte, zero_pte, set_pte, window, Vm, Table, frame_of}
use mimik.Vm.Window.{self_slot, next_slot, map_page_tmp, unmap_page_tmp}

-- From `first_free_tmp_index` on the window is empty, and has room for `depth` more tables.
pub record IsWindow (depth : ℕ) (s : Vm) : Type 0 where
  pub room : s.first_free_tmp_index + depth < self_slot
  pub empty : (k : ℕ) → s.first_free_tmp_index ≤ k → k < self_slot → s.tmp_pt k ≡ zero_pte

abbrev pub with_tables : Vm → (ℕ → Table) → Vm
with_tables s tables = record s { tables = tables }

-- The state while one more table is mapped.
abbrev pub mapped : Vm → ℕ → ℕ → Vm
mapped s paddr flags = record s {
  tmp_pt = update s.tmp_pt s.first_free_tmp_index (set_pte paddr flags);
  first_free_tmp_index = s.first_free_tmp_index + 1;
}

next_slot-next :
    (n k : ℕ) (tmp : ℕ → Pte)
    → k + 1 < self_slot
    → (tmp (k + 1)).present ≡ false
    → next_slot (suc n) k tmp ≡ done (k + 1)
unfolding next_slot
next_slot-next n k tmp lt free = ground arith

module _ {d : ℕ} {s : Vm} (w : IsWindow (suc d) s) (paddr flags : ℕ) where
  pub map_page_tmp-mapped :
      map_page_tmp paddr flags s ≡ done (window s.first_free_tmp_index, mapped s paddr flags)
  unfolding map_page_tmp
  map_page_tmp-mapped =
      let k = s.first_free_tmp_index in
      let small : k % 512 ≡ k = omega (arith, w.room) in
      rw small (
        ground (
          arith,
          w.room,
          w.empty (k + 1),
          next_slot-next 511 k (update s.tmp_pt k (set_pte paddr flags)),
        ))

  pub mapped-IsWindow : IsWindow d (mapped s paddr flags)
  mapped-IsWindow = record {
    room = omega (arith, w.room);
    empty = λ k a b. ground (arith, w.empty k);
  }

  pub mapped-frame :
      (tables : ℕ → Table)
      → frame_of (window s.first_free_tmp_index) (with_tables (mapped s paddr flags) tables)
        ≡ done (paddr / 4096 % 2 ^ 40 * 4096, with_tables (mapped s paddr flags) tables)
  unfolding frame_of set_pte
  mapped-frame tables = ground arith

  restored_slot : update (mapped s paddr flags).tmp_pt s.first_free_tmp_index zero_pte ≡ s.tmp_pt
  restored_slot = fun_ext λ k. point k
    where
      point :
          (k : ℕ)
          → update (mapped s paddr flags).tmp_pt s.first_free_tmp_index zero_pte k ≡ s.tmp_pt k
      point k = ground (arith, w.empty k, w.room)

  -- Whatever has been done to the tables meanwhile, unmapping gives the window back as it was.
  pub unmap_page_tmp-mapped :
      (tables : ℕ → Table)
      → unmap_page_tmp (window s.first_free_tmp_index) (with_tables (mapped s paddr flags) tables)
        ≡ done (tt, with_tables s tables)
  unfolding unmap_page_tmp
  unmap_page_tmp-mapped tables = ground (arith, restored_slot, w.room)

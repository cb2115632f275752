-- ===== src/Vm/Mapping.antt =====
-- `recurse_map` and `vm_map_pages` (arch/x86_64/mm/vm.c) on free pages of one last-level table, and
-- what `vm_unmap_pages` makes of them again.
use mimik.Base.{
  ℕ, zero, suc, ◌+◌, ◌-◌, ◌/◌, ◌%◌, ◌^◌, ◌<◌, ◌≤◌, ◌≡◌, ◌⊎◌, inl, inr, refl, true, false, ◌==◌, ltb,
  u64, arith, ◌∙◌, subst, List, [], ◌∷◌, length, some, done, Status, success, Outcome, bit_and,
  bit_and-field,
}
use mimik.Memory.{Ptr}
use mimik.Page.{page_size}
use mimik.Page.Align.{page_offset-mod}
use mimik.Pm.State.{Pm}
use mimik.Vm.State.{
  pt_length, Pte, pte_paddr, flag_writable, set_pte, indices_of, TablePtr, direct, window, Vm,
  Table, Command, put_entry,
}
use mimik.Vm.Lookup.{pt_last_level, pt_num_levels}
use mimik.Vm.Flag.{updated}
use mimik.Vm.Map.{Progress, map_last, map_upper, recurse_map, address_of, vm_map_pages}
use mimik.Vm.Bracket.{
  IsWindow, with_tables, mapped, map_page_tmp-mapped, mapped-IsWindow, unmap_page_tmp-mapped,
}
use mimik.Vm.Walk.{InTable, read_entry-frame}
use mimik.Vm.Backing.{write_entry-frame}
use mimik.Vm.Runs.{
  last_table, last_table-SameShape, last_index, path_updated, path_updated-SameShape, put_run,
}
use mimik.Vm.Standing.{
  Points, Standing, mapped-Standing, direct-Standing, with_tables-IsWindow, last_table-step,
}
use mimik.Vm.Flagging.{update_pt_pte_flags-updated}
use mimik.Vm.Room.{find_space-run}

abbrev pub fresh_entry : ℕ → ℕ → Pte → Pte
fresh_entry flags a e = set_pte a flags

-- What is left to do behind `n` pages.
abbrev progress_after : ℕ → ℕ → ℕ → Progress
progress_after a zero m = record { paddr = a; pages = m }
progress_after a (suc n) m = progress_after (u64 (a + page_size)) n m

map_last-run :
    (n left a i flags g : ℕ) (pt : TablePtr) (s : Vm) (tables : ℕ → Table)
    → n ≤ left
    → i + left ≡ pt_length
    → Points pt g s
    → ((k : ℕ) → k < n → (tables g (i + k)).present ≡ false)
    → map_last pt flags left i (record { paddr = a; pages = n }) (with_tables s tables)
      ≡ done (
        (success, progress_after a n 0),
        with_tables s (put_run (fresh_entry flags) a tables g i n),
      )
unfolding map_last
map_last-run zero zero a i flags g pt s tables le end at free = refl
map_last-run zero (suc left) a i flags g pt s tables le end at free = refl
map_last-run (suc n) zero a i flags g pt s tables le end at free = absurd (omega arith)
map_last-run (suc n) (suc left) a i flags g pt s tables le end at free =
    let rest =
      map_last-run n left (u64 (a + 4096)) (i + 1) flags g pt s
        (put_entry tables g i (set_pte a flags)) (omega arith) (omega arith) at
        (λ k lt. ground (arith, free (suc k))) in
    ground (
      arith,
      free 0,
      read_entry-frame pt i g (with_tables s tables) (omega arith) (at tables),
      write_entry-frame pt i g (set_pte a flags) (with_tables s tables) (omega arith) (at tables),
      rest,
    )

progress_after-pages : (a n : ℕ) → (progress_after a n 0).pages ≡ 0
progress_after-pages a zero = refl
progress_after-pages a (suc n) = progress_after-pages (u64 (a + page_size)) n

module _ (alloc : Pm → Outcome (Ptr × Pm)) (depth fuel : ℕ) where
  map_upper-none :
      (below : TablePtr → Progress → Command (Status × Progress)) (pt : TablePtr) (flags left i : ℕ)
      (q : Progress) (s : Vm)
      → q.pages ≡ 0
      → map_upper alloc depth fuel below pt flags left i q s ≡ done ((success, q), s)
  unfolding map_upper
  map_upper-none below pt flags zero i q s none_left = refl
  map_upper-none below pt flags (suc left) i q s none_left = ground arith

  -- One round at a level above the last, where the call below maps all pages.
  map_upper-round :
      {d : ℕ} {s : Vm} (w : IsWindow (suc d) s)
      (below : TablePtr → Progress → Command (Status × Progress)) (pt : TablePtr)
      (flags left i f : ℕ) (q q' : Progress) (tables tables' : ℕ → Table)
      → Standing pt f s
      → i < pt_length
      → (tables f i).present ≡ true
      → 0 < q.pages
      → q'.pages ≡ 0
      → let a = pte_paddr (tables f i) in
        below (window s.first_free_tmp_index) q (
            with_tables
              (mapped s a flag_writable)
              (put_entry tables f i (updated (tables f i) flags)))
          ≡ done ((success, q'), with_tables (mapped s a flag_writable) tables')
        → map_upper alloc depth fuel below pt flags (suc left) i q (with_tables s tables)
          ≡ done ((success, q'), with_tables s tables')
  unfolding map_upper
  map_upper-round {d} {s} w below pt flags left i f q q' tables tables' at lt there pos all run =
      let a = pte_paddr (tables f i) in
      ground (
        arith,
        read_entry-frame pt i f (with_tables s tables) lt (at.points tables),
        map_page_tmp-mapped (with_tables-IsWindow w tables) a flag_writable,
        update_pt_pte_flags-updated pt i flags f (mapped s a flag_writable) tables lt (at.stays a),
        run,
        unmap_page_tmp-mapped w a flag_writable tables',
        map_upper-none below pt flags left (i + 1) q' (with_tables s tables') all,
      )

  recurse_map-run :
      (index : List ℕ) (i level n a flags f g : ℕ) (pt : TablePtr) (s : Vm) (tables : ℕ → Table)
      → level + length index ≡ pt_last_level
      → InTable (i ∷ index)
      → IsWindow (length index) s
      → Standing pt f s
      → last_table tables f (i ∷ index) ≡ some g
      → 0 < n
      → last_index i index + n ≤ pt_length
      → ((k : ℕ) → k < n → (tables g (last_index i index + k)).present ≡ false)
      → recurse_map alloc depth fuel pt
          (i ∷ index)
          level
          (record { paddr = a; pages = n })
          flags
          (with_tables s tables)
        ≡ done (
          (success, progress_after a n 0),
          with_tables s (
              put_run
                (fresh_entry flags)
                a
                (path_updated flags tables f (i ∷ index))
                g
                (last_index i index)
                n),
        )
  unfolding recurse_map last_table
  recurse_map-run [] i level n a flags f g pt s tables bottom ins w at here pos fits free =
      let same : f ≡ g = ground arith in
      ground (
        arith,
        map_last-run n (pt_length - i) a i flags g pt s tables (omega arith) (omega arith)
            (subst (λ x. Points pt x s) same at.points) free,
      )
  recurse_map-run (j ∷ index) i level n a flags f g pt s tables bottom ins w at here pos fits free =
      let step = last_table-step tables f i j g index here in
      let b = pte_paddr (tables f i) in
      let q : Progress = record { paddr = a; pages = n } in
      let changed = put_entry tables f i (updated (tables f i) flags) in
      let same = path_updated-SameShape flags tables f (i ∷ j ∷ []) in
      let below =
        recurse_map-run index j (level + 1) n a flags b g (window s.first_free_tmp_index)
          (mapped s b flag_writable) changed (omega arith) ins.1 (mapped-IsWindow w b flag_writable)
          (mapped-Standing w (tables f i)) (last_table-SameShape same (j ∷ index) b ∙ step.1) pos
          fits (λ k lt. same.present g (last_index j index + k) ∙ free k lt) in
      let round =
        map_upper-round w (λ p q'. recurse_map alloc depth fuel p (j ∷ index) (level + 1) q' flags)
          pt flags (511 - i) i f q (progress_after a n 0) tables _ at ins.0 step.0 pos
          (progress_after-pages a n) below in
      let count : pt_length - i ≡ suc (511 - i) = omega (arith, ins.0) in
      let upper : (level == pt_last_level) ≡ false = ground arith in
      let legal : ltb level pt_num_levels ≡ true = ground arith in rw (legal, upper, count) round

  address_of-indices :
      (hint : ℕ)
      → hint % 4096 ≡ 0
      → (hint / 2 ^ 47 % 2 ≡ 0) ⊎ (hint / 2 ^ 48 ≡ 65535)
      → address_of alloc depth fuel hint (indices_of hint) ≡ hint
  unfolding address_of indices_of
  address_of-indices hint aligned canonical = elim canonical [
    | inl low ↦
        let clear : bit_and (hint / 2 ^ 39 % 512) 256 ≡ 0 =
          omega (arith, bit_and-field 8 1 (hint / 2 ^ 39 % 512)) in
        rw clear (omega arith)
    | inr high ↦ ground arith
  ]

  -- The tables behind `vm_map_pages`.
  abbrev pub mapped_tables : (ℕ → Table) → (root paddr n hint flags g : ℕ) → (ℕ → Table)
  mapped_tables tables root paddr n hint flags g =
      put_run (fresh_entry flags) paddr (path_updated flags tables root (indices_of hint)) g
        (hint / 2 ^ 12 % 512) n

  pub vm_map_pages-tables :
      (rounds root paddr n hint flags g : ℕ) (s : Vm)
      → IsWindow 3 s
      → paddr % 4096 ≡ 0
      → hint % 4096 ≡ 0
      → (hint / 2 ^ 47 % 2 ≡ 0) ⊎ (hint / 2 ^ 48 ≡ 65535)
      → n + 1 < rounds
      → 0 < n
      → hint / 2 ^ 12 % 512 + n ≤ pt_length
      → last_table s.tables root (indices_of hint) ≡ some g
      → ((k : ℕ) → k < n → (s.tables g (hint / 2 ^ 12 % 512 + k)).present ≡ false)
      → vm_map_pages alloc depth fuel rounds (direct root) paddr n hint flags s
        ≡ done ((success, hint), with_tables s (mapped_tables s.tables root paddr n hint flags g))
  unfolding vm_map_pages indices_of
  vm_map_pages-tables rounds root paddr n hint flags g s w pa ha canonical enough pos fits here
        free =
      let i = hint / 2 ^ 12 % 512 in
      let index = hint / 2 ^ 30 % 512 ∷ hint / 2 ^ 21 % 512 ∷ i ∷ [] in
      let top = hint / 2 ^ 39 % 512 in
      let at = direct-Standing root s in
      let space =
        find_space-run index 3 rounds top 0 paddr n flags root g (direct root) s s.tables refl
          (omega arith) (omega arith) w at here (omega arith) pos fits free in
      let run =
        recurse_map-run index top 0 n paddr flags root g (direct root) s s.tables (omega arith)
          (omega arith) w at here pos fits free in
      let back = address_of-indices hint ha canonical in
      ground (arith, page_offset-mod paddr, page_offset-mod hint, space, run, back)

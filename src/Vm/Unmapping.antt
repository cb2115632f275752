-- ===== src/Vm/Unmapping.antt =====
-- `recurse_unmap` and `vm_unmap_pages` (arch/x86_64/mm/vm.c) on pages of one last-level table.
use mimik.Base.{
  ℕ, zero, suc, ◌+◌, ◌-◌, ◌/◌, ◌%◌, ◌^◌, ◌<◌, ◌≤◌, ◌≡◌, refl, true, if◌then◌else◌, u64, arith,
  subst, List, [], ◌∷◌, length, none, some, done,
}
use mimik.Page.{page_size}
use mimik.Page.Align.{page_offset-mod}
use mimik.Vm.State.{
  pt_length, Pte, zero_pte, pte_paddr, flag_writable, indices_of, TablePtr, direct, window, Vm,
  Table, Command, put_entry,
}
use mimik.Vm.Lookup.{pt_last_level}
use mimik.Vm.Unmap.{Cursor, unmap_loop, recurse_unmap, vm_unmap_pages}
use mimik.Vm.Bracket.{
  IsWindow, with_tables, mapped, map_page_tmp-mapped, mapped-IsWindow, unmap_page_tmp-mapped,
}
use mimik.Vm.Walk.{InTable, translate, read_entry-frame}
use mimik.Vm.Backing.{IsLevelled, write_entry-frame}
use mimik.Vm.Runs.{last_table, last_index, put_run}
use mimik.Vm.Effect.{hits, last_table-level, put_run-translate, put_run-IsLevelled}
use mimik.Vm.Standing.{
  Points, Standing, mapped-Standing, direct-Standing, with_tables-IsWindow, last_table-step,
}

abbrev cleared : ℕ → Pte → Pte
cleared a e = zero_pte

-- What the loop leaves in `index` and `vaddr`: it stops at the last page that it unmaps.
abbrev cursor_after : ℕ → ℕ → List ℕ → ℕ → Cursor
cursor_after zero i rest vaddr = record { index = i ∷ rest; vaddr = vaddr }
cursor_after (suc zero) i rest vaddr = record { index = i ∷ rest; vaddr = u64 (vaddr + page_size) }
cursor_after (suc (suc n)) i rest vaddr =
    cursor_after (suc n) (i + 1) rest (u64 (vaddr + page_size))

unmap_last-run :
    (below : TablePtr → List ℕ → ℕ → Command (ℕ × Cursor))
    (n left a i level pages vaddr unmapped g : ℕ) (rest : List ℕ) (pt : TablePtr) (s : Vm)
    (tables : ℕ → Table)
    → level ≡ pt_last_level
    → pages ≡ unmapped + n
    → n ≤ left
    → i + left ≡ pt_length
    → Points pt g s
    → unmap_loop below pt level pages left i rest vaddr unmapped (with_tables s tables)
      ≡ done ((pages, cursor_after n i rest vaddr), with_tables s (put_run cleared a tables g i n))
unfolding unmap_loop
unmap_last-run below zero zero a i level pages vaddr unmapped g rest pt s tables last count le end
      at =
    ground arith
unmap_last-run below zero (suc left) a i level pages vaddr unmapped g rest pt s tables last count le
      end at =
    ground arith
unmap_last-run below (suc n) zero a i level pages vaddr unmapped g rest pt s tables last count le
      end at =
    absurd (omega arith)
unmap_last-run below (suc zero) (suc left) a i level pages vaddr unmapped g rest pt s tables last
      count le end at =
    ground (
      arith,
      read_entry-frame pt i g (with_tables s tables) (omega arith) (at tables),
      write_entry-frame pt i g zero_pte (with_tables s tables) (omega arith) (at tables),
    )
unmap_last-run below (suc (suc n)) (suc left) a i level pages vaddr unmapped g rest pt s tables last
      count le end at =
    ground (
      arith,
      read_entry-frame pt i g (with_tables s tables) (omega arith) (at tables),
      write_entry-frame pt i g zero_pte (with_tables s tables) (omega arith) (at tables),
      unmap_last-run below (suc n) left (u64 (a + 4096)) (i + 1) level pages
          (u64 (vaddr + page_size)) (unmapped + 1) g rest pt s (put_entry tables g i zero_pte) last
          (omega arith) (omega arith) (omega arith) at,
    )

-- One round at a level above the last, where the call below unmaps all pages.
unmap_upper-round :
    {d : ℕ} {s : Vm} (w : IsWindow (suc d) s) (below : TablePtr → List ℕ → ℕ → Command (ℕ × Cursor))
    (pt : TablePtr) (level pages left i vaddr f : ℕ) (rest : List ℕ) (tables tables' : ℕ → Table)
    (c : Cursor)
    → Standing pt f s
    → i < pt_length
    → level < pt_last_level
    → (tables f i).present ≡ true
    → 0 < pages
    → let a = pte_paddr (tables f i) in
      below
          (window s.first_free_tmp_index)
          rest
          vaddr
          (with_tables (mapped s a flag_writable) tables)
        ≡ done ((pages, c), with_tables (mapped s a flag_writable) tables')
      → unmap_loop below pt level pages (suc left) i rest vaddr 0 (with_tables s tables)
        ≡ done ((pages, record { index = i ∷ c.index; vaddr = c.vaddr }), with_tables s tables')
unfolding unmap_loop
unmap_upper-round {d} {s} w below pt level pages left i vaddr f rest tables tables' c at lt upper
      there pos run =
    let a = pte_paddr (tables f i) in
    ground (
      arith,
      read_entry-frame pt i f (with_tables s tables) lt (at.points tables),
      map_page_tmp-mapped (with_tables-IsWindow w tables) a flag_writable,
      run,
      unmap_page_tmp-mapped w a flag_writable tables',
    )

abbrev path_cursor : ℕ → List ℕ → ℕ → ℕ → Cursor
path_cursor n [] i vaddr = cursor_after n i [] vaddr
path_cursor n (j ∷ index) i vaddr = record {
  index = i ∷ (path_cursor n index j vaddr).index;
  vaddr = (path_cursor n index j vaddr).vaddr;
}

recurse_unmap-run :
    (index : List ℕ) (depth i level n vaddr f g : ℕ) (pt : TablePtr) (s : Vm) (tables : ℕ → Table)
    → depth ≡ length index
    → level + length index ≡ pt_last_level
    → InTable (i ∷ index)
    → IsWindow (length index) s
    → Standing pt f s
    → last_table tables f (i ∷ index) ≡ some g
    → 0 < n
    → last_index i index + n ≤ pt_length
    → recurse_unmap (suc depth) pt (i ∷ index) level vaddr n (with_tables s tables)
      ≡ done (
        (n, path_cursor n index i vaddr),
        with_tables s (put_run cleared 0 tables g (last_index i index) n),
      )
unfolding recurse_unmap last_table
recurse_unmap-run [] depth i level n vaddr f g pt s tables deep bottom ins w at here pos fits =
    let same : f ≡ g = ground arith in
    unmap_last-run (λ p index v. recurse_unmap depth p index (level + 1) v n) n (pt_length - i) 0 i
      level n vaddr 0 g [] pt s tables (omega arith) (omega arith) (omega arith) (omega arith)
      (subst (λ x. Points pt x s) same at.points)
recurse_unmap-run (j ∷ index) zero i level n vaddr f g pt s tables deep bottom ins w at here pos
      fits =
    absurd (omega arith)
recurse_unmap-run (j ∷ index) (suc depth) i level n vaddr f g pt s tables deep bottom ins w at here
      pos fits =
    let step = last_table-step tables f i j g index here in
    let a = pte_paddr (tables f i) in
    let below =
      recurse_unmap-run index depth j (level + 1) n vaddr a g (window s.first_free_tmp_index)
        (mapped s a flag_writable) tables (omega arith) (omega arith) ins.1
        (mapped-IsWindow w a flag_writable) (mapped-Standing w (tables f i)) step.1 pos fits in
    let round =
      unmap_upper-round w (λ p index v. recurse_unmap (suc depth) p index (level + 1) v n) pt level
        n (511 - i) i vaddr f (j ∷ index) tables _ _ at ins.0 (omega arith) step.0 pos below in
    let count : pt_length - i ≡ suc (511 - i) = omega (arith, ins.0) in rw count round

-- `vm_unmap_pages` of `n` pages that one last-level table is responsible for returns `n`; afterwards
-- those addresses are not mapped, every other address translates as before, and the tables keep
-- their levels. The window has room for three tables and the address is page aligned.
pub vm_unmap_pages-translate :
    (root vaddr n g : ℕ) (s : Vm)
    → IsWindow 3 s
    → IsLevelled s.tables root
    → vaddr % 4096 ≡ 0
    → 0 < n
    → vaddr / 2 ^ 12 % 512 + n ≤ pt_length
    → last_table s.tables root (indices_of vaddr) ≡ some g
    → (tables' : ℕ → Table) × (vm_unmap_pages (direct root) vaddr n s
        ≡ done (n, with_tables s tables'))
      × ((v : ℕ)
          → translate tables' root v ≡ (
              if hits s.tables root g (vaddr / 2 ^ 12 % 512) n v
              then none
              else translate s.tables root v))
      × IsLevelled tables' root
unfolding vm_unmap_pages indices_of
vm_unmap_pages-translate root vaddr n g s w l aligned pos fits here =
    let i = vaddr / 2 ^ 12 % 512 in
    let index = vaddr / 2 ^ 30 % 512 ∷ vaddr / 2 ^ 21 % 512 ∷ i ∷ [] in
    let top = vaddr / 2 ^ 39 % 512 in
    let last = last_table-level l index top root g (omega (arith, l.top)) here in
    let run =
      recurse_unmap-run index 3 top 0 n vaddr root g (direct root) s s.tables refl (omega arith)
        (omega arith) w (direct-Standing root s) here pos fits in
    (
      put_run cleared 0 s.tables g i n,
      ground (arith, page_offset-mod vaddr, run),
      λ v. put_run-translate l cleared n 0 g i v (omega arith) last,
      put_run-IsLevelled l cleared n 0 g i (omega arith) last,
    )

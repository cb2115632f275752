-- ===== src/Vm/Room.antt =====
-- `find_space` (arch/x86_64/mm/vm.c) where the entries that the hint asks for are free.
use mimik.Base.{
  ℕ, zero, suc, ◌+◌, ◌<◌, ◌≤◌, ◌≡◌, refl, true, false, ltb, u64, arith, subst, List, [], ◌∷◌,
  length, some, done, code,
}
use mimik.Vm.State.{pt_length, pte_paddr, flag_writable, TablePtr, window, Vm, Table, Command}
use mimik.Vm.Lookup.{pt_last_level, pt_num_levels}
use mimik.Vm.Unmap.{get_pages_per_entry, shift_levels}
use mimik.Vm.Bracket.{
  IsWindow, with_tables, mapped, map_page_tmp-mapped, mapped-IsWindow, unmap_page_tmp-mapped,
}
use mimik.Vm.Walk.{InTable, read_entry-frame}
use mimik.Vm.Runs.{last_table, last_index}
use mimik.Vm.Standing.{Points, Standing, mapped-Standing, with_tables-IsWindow, last_table-step}
use mimik.Vm.Map.Space.{
  Scan, walking, filling, Reply, space_loop, walk_step, fill_step, leave, descend, find_space,
}

last_per_entry : get_pages_per_entry pt_last_level ≡ 1
unfolding get_pages_per_entry shift_levels
last_per_entry = refl

-- The second loop over `left` free entries, at the last level.
fill_loop :
    (below : TablePtr → List ℕ → Command Reply) (pt : TablePtr)
    (left rounds paddr_start pages flags g : ℕ) (c : Scan) (s : Vm) (tables : ℕ → Table)
    → left < rounds
    → pages ≡ c.found_pages + left
    → pages ≤ pt_length
    → c.i + left ≤ pt_length
    → Points pt g s
    → ((k : ℕ) → k < left → (tables g (c.i + k)).present ≡ false)
    → space_loop below pt pt_last_level paddr_start pages flags rounds filling c
        (with_tables s tables)
      ≡ done ((code pages, c.index ∷ c.rest), with_tables s tables)
unfolding space_loop fill_step
fill_loop below pt left zero paddr_start pages flags g c s tables lt count small fits at free =
    absurd (omega arith)
fill_loop below pt zero (suc rounds) paddr_start pages flags g c s tables lt count small fits at
      free =
    let full : ltb c.found_pages pages ≡ false = ground arith in
    let all : c.found_pages ≡ pages = omega arith in rw full (rw all refl)
fill_loop below pt (suc left) (suc rounds) paddr_start pages flags g c s tables lt count small fits
      at free =
    let more : ltb c.found_pages pages ≡ true = ground arith in
    let inside : ltb c.i pt_length ≡ true = ground arith in
    let entry : (tables g c.i).present ≡ false = ground (arith, free 0) in
    let next : Scan = record c {
      i = c.i + 1;
      found_pages = u64 (c.found_pages + 1);
      paddr = u64 (c.paddr + 4096);
    } in
    let rest =
      fill_loop below pt left rounds paddr_start pages flags g next s tables (omega arith)
        (omega arith) small (omega arith) at (λ k lt'. ground (arith, free (suc k))) in
    ground (
      arith,
      more,
      inside,
      entry,
      last_per_entry,
      read_entry-frame pt c.i g (with_tables s tables) (omega arith) (at tables),
      rest,
    )

find_last :
    (below : TablePtr → List ℕ → Command Reply) (pt : TablePtr) (n rounds i paddr_start flags g : ℕ)
    (rest : List ℕ) (s : Vm) (tables : ℕ → Table)
    → suc n < rounds
    → 0 < n
    → i + n ≤ pt_length
    → Points pt g s
    → ((k : ℕ) → k < n → (tables g (i + k)).present ≡ false)
    → space_loop below pt pt_last_level paddr_start n flags rounds walking
        (record { i = i; index = i; rest = rest; found_pages = 0; paddr = paddr_start })
        (with_tables s tables)
      ≡ done ((code n, i ∷ rest), with_tables s tables)
unfolding space_loop walk_step leave
find_last below pt n zero i paddr_start flags g rest s tables lt pos fits at free =
    absurd (omega arith)
find_last below pt n (suc rounds) i paddr_start flags g rest s tables lt pos fits at free =
    let c : Scan = record { i = i; index = i; rest = rest; found_pages = 0; paddr = paddr_start } in
    let entry : (tables g i).present ≡ false = ground (arith, free 0) in
    ground (
      arith,
      entry,
      read_entry-frame pt i g (with_tables s tables) (omega arith) (at tables),
      fill_loop below pt n rounds paddr_start n flags g c s tables (omega arith) (omega arith)
          (omega arith) (omega arith) at free,
    )

-- One round at a level above the last, where the call below finds all pages.
find_upper :
    {d : ℕ} {s : Vm} (w : IsWindow (suc d) s) (below : TablePtr → List ℕ → Command Reply)
    (pt : TablePtr) (level n rounds i paddr_start flags f : ℕ) (rest : List ℕ) (tables : ℕ → Table)
    → Standing pt f s
    → i < pt_length
    → level < pt_last_level
    → (tables f i).present ≡ true
    → 0 < n
    → n ≤ pt_length
    → let a = pte_paddr (tables f i) in
      below (window s.first_free_tmp_index) rest (with_tables (mapped s a flag_writable) tables)
        ≡ done ((code n, rest), with_tables (mapped s a flag_writable) tables)
      → space_loop below pt level paddr_start n flags
          (suc rounds)
          walking
          (record { i = i; index = i; rest = rest; found_pages = 0; paddr = paddr_start })
          (with_tables s tables)
        ≡ done ((code n, i ∷ rest), with_tables s tables)
unfolding space_loop walk_step descend
find_upper {d} {s} w below pt level n rounds i paddr_start flags f rest tables at lt upper there pos
      small run =
    let a = pte_paddr (tables f i) in
    let all : u64 (0 + n) ≡ n = omega arith in
    ground (
      arith,
      all,
      read_entry-frame pt i f (with_tables s tables) lt (at.points tables),
      map_page_tmp-mapped (with_tables-IsWindow w tables) a flag_writable,
      run,
      unmap_page_tmp-mapped w a flag_writable tables,
    )

pub find_space-run :
    (index : List ℕ) (depth rounds i level paddr n flags f g : ℕ) (pt : TablePtr) (s : Vm)
    (tables : ℕ → Table)
    → depth ≡ length index
    → level + length index ≡ pt_last_level
    → InTable (i ∷ index)
    → IsWindow (length index) s
    → Standing pt f s
    → last_table tables f (i ∷ index) ≡ some g
    → suc n < rounds
    → 0 < n
    → last_index i index + n ≤ pt_length
    → ((k : ℕ) → k < n → (tables g (last_index i index + k)).present ≡ false)
    → find_space rounds (suc depth) pt (i ∷ index) level paddr n flags (with_tables s tables)
      ≡ done ((code n, i ∷ index), with_tables s tables)
unfolding find_space last_table
find_space-run [] depth rounds i level paddr n flags f g pt s tables deep bottom ins w at here lt
      pos fits free =
    let same : f ≡ g = ground arith in
    let bottom_level : level ≡ pt_last_level = omega arith in
    rw bottom_level (
      find_last (λ p index. find_space rounds depth p index 4 paddr n flags) pt n rounds i paddr
        flags g [] s tables lt pos fits (subst (λ x. Points pt x s) same at.points) free)
find_space-run (j ∷ index) zero rounds i level paddr n flags f g pt s tables deep bottom ins w at
      here lt pos fits free =
    absurd (omega arith)
find_space-run (j ∷ index) (suc depth) zero i level paddr n flags f g pt s tables deep bottom ins w
      at here lt pos fits free =
    absurd (omega arith)
find_space-run (j ∷ index) (suc depth) (suc rounds) i level paddr n flags f g pt s tables deep
      bottom ins w at here lt pos fits free =
    let step = last_table-step tables f i j g index here in
    let a = pte_paddr (tables f i) in
    let below =
      find_space-run index depth (suc rounds) j (level + 1) paddr n flags a g
        (window s.first_free_tmp_index) (mapped s a flag_writable) tables (omega arith)
        (omega arith) ins.1 (mapped-IsWindow w a flag_writable) (mapped-Standing w (tables f i))
        step.1 lt pos fits free in
    let legal : ltb level pt_num_levels ≡ true = ground arith in
    rw legal (
      find_upper w
        (λ p index. find_space (suc rounds) (suc depth) p index (level + 1) paddr n flags) pt level
        n rounds i paddr flags f (j ∷ index) tables at ins.0 (omega arith) step.0 pos (omega arith)
        below)

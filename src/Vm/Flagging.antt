-- ===== src/Vm/Flagging.antt =====
-- `recurse_flag` and `vm_flag_pages` (arch/x86_64/mm/vm.c) on pages of one last-level table.
use mimik.Base.{
  ℕ, zero, suc, ◌+◌, ◌-◌, ◌<◌, ◌≤◌, ◌≡◌, refl, true, false, ◌==◌, u64, arith, ◌∙◌, sym, not, subst,
  ltb, List, [], ◌∷◌, length, some, done, Status, success,
}
use mimik.Vm.State.{
  pt_length, Pte, pte_paddr, flag_writable, flag_user, flag_executable, is_flag_set, set_pte,
  TablePtr, window, Vm, Table, Command, put_entry,
}
use mimik.Vm.Lookup.{pt_last_level, pt_num_levels}
use mimik.Vm.Flag.{updated, update_pt_pte_flags, flag_last, flag_upper, recurse_flag}
use mimik.Vm.Bracket.{
  IsWindow, with_tables, mapped, map_page_tmp-mapped, mapped-IsWindow, unmap_page_tmp-mapped,
}
use mimik.Vm.Walk.{InTable, read_entry-frame}
use mimik.Vm.Backing.{write_entry-frame}
use mimik.Vm.Runs.{
  last_table, last_table-SameShape, last_index, SameShape, SameShape-trans, put_entry-SameShape,
  path_updated, path_updated-SameShape, put_run,
}
use mimik.Vm.Standing.{Points, Standing, mapped-Standing, last_table-step, with_tables-IsWindow}

-- What a last-level entry becomes.
abbrev pub reflagged : ℕ → ℕ → Pte → Pte
reflagged flags a e = set_pte (pte_paddr e) flags

flag_last-run :
    (n left a i flags g : ℕ) (pt : TablePtr) (s : Vm) (tables : ℕ → Table)
    → n ≤ left
    → i + left ≡ pt_length
    → Points pt g s
    → ((k : ℕ) → k < n → (tables g (i + k)).present ≡ true)
    → flag_last pt flags left i n (with_tables s tables)
      ≡ done ((success, 0), with_tables s (put_run (reflagged flags) a tables g i n))
unfolding flag_last
flag_last-run zero zero a i flags g pt s tables le end at there = refl
flag_last-run zero (suc left) a i flags g pt s tables le end at there = refl
flag_last-run (suc n) zero a i flags g pt s tables le end at there = absurd (omega arith)
flag_last-run (suc n) (suc left) a i flags g pt s tables le end at there =
    let tables' = put_entry tables g i (reflagged flags a (tables g i)) in
    let rest =
      flag_last-run n left (u64 (a + 4096)) (i + 1) flags g pt s tables' (omega arith) (omega arith)
        at (λ k lt. ground (arith, there (suc k))) in
    ground (
      arith,
      there 0,
      read_entry-frame pt i g (with_tables s tables) (omega arith) (at tables),
      write_entry-frame pt i g (reflagged flags a (tables g i)) (with_tables s tables) (omega arith)
          (at tables),
      rest,
    )

flag_upper-none :
    (below : TablePtr → ℕ → Command (Status × ℕ)) (pt : TablePtr) (flags left i : ℕ) (s : Vm)
    → flag_upper below pt flags left i 0 s ≡ done ((success, 0), s)
unfolding flag_upper
flag_upper-none below pt flags zero i s = refl
flag_upper-none below pt flags (suc left) i s = refl

pub update_pt_pte_flags-updated :
    (pt : TablePtr) (i flags f : ℕ) (s : Vm) (tables : ℕ → Table)
    → i < pt_length
    → Points pt f s
    → update_pt_pte_flags pt i flags (with_tables s tables)
      ≡ done (tt, with_tables s (put_entry tables f i (updated (tables f i) flags)))
unfolding update_pt_pte_flags
update_pt_pte_flags-updated pt i flags f s tables lt at = ground (
  arith,
  read_entry-frame pt i f (with_tables s tables) lt (at tables),
  write_entry-frame pt i f (updated (tables f i) flags) (with_tables s tables) lt (at tables),
)

flag_upper-round :
    {d : ℕ} {s : Vm} (w : IsWindow (suc d) s) (below : TablePtr → ℕ → Command (Status × ℕ))
    (pt : TablePtr) (flags left i f n : ℕ) (tables tables' : ℕ → Table)
    → Standing pt f s
    → i < pt_length
    → (tables f i).present ≡ true
    → 0 < n
    → let a = pte_paddr (tables f i) in
      below (window s.first_free_tmp_index) n (
          with_tables
            (mapped s a flag_writable)
            (put_entry tables f i (updated (tables f i) flags)))
        ≡ done ((success, 0), with_tables (mapped s a flag_writable) tables')
      → flag_upper below pt flags (suc left) i n (with_tables s tables)
        ≡ done ((success, 0), with_tables s tables')
unfolding flag_upper
flag_upper-round {d} {s} w below pt flags left i f n tables tables' at lt there pos run =
    let a = pte_paddr (tables f i) in
    ground (
      arith,
      read_entry-frame pt i f (with_tables s tables) lt (at.points tables),
      map_page_tmp-mapped (with_tables-IsWindow w tables) a flag_writable,
      update_pt_pte_flags-updated pt i flags f (mapped s a flag_writable) tables lt (at.stays a),
      run,
      unmap_page_tmp-mapped w a flag_writable tables',
      flag_upper-none below pt flags left (i + 1) (with_tables s tables'),
    )

pub recurse_flag-run :
    (index : List ℕ) (i level n flags f g : ℕ) (pt : TablePtr) (s : Vm) (tables : ℕ → Table)
    → level + length index ≡ pt_last_level
    → InTable (i ∷ index)
    → IsWindow (length index) s
    → Standing pt f s
    → last_table tables f (i ∷ index) ≡ some g
    → 0 < n
    → last_index i index + n ≤ pt_length
    → ((k : ℕ) → k < n → (tables g (last_index i index + k)).present ≡ true)
    → recurse_flag pt (i ∷ index) level n flags (with_tables s tables)
      ≡ done (
        (success, 0),
        with_tables s (
            put_run
              (reflagged flags)
              0
              (path_updated flags tables f (i ∷ index))
              g
              (last_index i index)
              n),
      )
unfolding recurse_flag last_table
recurse_flag-run [] i level n flags f g pt s tables depth ins w at here pos fits there =
    let same : f ≡ g = ground arith in
    ground (
      arith,
      flag_last-run n (pt_length - i) 0 i flags g pt s tables (omega arith) (omega arith)
          (subst (λ x. Points pt x s) same at.points) there,
    )
recurse_flag-run (j ∷ index) i level n flags f g pt s tables depth ins w at here pos fits there =
    let step = last_table-step tables f i j g index here in
    let a = pte_paddr (tables f i) in
    let changed = put_entry tables f i (updated (tables f i) flags) in
    let same = path_updated-SameShape flags tables f (i ∷ j ∷ []) in
    let below =
      recurse_flag-run index j (level + 1) n flags a g (window s.first_free_tmp_index)
        (mapped s a flag_writable) changed (omega arith) ins.1 (mapped-IsWindow w a flag_writable)
        (mapped-Standing w (tables f i)) (last_table-SameShape same (j ∷ index) a ∙ step.1) pos fits
        (λ k lt. same.present g (last_index j index + k) ∙ there k lt) in
    let round =
      flag_upper-round w (λ p m. recurse_flag p (j ∷ index) (level + 1) m flags) pt flags (511 - i)
        i f n tables _ at ins.0 step.0 pos below in
    let count : pt_length - i ≡ suc (511 - i) = omega (arith, ins.0) in
    let upper : (level == pt_last_level) ≡ false = ground arith in
    let legal : ltb level pt_num_levels ≡ true = ground arith in rw (legal, upper, count) round

reflagged-paddr : (flags : ℕ) (e : Pte) → pte_paddr (set_pte (pte_paddr e) flags) ≡ pte_paddr e
unfolding set_pte
reflagged-paddr flags e = omega arith

reflagged-present : (flags a : ℕ) (e : Pte) → (reflagged flags a e).present ≡ true
unfolding set_pte
reflagged-present flags a e = refl

pub put_run-SameShape :
    (flags n a : ℕ) (tables : ℕ → Table) (g i : ℕ)
    → ((k : ℕ) → k < n → (tables g (i + k)).present ≡ true)
    → SameShape tables (put_run (reflagged flags) a tables g i n)
put_run-SameShape flags zero a tables g i there = record {
  present = λ f j. refl;
  paddr = λ f j. refl;
}
put_run-SameShape flags (suc n) a tables g i there =
    let e = tables g i in
    let was : e.present ≡ true = ground (arith, there 0) in
    SameShape-trans
      (put_entry-SameShape tables g i (reflagged flags a e) (reflagged-present flags a e ∙ sym was)
        (reflagged-paddr flags e))
      (put_run-SameShape flags n (u64 (a + 4096)) (put_entry tables g i (reflagged flags a e)) g
        (i + 1) (λ k lt. ground (arith, there (suc k), reflagged-present flags a e)))

-- The rights that flags grant in a present entry.
pub record HasRights (flags : ℕ) (e : Pte) : Type 0 where
  pub present : e.present ≡ true
  pub writable : e.writable ≡ is_flag_set flags flag_writable
  pub user : e.user_accessible ≡ is_flag_set flags flag_user
  pub no_execute : e.no_execute ≡ not (is_flag_set flags flag_executable)

pub set_pte-HasRights : (a flags : ℕ) → HasRights flags (set_pte a flags)
unfolding set_pte
set_pte-HasRights a flags = record {
  present = refl;
  writable = refl;
  user = refl;
  no_execute = refl;
}

-- ===== src/Vm/Setup.antt =====
-- What `vm_init` (arch/x86_64/mm/vm.c) leaves: an empty window that the processor can reach.
use mimik.Base.{
  ℕ, ◌%◌, ◌^◌, ◌<◌, ◌≡◌, ◌≢◌, refl, true, false, ◌==◌, ltb, if◌then◌else◌, update, arith, inl, inr,
  List, [], ◌∷◌, none, some, done, Bool-cases,
}
use mimik.Vm.State.{Pte, zero_pte, pte_paddr, set_pte, flag_writable, direct, Table, Vm, put_entry}
use mimik.Vm.Bracket.{IsWindow}
use mimik.Vm.Runs.{last_table}
use mimik.Vm.Init.{clear_static, hang_step, hang_loop, free_loop, vm_init}

-- The page tables with the static table among them, as the processor sees them.
abbrev pub with_static : ℕ → Vm → ℕ → Table
with_static tmp_paddr s f = if f == tmp_paddr then s.tmp_pt else s.tables f

-- The static table cleared, and hung into itself or not.
abbrev cleared_table : (ℕ → Pte) → ℕ → Pte
cleared_table tmp i = if ltb i 960 then zero_pte else tmp i

set_pte-paddr : (a flags : ℕ) → a % 4096 ≡ 0 → a < 2 ^ 52 → pte_paddr (set_pte a flags) ≡ a
unfolding set_pte
set_pte-paddr a flags aligned small = omega arith

free_loop-first :
    (s : Vm)
    → (s.tmp_pt 0).present ≡ false
    → free_loop 512 0 s ≡ done (tt, record s { first_free_tmp_index = 0 })
unfolding free_loop
free_loop-first s free = rw free refl

-- The state behind the first two steps.
abbrev started : ℕ → Vm → Vm
started cr3 s = record s { kpml4 = direct cr3; tmp_pt = cleared_table s.tmp_pt }

-- The state once the loop has hung the static table into table `f`, and into itself or not.
abbrev hung : ℕ → ℕ → ℕ → Vm → (ℕ → Pte) → Vm
hung cr3 tmp_paddr f s tmp = record (started cr3 s) {
  tables = put_entry s.tables f 511 (set_pte tmp_paddr flag_writable);
  tmp_pt = tmp;
  first_free_tmp_index = 0;
}

-- The static table is none of the page tables, and the address of a page.
pub record IsApart (tmp_paddr cr3 : ℕ) (tables : ℕ → Table) : Type 0 where
  pub aligned : tmp_paddr % 4096 ≡ 0
  pub small : tmp_paddr < 2 ^ 52
  pub other_root : cr3 ≢ tmp_paddr
  pub other_page : (f i : ℕ) → (tables f i).present ≡ true → pte_paddr (tables f i) ≢ tmp_paddr

-- The indices of the window's first page.
abbrev pub window_indices : List ℕ
window_indices = 511 ∷ 511 ∷ 511 ∷ 0 ∷ []

-- Entry 511 of table `f` leads to table `g`.
abbrev Leads : (ℕ → Table) → ℕ → ℕ → Type 0
Leads tables f g = ((tables f 511).present ≡ true) × (pte_paddr (tables f 511) ≡ g)

path_of_three :
    (tables : ℕ → Table) (a b c d : ℕ)
    → Leads tables a b
    → Leads tables b c
    → Leads tables c d
    → last_table tables a window_indices ≡ some d
unfolding last_table
path_of_three tables a b c d ab bc cd = rw (ab.0, ab.1, bc.0, bc.1, cd.0, cd.1) refl

hung-IsWindow :
    (cr3 tmp_paddr f : ℕ) (s : Vm) (tmp : ℕ → Pte)
    → ((k : ℕ) → k < 511 → tmp k ≡ zero_pte)
    → IsWindow 510 (hung cr3 tmp_paddr f s tmp)
hung-IsWindow cr3 tmp_paddr f s tmp clear = record {
  room = omega arith;
  empty = λ k a b. clear k b;
}

module _ (cr3 tmp_paddr : ℕ) (s : Vm) (apart : IsApart tmp_paddr cr3 s.tables) where
  abbrev self : Pte
  self = set_pte tmp_paddr flag_writable

  abbrev once : ℕ → Pte
  once = update (cleared_table s.tmp_pt) 511 self

  abbrev Ready : Vm → Type 0
  Ready s' =
      (vm_init cr3 tmp_paddr s ≡ done (tt, s'))
      × IsWindow 510 s'
      × (last_table (with_static tmp_paddr s') cr3 window_indices ≡ some tmp_paddr)

  self-leads : (self.present ≡ true) × (pte_paddr self ≡ tmp_paddr)
  unfolding set_pte
  self-leads = (refl, omega (arith, apart.aligned, apart.small))

  from_root :
      (s.tables cr3 511).present ≡ false → Ready (hung cr3 tmp_paddr cr3 s (update once 511 self))
  unfolding vm_init clear_static hang_loop hang_step free_loop
  from_root none0 =
      let tables = with_static tmp_paddr (hung cr3 tmp_paddr cr3 s (update once 511 self)) in
      let first : Leads tables cr3 tmp_paddr = ground (arith, self-leads, apart.other_root) in
      let next : Leads tables tmp_paddr tmp_paddr = ground (arith, self-leads) in
      (
        rw none0 refl,
        hung-IsWindow cr3 tmp_paddr cr3 s (update once 511 self) (λ k lt. ground arith),
        path_of_three tables cr3 tmp_paddr tmp_paddr tmp_paddr first next next,
      )

  from_second :
      (s.tables cr3 511).present ≡ true
      → (s.tables (pte_paddr (s.tables cr3 511)) 511).present ≡ false
      → Ready (hung cr3 tmp_paddr (pte_paddr (s.tables cr3 511)) s once)
  unfolding vm_init clear_static hang_loop hang_step free_loop
  from_second there0 none1 =
      let f = pte_paddr (s.tables cr3 511) in
      let tables = with_static tmp_paddr (hung cr3 tmp_paddr f s once) in
      let first : Leads tables cr3 f = ground (arith, there0, none1, apart.other_root) in
      let second : Leads tables f tmp_paddr =
        ground (arith, self-leads, apart.other_page cr3 511 there0) in
      let next : Leads tables tmp_paddr tmp_paddr = ground (arith, self-leads) in
      (
        rw (there0, none1) refl,
        hung-IsWindow cr3 tmp_paddr f s once (λ k lt. ground arith),
        path_of_three tables cr3 f tmp_paddr tmp_paddr first second next,
      )

  from_third :
      (s.tables cr3 511).present ≡ true
      → let f = pte_paddr (s.tables cr3 511) in
        (s.tables f 511).present ≡ true
        → let g = pte_paddr (s.tables f 511) in
          (s.tables g 511).present ≡ false → Ready (hung cr3 tmp_paddr g s (cleared_table s.tmp_pt))
  unfolding vm_init clear_static hang_loop hang_step free_loop
  from_third there0 there1 none2 =
      let f = pte_paddr (s.tables cr3 511) in
      let g = pte_paddr (s.tables f 511) in
      let tmp = cleared_table s.tmp_pt in
      let tables = with_static tmp_paddr (hung cr3 tmp_paddr g s tmp) in
      let first : Leads tables cr3 f = ground (arith, there0, none2, apart.other_root) in
      let second : Leads tables f g =
        ground (arith, there1, none2, apart.other_page cr3 511 there0) in
      let third : Leads tables g tmp_paddr =
        ground (arith, self-leads, apart.other_page f 511 there1) in
      (
        rw (there0, there1, none2) refl,
        hung-IsWindow cr3 tmp_paddr g s tmp (λ k lt. ground arith),
        path_of_three tables cr3 f g tmp_paddr first second third,
      )

  -- Where the walk of the tables to the window's first page meets an entry that is not present,
  -- `vm_init` ends with an empty window that has room for 510 tables, and the walk, with the static
  -- table among the tables, then leads to that table. The static table is apart from the others.
  pub vm_init-IsWindow :
      last_table s.tables cr3 window_indices ≡ none
      → (s' : Vm) × (vm_init cr3 tmp_paddr s ≡ done (tt, s'))
        × IsWindow 510 s'
        × (last_table (with_static tmp_paddr s') cr3 window_indices ≡ some tmp_paddr)
  unfolding last_table
  vm_init-IsWindow open_way = elim (Bool-cases (s.tables cr3 511).present) [
    | inr none0 ↦ let r = from_root none0 in (_, r.0, r.1, r.2)
    | inl there0 ↦ elim (Bool-cases (s.tables (pte_paddr (s.tables cr3 511)) 511).present) [
      | inr none1 ↦ let r = from_second there0 none1 in (_, r.0, r.1, r.2)
      | inl there1 ↦
          let r = from_third there0 there1 (third_absent there0 there1) in (_, r.0, r.1, r.2)
    ]
  ]
    where
      third_absent :
          (s.tables cr3 511).present ≡ true
          → let f = pte_paddr (s.tables cr3 511) in
            (s.tables f 511).present ≡ true
            → (s.tables (pte_paddr (s.tables f 511)) 511).present ≡ false
      third_absent there0 there1 = ground arith

-- ===== src/Heap/Backed.antt =====
-- A page of the heap from `mm_map` (mm/mm.c): mapped in the page tables and backed by a page that the
-- page allocator gives out; and an allocation that takes it.
use mimik.Base.{
  ℕ, suc, ◌+◌, ◌*◌, ◌/◌, ◌%◌, ◌^◌, ◌<◌, ◌≤◌, ◌≡◌, refl, true, false, ◌==◌, leb, arith, done,
  Outcome, inl, inr, ap, ◌∙◌, some, success, Option-cases,
}
use mimik.Memory.{Ptr}
use mimik.Page.{page_size, pages_of}
use mimik.Pm.State.{bitmap_size, Pm}
use mimik.Pm.Lock.{pm_request_page}
use mimik.Pm.Single.{Single, to_pm, IsReady}
use mimik.Pm.Pages.{pm_request_page_lem}
use mimik.Vm.State.{is_flag_set, flag_user, indices_of, direct, Vm, Table}
use mimik.Vm.Lookup.{vm_set_backing, vmk_set_backing}
use mimik.Vm.Map.{request, kernel_hint, vm_map_pages, vmk_map_pages}
use mimik.Vm.Bracket.{IsWindow, with_tables}
use mimik.Vm.Walk.{leaf, translate}
use mimik.Vm.Backing.{IsLevelled, vm_set_backing-translate}
use mimik.Vm.Runs.{last_table}
use mimik.Vm.Effect.{hits}
use mimik.Vm.Mapped.{page_for, vm_map_pages-translate}
use mimik.Heap.Mapping.{reserve_paddr, back_loop, mm_map}
use mimik.Heap.Slabs.{Heap, grow_flags}

-- The state of the page tables with one bitmap of pages and the kernel's tables at `root`.
abbrev pub kernel_vm : ℕ → Vm → Single → Vm
kernel_vm root base t = record base { pm = to_pm t; kpml4 = direct root }

no_user : is_flag_set grow_flags flag_user ≡ false
unfolding is_flag_set
no_user = refl

-- An address that translates has a leaf.
leaf_of :
    (tables : ℕ → Table) (root v p : ℕ)
    → translate tables root v ≡ some p
    → (x : ℕ × ℕ) × (leaf tables root (indices_of v) ≡ some x)
unfolding translate
leaf_of tables root v p h = elim (Option-cases (leaf tables root (indices_of v))) [
  | inl absent ↦ absurd (ground (arith, h, absent))
  | inr (x, here) ↦ (x, here)
]

hits-here :
    (tables : ℕ → Table) (root v g : ℕ)
    → last_table tables root (indices_of v) ≡ some g
    → hits tables root g (v / 2 ^ 12 % 512) 1 v ≡ true
hits-here tables root v g here = rw here (ground arith)

module _ (alloc : Pm → Outcome (Ptr × Pm)) (depth fuel rounds vaddr_end root : ℕ)
    (enough : bitmap_size ≤ fuel) where
  -- The parts of `mm_map` of one page.
  mm_map-steps :
      (hint paddr : ℕ) (base : Vm) (t t' : Single) (tables1 tables2 : ℕ → Table)
      → (hint == 0) ≡ false
      → leb 18446603336221196288 hint ≡ true
      → pages_of page_size ≡ 1
      → vm_map_pages alloc depth fuel rounds
          (direct root)
          (reserve_paddr 1)
          1
          hint
          grow_flags
          (kernel_vm root base t)
        ≡ done ((success, hint), with_tables (kernel_vm root base t) tables1)
      → pm_request_page alloc depth fuel (to_pm t) ≡ done (paddr, to_pm t')
      → vm_set_backing (direct root) hint paddr (with_tables (kernel_vm root base t') tables1)
        ≡ done (success, with_tables (kernel_vm root base t') tables2)
      → mm_map alloc depth fuel rounds vaddr_end hint page_size grow_flags (kernel_vm root base t)
        ≡ done (hint, with_tables (kernel_vm root base t') tables2)
  unfolding mm_map back_loop vmk_map_pages kernel_hint vmk_set_backing request
  mm_map-steps hint paddr base t t' tables1 tables2 there kernel one maps asks backs =
      rw (one, no_user, there, kernel, maps, asks, backs) refl

one_page : pages_of page_size ≡ 1
one_page = omega arith

module _ (alloc : Pm → Outcome (Ptr × Pm)) (depth fuel rounds vaddr_end root : ℕ)
    (enough : bitmap_size ≤ fuel) where
  -- `mm_map` of one page at an address of the heap, with the flags of `alloc_slab`, returns that
  -- address, which then translates to the lowest free page.
  pub mm_map-page :
      (hint g : ℕ) (base : Vm) (t : Single)
      → IsWindow 3 base
      → IsLevelled base.tables root
      → IsReady t
      → 2 ≤ t.super.unset
      → page_size ≤ t.unused
      → hint % 4096 ≡ 0
      → 18446603336221196288 ≤ hint
      → hint < 2 ^ 64
      → 2 < rounds
      → last_table base.tables root (indices_of hint) ≡ some g
      → (base.tables g (hint / 2 ^ 12 % 512)).present ≡ false
      → (t' : Single) × (tables' : ℕ → Table) × (mm_map alloc
            (suc depth)
            fuel
            rounds
            vaddr_end
            hint
            page_size
            grow_flags
            (kernel_vm root base t)
          ≡ done (hint, with_tables (kernel_vm root base t') tables'))
        × (translate tables' root hint ≡ some (t.first_free * 4096))
        × IsReady t'
  mm_map-page hint g base t w l ready more room aligned kernel word enough_rounds here free =
      let s = kernel_vm root base t in
      let ws : IsWindow 3 s = record { room = w.room; empty = w.empty } in
      let kept : IsLevelled s.tables root = l in
      let (tables1, maps, trans, levels) =
        vm_map_pages-translate alloc (suc depth) fuel rounds root (reserve_paddr 1) 1 hint
          grow_flags g ws kept (omega arith) (omega arith) aligned (inr (omega arith)) (omega arith)
          (omega arith) (omega arith) here (λ k lt. ground (arith, free)) in
      let (t', asks, was_free, below, changed, accounts, ready') =
        pm_request_page_lem alloc depth fuel enough t ready more room in
      let there : translate tables1 root hint
          ≡ some (page_for (reserve_paddr 1) hint hint % 2 ^ 52 + hint % 4096) =
        trans hint ∙ rw (hits-here base.tables root hint g here) refl in
      let ((f, k), leaf_at) = leaf_of tables1 root hint _ there in
      let frame : t.first_free * page_size % 2 ^ 52 + hint % 4096 ≡ t.first_free * 4096 =
        omega (arith, ready.in_range) in
      let s2 = with_tables (kernel_vm root base t') tables1 in
      let w2 : IsWindow 3 s2 = record { room = w.room; empty = w.empty } in
      let (tables2, backs, new, old, levels2) =
        vm_set_backing-translate root hint (t.first_free * page_size) w2 f k aligned (omega arith)
          levels leaf_at in
      (
        t',
        tables2,
        mm_map-steps alloc (suc depth) fuel rounds vaddr_end root enough hint
            (t.first_free * page_size) base t t' tables1 tables2 (ground arith) (ground arith)
            one_page maps asks backs,
        new hint leaf_at ∙ ap (λ (a : ℕ). some a) frame,
        ready',
      )

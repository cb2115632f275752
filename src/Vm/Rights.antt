-- ===== src/Vm/Rights.antt =====
-- The entries behind `vm_flag_pages` (arch/x86_64/mm/vm.c), one by one.
use mimik.Base.{
  ℕ, ◌+◌, ◌*◌, ◌/◌, ◌%◌, ◌^◌, ◌<◌, ◌≤◌, ◌≡◌, refl, true, false, ◌==◌, ◌&&◌, ltb, leb, if◌then◌else◌,
  arith, ◌∙◌, sym, subst, Bool, List, [], ◌∷◌, length, some, done, success,
}
use mimik.Page.Align.{page_offset-mod}
use mimik.Vm.State.{
  pt_length, pte_paddr, set_pte, indices_of, direct, Vm, is_flag_set, flag_writable, flag_user,
  Table, put_entry,
}
use mimik.Vm.Lookup.{pt_last_level}
use mimik.Vm.Flag.{updated, vm_flag_pages}
use mimik.Vm.Bracket.{IsWindow, with_tables}
use mimik.Vm.Backing.{IsLevelled}
use mimik.Vm.Runs.{
  last_table, last_table-SameShape, SameShape, SameShape-trans, path_updated,
  path_updated-SameShape, put_run, put_run-at, translate-SameShape,
}
use mimik.Vm.Effect.{last_table-level}
use mimik.Vm.Standing.{direct-Standing, last_table-step}
use mimik.Vm.Flagging.{reflagged, recurse_flag-run, put_run-SameShape, HasRights, set_pte-HasRights}
use mimik.Vm.Walk.{translate}
use mimik.Vm.Access.{access, granted, both, Grants, path_updated-Grants, Grants-kept, access-Grants}

-- The entries on the way are none of the last-level table.
path_updated-last :
    {tables0 : ℕ → Table} {root : ℕ} (l : IsLevelled tables0 root) (flags : ℕ) (tables : ℕ → Table)
    (index : List ℕ) (i f g j : ℕ)
    → SameShape tables0 tables
    → l.level_of f + length index ≡ pt_last_level
    → last_table tables f (i ∷ index) ≡ some g
    → l.level_of g ≡ pt_last_level
    → path_updated flags tables f (i ∷ index) g j ≡ tables g j
path_updated-last l flags tables [] i f g j same depth here last = refl
path_updated-last l flags tables (k ∷ index) i f g j same depth here last =
    let changed = put_entry tables f i (updated (tables f i) flags) in
    let step = last_table-step tables f i k g index here in
    let upper : l.level_of f < pt_last_level = omega arith in
    let deeper : l.level_of (pte_paddr (tables f i)) ≡ l.level_of f + 1 =
      rw (same.paddr f i) (l.down f i upper (sym (same.present f i) ∙ step.0)) in
    let shape = path_updated-SameShape flags tables f (i ∷ k ∷ []) in
    let rest =
      path_updated-last l flags changed index k (pte_paddr (tables f i)) g j
        (SameShape-trans same shape) (omega arith)
        (last_table-SameShape shape (k ∷ index) (pte_paddr (tables f i)) ∙ step.1) last in
    let other : (g == f) ≡ false = ground arith in rest ∙ rw other refl

-- The access to a page of the same last-level table as `vaddr`, `m` pages on.
pub access-page :
    (upper last : ℕ) (tables : ℕ → Table) (root vaddr g m : ℕ)
    → vaddr / 2 ^ 12 % 512 + m < 512
    → Grants upper tables root (indices_of vaddr)
    → last_table tables root (indices_of vaddr) ≡ some g
    → HasRights last (tables g (vaddr / 2 ^ 12 % 512 + m))
    → access tables root (indices_of (vaddr + m * 4096)) ≡ both upper last
unfolding indices_of last_table
access-page upper last tables root vaddr g m lt grants here rights =
    let i0 : (vaddr + m * 4096) / 2 ^ 39 ≡ vaddr / 2 ^ 39 = omega arith in
    let i1 : (vaddr + m * 4096) / 2 ^ 30 ≡ vaddr / 2 ^ 30 = omega arith in
    let i2 : (vaddr + m * 4096) / 2 ^ 21 ≡ vaddr / 2 ^ 21 = omega arith in
    let i3 : (vaddr + m * 4096) / 2 ^ 12 % 512 ≡ vaddr / 2 ^ 12 % 512 + m = omega arith in
    rw (i0, i1, i2, i3)
      (access-Grants upper last tables root g (vaddr / 2 ^ 39 % 512) (vaddr / 2 ^ 30 % 512)
        (vaddr / 2 ^ 21 % 512) (vaddr / 2 ^ 12 % 512 + m) grants here rights)

same_twice : (flags : ℕ) → both flags flags ≡ granted flags
same_twice flags =
    rw (idempotent (is_flag_set flags flag_writable), idempotent (is_flag_set flags flag_user)) refl
  where
    idempotent : (b : Bool) → (b && b) ≡ b
    idempotent b = ground arith

-- `vm_flag_pages` of `n` mapped pages that one last-level table maps: exactly their entries in that
-- table change, each to the same page with the rights of the flags, the entries on the way get those of entries
-- above the last level, and the shape of all tables stays.
pub vm_flag_pages-entries :
    (root vaddr n flags g : ℕ) (s : Vm)
    → IsWindow 3 s
    → IsLevelled s.tables root
    → vaddr % 4096 ≡ 0
    → 0 < n
    → vaddr / 2 ^ 12 % 512 + n ≤ pt_length
    → last_table s.tables root (indices_of vaddr) ≡ some g
    → ((k : ℕ) → k < n → (s.tables g (vaddr / 2 ^ 12 % 512 + k)).present ≡ true)
    → (tables' : ℕ → Table) × (vm_flag_pages (direct root) vaddr n flags s
        ≡ done (success, with_tables s tables'))
      × SameShape s.tables tables'
      × ((j : ℕ)
          → tables' g j ≡ (
              if leb (vaddr / 2 ^ 12 % 512) j && ltb j (vaddr / 2 ^ 12 % 512 + n)
              then set_pte (pte_paddr (s.tables g j)) flags
              else s.tables g j))
      × Grants flags tables' root (indices_of vaddr)
unfolding vm_flag_pages indices_of
vm_flag_pages-entries root vaddr n flags g s w l aligned pos fits here there =
    let i = vaddr / 2 ^ 12 % 512 in
    let index = vaddr / 2 ^ 30 % 512 ∷ vaddr / 2 ^ 21 % 512 ∷ i ∷ [] in
    let top = vaddr / 2 ^ 39 % 512 in
    let path = path_updated flags s.tables root (top ∷ index) in
    let shape = path_updated-SameShape flags s.tables root (top ∷ index) in
    let depth : l.level_of root + length index ≡ pt_last_level = omega (arith, l.top) in
    let last = last_table-level l index top root g depth here in
    let run =
      recurse_flag-run index top 0 n flags root g (direct root) s s.tables (omega arith)
        (omega arith) w (direct-Standing root s) here pos fits there in
    let same_shape : SameShape s.tables s.tables = record {
      present = λ f j. refl;
      paddr = λ f j. refl;
    } in
    (
      put_run (reflagged flags) 0 path g i n,
      ground (arith, page_offset-mod vaddr, run),
      SameShape-trans shape
          (put_run-SameShape flags n 0 path g i (λ k lt. shape.present g (i + k) ∙ there k lt)),
      λ j. ground (
        arith,
        put_run-at (reflagged flags) n 0 path g i g j (omega arith),
        path_updated-last l flags s.tables index top root g j same_shape depth here last,
      ),
      Grants-kept l flags path (put_run (reflagged flags) 0 path g i n) index top root g shape
          (λ h j upper.
            let other : (h == g) ≡ false = ground (arith, last, upper) in
            put_run-at (reflagged flags) n 0 path g i h j (omega arith) ∙ rw other refl)
          depth (last_table-SameShape shape (top ∷ index) root ∙ here)
          (path_updated-Grants flags s.tables root top index),
    )

-- `vm_flag_pages` of `n` mapped pages that one last-level table maps succeeds. The entries on the way
-- to each of these pages then grant together exactly the access that the flags ask for, and every
-- address translates as before. The window has room for three tables, the tables are levelled, and
-- the address is page aligned.
pub vm_flag_pages-access :
    (root vaddr n flags g m : ℕ) (s : Vm)
    → IsWindow 3 s
    → IsLevelled s.tables root
    → vaddr % 4096 ≡ 0
    → m < n
    → vaddr / 2 ^ 12 % 512 + n ≤ pt_length
    → last_table s.tables root (indices_of vaddr) ≡ some g
    → ((k : ℕ) → k < n → (s.tables g (vaddr / 2 ^ 12 % 512 + k)).present ≡ true)
    → (tables' : ℕ → Table) × (vm_flag_pages (direct root) vaddr n flags s
        ≡ done (success, with_tables s tables'))
      × (access tables' root (indices_of (vaddr + m * 4096)) ≡ granted flags)
      × ((v : ℕ) → translate tables' root v ≡ translate s.tables root v)
vm_flag_pages-access root vaddr n flags g m s w l aligned lt fits here there =
    let (tables', run, shape, entries, grants) =
      vm_flag_pages-entries root vaddr n flags g s w l aligned (omega arith) fits here there in
    let i = vaddr / 2 ^ 12 % 512 in
    let e : tables' g (i + m) ≡ set_pte (pte_paddr (s.tables g (i + m))) flags =
      ground (arith, entries (i + m)) in
    (
      tables',
      run,
      access-page flags flags tables' root vaddr g m (omega arith) grants
            (last_table-SameShape shape (indices_of vaddr) root ∙ here)
            (subst (HasRights flags) (sym e)
              (set_pte-HasRights (pte_paddr (s.tables g (i + m))) flags))
          ∙ same_twice flags,
      translate-SameShape shape root,
    )

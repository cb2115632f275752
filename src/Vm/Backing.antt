-- ===== src/Vm/Backing.antt =====
-- `recurse_set_backing` and `vm_set_backing` (arch/x86_64/mm/vm.c).
use mimik.Base.{
  ℕ, ◌+◌, ◌/◌, ◌%◌, ◌^◌, ◌<◌, ◌≡◌, ◌≢◌, refl, true, arith, done, ◌∙◌, ap, inl, inr, List, [], ◌∷◌,
  length, Option, none, some, Status, error, enomap, success, Option-cases,
}
use mimik.Page.Align.{page_offset-mod}
use mimik.Vm.State.{
  pt_length, Pte, pte_paddr, flag_writable, indices_of, TablePtr, direct, window, Vm, Table,
  frame_of, write_entry, put_entry,
}
use mimik.Vm.Lookup.{pt_last_level, back_pte, recurse_set_backing, vm_set_backing}
use mimik.Vm.Bracket.{
  IsWindow, with_tables, mapped, map_page_tmp-mapped, mapped-IsWindow, mapped-frame,
  unmap_page_tmp-mapped,
}
use mimik.Vm.Walk.{InTable, leaf, translate, read_entry-frame, direct-frame, pte_paddr-page}

-- Every table that is reached has one level: entries above the last level lead one level down.
pub record IsLevelled (tables : ℕ → Table) (root : ℕ) : Type 0 where
  pub level_of : ℕ → ℕ
  pub top : level_of root ≡ 0
  pub down :
      (f i : ℕ)
      → level_of f < pt_last_level
      → (tables f i).present ≡ true
      → level_of (pte_paddr (tables f i)) ≡ level_of f + 1

abbrev backed : (ℕ → Table) → ℕ → Option (ℕ × ℕ) → (ℕ → Table)
backed tables paddr none = tables
backed tables paddr (some (f, i)) = put_entry tables f i (back_pte (tables f i) paddr)

abbrev outcome : Option (ℕ × ℕ) → Status
outcome none = error enomap
outcome (some p) = success

pub write_entry-frame :
    (pt : TablePtr) (i f : ℕ) (e : Pte) (s : Vm)
    → i < pt_length
    → frame_of pt s ≡ done (f, s)
    → write_entry pt i e s ≡ done (tt, with_tables s (put_entry s.tables f i e))
unfolding write_entry
write_entry-frame pt i f e s lt h = ground (arith, h)

recurse_set_backing-leaf :
    (index : List ℕ) (i level paddr : ℕ) (pt : TablePtr) (f : ℕ) (s : Vm)
    → level + length index ≡ pt_last_level
    → InTable (i ∷ index)
    → IsWindow (length index) s
    → frame_of pt s ≡ done (f, s)
    → recurse_set_backing pt (i ∷ index) level paddr s
      ≡ done (
        outcome (leaf s.tables f (i ∷ index)),
        with_tables s (backed s.tables paddr (leaf s.tables f (i ∷ index))),
      )
unfolding recurse_set_backing leaf
recurse_set_backing-leaf [] i level paddr pt f s depth ins w at = ground (
  arith,
  read_entry-frame pt i f s ins.0 at,
  write_entry-frame pt i f (back_pte (s.tables f i) paddr) s ins.0 at,
)
recurse_set_backing-leaf (j ∷ index) i level paddr pt f s depth ins w at =
    let a = pte_paddr (s.tables f i) in
    let below =
      recurse_set_backing-leaf index j (level + 1) paddr (window s.first_free_tmp_index) a
        (mapped s a flag_writable) (omega arith) ins.1 (mapped-IsWindow w a flag_writable)
        (mapped-frame w a flag_writable s.tables
          ∙ ap (λ n. done (n, mapped s a flag_writable)) (pte_paddr-page (s.tables f i))) in
    ground (
      arith,
      read_entry-frame pt i f s ins.0 at,
      map_page_tmp-mapped w a flag_writable,
      below,
      unmap_page_tmp-mapped w a flag_writable (backed s.tables paddr (leaf s.tables a (j ∷ index))),
    )

leaf-level :
    {tables : ℕ → Table} {root : ℕ} (l : IsLevelled tables root) (index : List ℕ) (i f g k : ℕ)
    → l.level_of f + length index ≡ pt_last_level
    → leaf tables f (i ∷ index) ≡ some (g, k)
    → (l.level_of g ≡ pt_last_level) × ((tables g k).present ≡ true)
unfolding leaf
leaf-level l [] i f g k depth h = ground arith
leaf-level {tables} l (j ∷ index) i f g k depth h =
    ground (arith, l.down f i, leaf-level l index j (pte_paddr (tables f i)) g k)

-- A write to a last-level entry that stays present changes no path.
leaf-put_entry :
    {tables : ℕ → Table} {root : ℕ} (l : IsLevelled tables root) (index : List ℕ) (i f g k : ℕ)
    (e : Pte)
    → l.level_of f + length index ≡ pt_last_level
    → l.level_of g ≡ pt_last_level
    → (tables g k).present ≡ true
    → e.present ≡ true
    → leaf (put_entry tables g k e) f (i ∷ index) ≡ leaf tables f (i ∷ index)
unfolding leaf
leaf-put_entry l [] i f g k e depth at was stays = ground arith
leaf-put_entry {tables} l (j ∷ index) i f g k e depth at was stays =
    ground (arith, l.down f i, leaf-put_entry l index j (pte_paddr (tables f i)) g k e)

back_pte-paddr :
    (e : Pte) (paddr : ℕ) → paddr % 4096 ≡ 0 → pte_paddr (back_pte e paddr) ≡ paddr % 2 ^ 52
unfolding back_pte
back_pte-paddr e paddr h = omega arith

back_pte-present : (e : Pte) (paddr : ℕ) → (back_pte e paddr).present ≡ e.present
unfolding back_pte
back_pte-present e paddr = refl

module _ (root vaddr paddr : ℕ) {s : Vm} (w : IsWindow 3 s) where
  -- `vm_set_backing` of a page-aligned address that is not mapped reports `ENOMAP` and changes
  -- nothing.
  pub vm_set_backing-unmapped :
      vaddr % 4096 ≡ 0
      → paddr % 4096 ≡ 0
      → leaf s.tables root (indices_of vaddr) ≡ none
      → vm_set_backing (direct root) vaddr paddr s ≡ done (error enomap, s)
  unfolding vm_set_backing indices_of
  vm_set_backing-unmapped va pa h = ground (
    arith,
    page_offset-mod vaddr,
    page_offset-mod paddr,
    recurse_set_backing-leaf
        (vaddr / 2 ^ 30 % 512 ∷ vaddr / 2 ^ 21 % 512 ∷ vaddr / 2 ^ 12 % 512 ∷ [])
        (vaddr / 2 ^ 39 % 512) 0 paddr (direct root) root s (omega arith) (omega arith) w
        (direct-frame root s),
  )

  -- `vm_set_backing` of a mapped address succeeds. Afterwards every address of that page translates
  -- to the same offset in the page `paddr`, cut to 52 bits, every other address translates as
  -- before, and the tables keep their levels. Both arguments are page aligned.
  pub vm_set_backing-translate :
      (g k : ℕ)
      → vaddr % 4096 ≡ 0
      → paddr % 4096 ≡ 0
      → IsLevelled s.tables root
      → leaf s.tables root (indices_of vaddr) ≡ some (g, k)
      → (tables' : ℕ → Table) × (vm_set_backing (direct root) vaddr paddr s
          ≡ done (success, with_tables s tables'))
        × ((v : ℕ)
            → leaf s.tables root (indices_of v) ≡ some (g, k)
            → translate tables' root v ≡ some (paddr % 2 ^ 52 + v % 4096))
        × ((v : ℕ)
            → leaf s.tables root (indices_of v) ≢ some (g, k)
            → translate tables' root v ≡ translate s.tables root v)
        × IsLevelled tables' root
  unfolding vm_set_backing indices_of translate
  vm_set_backing-translate g k va pa l h =
      let e = back_pte (s.tables g k) paddr in
      let tables' = put_entry s.tables g k e in
      let (last, was) =
        leaf-level l (vaddr / 2 ^ 30 % 512 ∷ vaddr / 2 ^ 21 % 512 ∷ vaddr / 2 ^ 12 % 512 ∷ [])
          (vaddr / 2 ^ 39 % 512) root g k (omega (arith, l.top)) h in
      let stays : e.present ≡ true = back_pte-present (s.tables g k) paddr ∙ was in
      let same = λ (v : ℕ).
        leaf-put_entry l (v / 2 ^ 30 % 512 ∷ v / 2 ^ 21 % 512 ∷ v / 2 ^ 12 % 512 ∷ [])
          (v / 2 ^ 39 % 512) root g k e (omega (arith, l.top)) last was stays in
      (
        tables',
        ground (
          arith,
          page_offset-mod vaddr,
          page_offset-mod paddr,
          recurse_set_backing-leaf
              (vaddr / 2 ^ 30 % 512 ∷ vaddr / 2 ^ 21 % 512 ∷ vaddr / 2 ^ 12 % 512 ∷ [])
              (vaddr / 2 ^ 39 % 512) 0 paddr (direct root) root s (omega arith) (omega arith) w
              (direct-frame root s),
        ),
        λ v at. ground (arith, same v, back_pte-paddr (s.tables g k) paddr pa),
        λ v off. elim (Option-cases (leaf s.tables root (indices_of v))) [
          | inl absent ↦ ground (arith, same v)
          | inr ((f, i), here) ↦ ground (arith, same v, here)
        ],
        record {
          level_of = l.level_of;
          top = l.top;
          down = λ f i lt there. ground (arith, l.down f i);
        },
      )

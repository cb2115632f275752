-- ===== src/Vm/Walk.antt =====
-- Address lookup against the walk that the processor makes (`recurse_find` and
-- `vm_vaddr_to_paddr` of arch/x86_64/mm/vm.c).
use mimik.Base.{
  ℕ, ◌+◌, ◌*◌, ◌/◌, ◌%◌, ◌^◌, ◌<◌, ◌≡◌, refl, if◌then◌else◌, arith, done, ◌∙◌, ap, inl, inr, List,
  [], ◌∷◌, length, Option, none, some, Status, error, enomap, success, bit_or-fields, Option-cases,
}
use mimik.Page.Align.{page_offset-mod}
use mimik.Vm.State.{
  pt_length, Pte, pte_paddr, flag_writable, indices_of, TablePtr, direct, window, Vm, Table,
  frame_of, read_entry,
}
use mimik.Vm.Lookup.{pt_last_level, recurse_find, vm_vaddr_to_paddr}
use mimik.Vm.Bracket.{
  IsWindow, mapped, map_page_tmp-mapped, mapped-IsWindow, mapped-frame, unmap_page_tmp-mapped,
}

-- Every index lies in a table.
abbrev pub InTable : List ℕ → Type 0
InTable [] = Unit {0}
InTable (i ∷ index) = (i < pt_length) × InTable index

-- The last-level table and the index in it to which a list of indices leads from table `f`, if every
-- entry on the way and the last one are present.
unfoldable pub leaf : (ℕ → Table) → ℕ → List ℕ → Option (ℕ × ℕ)
leaf tables f [] = none
leaf tables f (i ∷ []) = if (tables f i).present then some (f, i) else none
leaf tables f (i ∷ j ∷ index) =
    if (tables f i).present then leaf tables (pte_paddr (tables f i)) (j ∷ index) else none

-- The physical address that `vaddr` stands for under the tables at `root`.
unfoldable pub translate : (ℕ → Table) → ℕ → ℕ → Option ℕ
translate tables root vaddr = elim (leaf tables root (indices_of vaddr)) [
  | none ↦ none
  | some (f, i) ↦ some (pte_paddr (tables f i) + vaddr % 4096)
]

-- What the lookup of a leaf returns, with `paddr` left as it was if there is none.
abbrev pub found : (ℕ → Table) → ℕ → Option (ℕ × ℕ) → Status × ℕ
found tables paddr none = (error enomap, paddr)
found tables paddr (some (f, i)) = (success, pte_paddr (tables f i))

pub read_entry-frame :
    (pt : TablePtr) (i f : ℕ) (s : Vm)
    → i < pt_length
    → frame_of pt s ≡ done (f, s)
    → read_entry pt i s ≡ done (s.tables f i, s)
unfolding read_entry
read_entry-frame pt i f s lt h = ground (arith, h)

pub direct-frame : (f : ℕ) (s : Vm) → frame_of (direct f) s ≡ done (f, s)
unfolding frame_of
direct-frame f s = refl

pub pte_paddr-page : (e : Pte) → pte_paddr e / 4096 % 2 ^ 40 * 4096 ≡ pte_paddr e
pte_paddr-page e = omega arith

recurse_find-leaf :
    (index : List ℕ) (i level paddr : ℕ) (pt : TablePtr) (f : ℕ) (s : Vm)
    → level + length index ≡ pt_last_level
    → InTable (i ∷ index)
    → IsWindow (length index) s
    → frame_of pt s ≡ done (f, s)
    → recurse_find pt (i ∷ index) level paddr s
      ≡ done (found s.tables paddr (leaf s.tables f (i ∷ index)), s)
unfolding recurse_find leaf
recurse_find-leaf [] i level paddr pt f s depth ins w at =
    ground (arith, read_entry-frame pt i f s ins.0 at)
recurse_find-leaf (j ∷ index) i level paddr pt f s depth ins w at =
    let a = pte_paddr (s.tables f i) in
    let below =
      recurse_find-leaf index j (level + 1) paddr (window s.first_free_tmp_index) a
        (mapped s a flag_writable) (omega arith) ins.1 (mapped-IsWindow w a flag_writable)
        (mapped-frame w a flag_writable s.tables
          ∙ ap (λ n. done (n, mapped s a flag_writable)) (pte_paddr-page (s.tables f i))) in
    ground (
      arith,
      read_entry-frame pt i f s ins.0 at,
      map_page_tmp-mapped w a flag_writable,
      below,
      unmap_page_tmp-mapped w a flag_writable s.tables,
    )

-- `vm_vaddr_to_paddr` with a free window agrees with the walk of the tables: where the address is
-- mapped it succeeds with the physical address, where it is not it reports `ENOMAP` and leaves the
-- out parameter as it was. It changes no state.
pub vm_vaddr_to_paddr-translate :
    (root vaddr paddr : ℕ) (s : Vm)
    → IsWindow 3 s
    → vm_vaddr_to_paddr (direct root) vaddr paddr s
      ≡ done (
        elim (translate s.tables root vaddr) [
          | none ↦ (error enomap, paddr)
          | some a ↦ (success, a)
        ],
        s,
      )
unfolding vm_vaddr_to_paddr translate indices_of
vm_vaddr_to_paddr-translate root vaddr paddr s w =
    let run =
      recurse_find-leaf (vaddr / 2 ^ 30 % 512 ∷ vaddr / 2 ^ 21 % 512 ∷ vaddr / 2 ^ 12 % 512 ∷ [])
        (vaddr / 2 ^ 39 % 512) 0 paddr (direct root) root s (omega arith) (omega arith) w
        (direct-frame root s) in
    elim (Option-cases (leaf s.tables root (indices_of vaddr))) [
      | inl absent ↦ ground (arith, run, absent)
      | inr ((f, i), here) ↦ ground (
        arith,
        run,
        here,
        page_offset-mod vaddr,
        bit_or-fields 12 ((s.tables f i).reserved % 2 ^ 40) (vaddr % 4096),
      )
    ]

-- ===== src/Vm/Examples.antt =====
-- The theorems about arch/x86_64/mm/vm.c at a small set of page tables.
use mimik.Base.{
  ℕ, ◌+◌, ◌/◌, ◌%◌, ◌^◌, ◌≡◌, ◌≢◌, refl, true, [], if◌then◌else◌, ◌==◌, arith, done, none, some,
  error, enomap, success,
}
use mimik.Pm.State.{Pm}
use mimik.Vm.State.{Pte, zero_pte, indices_of, direct, Table, Vm}
use mimik.Vm.Lookup.{vm_vaddr_to_paddr, vm_set_backing}
use mimik.Vm.Bracket.{IsWindow, with_tables}
use mimik.Vm.Walk.{leaf, translate, vm_vaddr_to_paddr-translate}
use mimik.Vm.Backing.{IsLevelled, vm_set_backing-translate}

abbrev pub to_page : ℕ → Pte
to_page f = record zero_pte { present = true; writable = true; reserved = f / 4096 }

-- 0x1000 → 0x2000 → 0x3000 → 0x4000, each by entry 1; entry 1 of the last maps the page 0x9000.
abbrev pub tables : ℕ → Table
tables f i =
    if i == 1
    then (if f == 0x1000
        then to_page 0x2000
        else if f == 0x2000
        then to_page 0x3000
        else if f == 0x3000
        then to_page 0x4000
        else if f == 0x4000
        then to_page 0x9000
        else zero_pte)
    else zero_pte

abbrev pub no_pm : Pm
no_pm = record {
  memory = λ a. 0;
  used = 0;
  free = 0;
  mem_bitmaps = [];
  first_free_bitmap = 0;
  next_bitmap_page = 0;
}

abbrev pub state : Vm
state = record {
  pm = no_pm;
  tables = tables;
  tmp_pt = λ k. zero_pte;
  first_free_tmp_index = 0;
  kpml4 = direct 0x1000;
}

pub state-IsWindow : IsWindow 3 state
state-IsWindow = record { room = omega arith; empty = λ k a b. refl }

abbrev pub mapped_address : ℕ
mapped_address = 2 ^ 39 + 2 ^ 30 + 2 ^ 21 + 2 ^ 12

lookups :
    (translate tables 0x1000 (mapped_address + 0x123) ≡ some 0x9123)
    × (translate tables 0x1000 0x5000 ≡ none)
unfolding translate leaf indices_of
lookups = (refl, refl)

vm_vaddr_to_paddr-translate_example :
    vm_vaddr_to_paddr (direct 0x1000) (mapped_address + 0x123) 77 state
    ≡ done (
      elim (translate tables 0x1000 (mapped_address + 0x123)) [
        | none ↦ (error enomap, 77)
        | some a ↦ (success, a)
      ],
      state,
    )
vm_vaddr_to_paddr-translate_example =
    vm_vaddr_to_paddr-translate 0x1000 (mapped_address + 0x123) 77 state state-IsWindow

pub tables-IsLevelled : IsLevelled tables 0x1000
tables-IsLevelled = record {
  level_of = λ f.
      if f == 0x1000
      then 0
      else if f == 0x2000
      then 1
      else if f == 0x3000
      then 2
      else if f == 0x4000
      then 3
      else 4;
  top = refl;
  down = λ f i lt there. ground arith;
}

mapped_leaf : leaf tables 0x1000 (indices_of mapped_address) ≡ some (0x4000, 1)
unfolding leaf indices_of
mapped_leaf = refl

vm_set_backing-translate_example :
    (tables' : ℕ → Table) × (vm_set_backing (direct 0x1000) mapped_address 0x7000 state
      ≡ done (success, with_tables state tables'))
    × ((v : ℕ)
        → leaf tables 0x1000 (indices_of v) ≡ some (0x4000, 1)
        → translate tables' 0x1000 v ≡ some (0x7000 % 2 ^ 52 + v % 4096))
    × ((v : ℕ)
        → leaf tables 0x1000 (indices_of v) ≢ some (0x4000, 1)
        → translate tables' 0x1000 v ≡ translate tables 0x1000 v)
    × IsLevelled tables' 0x1000
vm_set_backing-translate_example =
    vm_set_backing-translate 0x1000 mapped_address 0x7000 state-IsWindow 0x4000 1 (omega arith)
      (omega arith) tables-IsLevelled mapped_leaf

-- ===== src/Heap/Examples.antt =====
-- The theorems about mm/mm.c at concrete sizes and at a heap with one slab.
use mimik.Base.{ℕ, ◌+◌, ◌^◌, ◌≡◌, arith, if◌then◌else◌, ◌==◌, ◌&&◌, [], ◌∷◌}
use mimik.Pm.Single.{Single}
use mimik.Pm.Examples.{fresh}
use mimik.Vm.State.{zero_pte, direct, Vm, Table}
use mimik.Vm.Examples.{to_page, no_pm}
use mimik.Heap.Backed.{kernel_vm}
use mimik.Vm.Lookup.{heap_start}
use mimik.Heap.Sizes.{ceil_to_power_of_2}
use mimik.Heap.Slabs.{Slab, Heap}
use mimik.Heap.Powers.{ceil_to_power_of_2_lem}
use mimik.Heap.Classes.{TooSmall, get_slab_from_size-TooSmall}

ceil_to_power_of_2_lem_example : ceil_to_power_of_2 100 ≡ 2 ^ (6 + 1)
ceil_to_power_of_2_lem_example =
    ceil_to_power_of_2_lem 6 100 (omega arith) (omega arith) (omega arith)

get_slab_from_size-TooSmall_example : TooSmall 100
get_slab_from_size-TooSmall_example = get_slab_from_size-TooSmall 100 (omega arith) (omega arith)

-- The last-level table of the heap's first addresses, which maps nothing.
abbrev tables : ℕ → Table
tables f i =
    if (f == 0x1000) && (i == 256)
    then to_page 0x2000
    else if (f == 0x2000) && (i == 0)
    then to_page 0x3000
    else if (f == 0x3000) && (i == 0)
    then to_page 0x4000
    else zero_pte

abbrev base : Vm
base = record {
  pm = no_pm;
  tables = tables;
  tmp_pt = λ k. zero_pte;
  first_free_tmp_index = 0;
  kpml4 = direct 0x1000;
}

-- The class of 16 bytes, without a page.
abbrev slab : Slab
slab = record { type = 0; freelist = 0x100; start = heap_start; end = heap_start }

abbrev empty_heap : Heap
empty_heap = record {
  slabs = slab ∷ [];
  links = record { prev = λ a. a; next = λ a. a };
  memory = λ a. 0;
  vm = kernel_vm 0x1000 base fresh;
}

-- ===== src/Heap/Owner.antt =====
-- What `get_slab_from_address` makes of the addresses of the heap (mm/mm.c).
use mimik.Base.{ℕ, ◌+◌, ◌/◌, ◌%◌, ◌^◌, ◌<◌, ◌≤◌, ◌≡◌, arith, halted, bit_and-low}
use mimik.Memory.{Ptr}
use mimik.Vm.Lookup.{heap_start}
use mimik.Heap.Sizes.{slab_max}
use mimik.Heap.Slabs.{Heap, slab_type, slab_base, get_slab_from_address, mm_free}

slab_type-div : (addr : Ptr) → slab_type addr ≡ addr / 2 ^ 36 % 2 ^ 16
unfolding slab_type
slab_type-div addr = bit_and-low 16 (addr / 2 ^ 36)

-- `SLABTYPE` of an address that `SLABBASE` leads to is `0xf800` more than the type.
pub slab_type-slab_base :
    (type offset : ℕ)
    → type < slab_max
    → offset < 2 ^ 36
    → slab_type (slab_base type + offset) ≡ 0xf800 + type
unfolding slab_base
slab_type-slab_base type offset lt small = omega (arith, slab_type-div (slab_base type + offset))

-- Every address from the start of the heap to the end of the address space makes `mm_free` halt:
-- the type that it takes from the address is out of range.
pub mm_free-halted :
    (addr : Ptr) (heap : Heap) → heap_start ≤ addr → addr < 2 ^ 64 → mm_free addr heap ≡ halted
unfolding mm_free get_slab_from_address
mm_free-halted addr heap lo hi =
    let high : slab_max ≤ slab_type addr = omega (arith, slab_type-div addr) in ground arith

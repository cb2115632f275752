-- ===== src/Heap/Slabs.antt =====
-- The slabs of mm/mm.c: `mm_init`, `alloc_slab`, `mm_alloc` and `mm_free`. A free chunk holds the
-- links of a list node; the links are a store of their own, as in `Ring`.
use mimik.Base.{
  ℕ, zero, suc, ◌+◌, ◌-◌, ◌*◌, not, ◌&&◌, List, [], ◌∷◌, bit_and, ltb, leb, ◌==◌, if◌then◌else◌,
  u64, ◌<<<◌, ◌>>>◌, Outcome, done, halted, fault, out_of_fuel, ◌>>=◌, ◌>>◌, assert, or_fault,
  get_elem?, set,
}
use mimik.Memory.{Ptr, null, Memory, mem_set}
use mimik.Page.{page_size, align_up}
use mimik.Ring.{Links, list_is_empty, list_init, list_insert, list_remove}
use mimik.Vm.State.{flag_strict, flag_writable, Vm}
use mimik.Vm.Lookup.{heap_start}
use mimik.Pm.State.{Pm}
use mimik.Heap.Mapping.{mm_map}
use mimik.Heap.Sizes.{slab_max, slab_size, get_slab_from_size}

-- The macros `SLABTYPE` and `SLABBASE`.
unfoldable pub slab_type : Ptr → ℕ
slab_type addr = bit_and (addr >>> 36) 0xffff

unfoldable pub slab_base : ℕ → Ptr
slab_base type = u64 (heap_start + u64 (type <<< 36))

-- A `struct slab`; `freelist` is the address of its list head.
pub record Slab : Type 0 where
  pub type : ℕ
  pub freelist : Ptr
  pub start : Ptr
  pub end : Ptr

-- The array `slabs`, the links and the bytes of the heap's memory, and what the heap stands on.
pub record Heap : Type 0 where
  pub slabs : List Slab
  pub links : Links
  pub memory : Memory
  pub vm : Vm

-- The address of `freelist` in element `i` of the array at `slabs_at`, of 40 bytes each.
abbrev pub freelist_at : Ptr → ℕ → Ptr
freelist_at slabs_at i = slabs_at + 40 * i + 8

-- The loop of `mm_init` from element `i` on.
unfoldable pub init_loop : ℕ → Ptr → ℕ → Links → Outcome (List Slab × Links)
init_loop zero slabs_at i h = done ([], h)
init_loop (suc left) slabs_at i h = do
  h1 ← list_init (freelist_at slabs_at i) h
  (rest, h2) ← init_loop left slabs_at (i + 1) h1
  let base = slab_base i
  let s : Slab = record { type = i; freelist = freelist_at slabs_at i; start = base; end = base }
  done (s ∷ rest, h2)

unfoldable pub mm_init : Ptr → Heap → Outcome Heap
mm_init slabs_at heap = do
  (slabs, links) ← init_loop slab_max slabs_at 0 heap.links
  done (record heap { slabs = slabs; links = links })

-- The loop of `alloc_slab`: `next` is always one chunk behind `s->end`.
unfoldable pub grow_loop : ℕ → (limit chunk_size : ℕ) → Slab → Links → Outcome (Slab × Links)
grow_loop zero limit chunk_size s h = out_of_fuel
grow_loop (suc rounds) limit chunk_size s h =
    let next = u64 (s.end + chunk_size) in
    if ltb next limit
    then (do
      h' ← list_insert s.freelist s.end h
      grow_loop rounds limit chunk_size (record s { end = next }) h')
    else done (s, h)

-- Between the end of a slab and the end of its next page there is room for 511 chunks at most.
abbrev pub grow_rounds : ℕ
grow_rounds = 512

abbrev in_heap : Heap → Outcome (Ptr × Vm) → Outcome (Ptr × Heap)
in_heap heap (done (p, vm)) = done (p, record heap { vm = vm })
in_heap heap halted = halted
in_heap heap fault = fault
in_heap heap out_of_fuel = out_of_fuel

-- `VM_FLAG_WRITABLE | VM_FLAG_STRICT`
abbrev pub grow_flags : ℕ
grow_flags = flag_writable + flag_strict

-- The parameters are those of `mm_map`.
module _ (alloc : Pm → Outcome (Ptr × Pm)) (depth fuel rounds vaddr_end : ℕ) where
  -- `alloc_slab(slabs + i)`
  unfoldable pub alloc_slab : ℕ → Heap → Outcome Heap
  alloc_slab i heap = do
    s ← or_fault (get_elem? heap.slabs i)
    assert (ltb s.type slab_max)
    (p, heap1) ← in_heap heap (
        mm_map alloc depth fuel rounds vaddr_end (align_up s.end page_size) page_size grow_flags
          heap.vm)
    assert (not (p == null))
    (s', links) ← grow_loop grow_rounds (u64 (p + page_size)) (slab_size s.type) s heap1.links
    done (record heap1 { slabs = set heap1.slabs i s'; links = links })

  unfoldable pub mm_alloc : ℕ → Heap → Outcome (Ptr × Heap)
  mm_alloc sz heap = do
    assert (ltb sz (slab_size (slab_max - 1)))
    i ← get_slab_from_size sz
    s ← or_fault (get_elem? heap.slabs i)
    heap1 ← (if list_is_empty heap.links s.freelist then alloc_slab i heap else done heap)
    let chunk = heap1.links.next s.freelist
    links ← list_remove chunk heap1.links
    done (chunk, record heap1 { links = links })

unfoldable pub get_slab_from_address : List Slab → Ptr → Outcome Slab
get_slab_from_address slabs addr =
    let type = slab_type addr in
    let sz = slab_size type in
    do
      assert (ltb type slab_max)
      s ← or_fault (get_elem? slabs type)
      assert (leb s.start addr && ltb (u64 (addr + sz)) s.end)
      assert (bit_and addr (sz - 1) == 0)
      done s

-- The result has what `*alloc` holds afterwards.
unfoldable pub mm_free : Ptr → Heap → Outcome (Ptr × Heap)
mm_free alloc heap = do
  slab ← get_slab_from_address heap.slabs alloc
  memory ← mem_set alloc 0 (slab_size slab.type) heap.memory
  links ← list_insert slab.freelist alloc heap.links
  done (null, record heap { memory = memory; links = links })

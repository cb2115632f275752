-- ===== src/Heap/Start.antt =====
-- What `mm_init` leaves (mm/mm.c).
use mimik.Base.{ℕ, zero, suc, ◌+◌, ◌<◌, ◌≡◌, refl, arith, length, List, [], ◌∷◌, done}
use mimik.Memory.{Ptr}
use mimik.Ring.{Links}
use mimik.Ring.Chain.{IsRing}
use mimik.Ring.Insert.{list_init-IsRing}
use mimik.Heap.Sizes.{slab_max}
use mimik.Heap.Slabs.{slab_base, Slab, Heap, freelist_at, init_loop, mm_init}

-- Slab `i` as `mm_init` sets it up.
abbrev pub new_slab : Ptr → ℕ → Slab
new_slab slabs_at i = record {
  type = i;
  freelist = freelist_at slabs_at i;
  start = slab_base i;
  end = slab_base i;
}

-- `slabs` are the new slabs from number `i` on, and each of them has an empty free list.
abbrev pub AllNew : Ptr → ℕ → Links → List Slab → Type 0
AllNew slabs_at i g [] = Unit {0}
AllNew slabs_at i g (s ∷ slabs) =
    (s ≡ new_slab slabs_at i) × IsRing g s.freelist [] × AllNew slabs_at (i + 1) g slabs

init_loop-run :
    (left : ℕ) (slabs_at : Ptr) (i : ℕ) (h : Links)
    → 0 < slabs_at
    → (slabs : List Slab) × (g : Links) × (init_loop left slabs_at i h ≡ done (slabs, g))
      × AllNew slabs_at i g slabs
      × (length slabs ≡ left)
      × ((x : Ptr) → x < freelist_at slabs_at i → (g.next x ≡ h.next x) × (g.prev x ≡ h.prev x))
unfolding init_loop
init_loop-run zero slabs_at i h pos = ([], h, refl, tt, refl, λ x lt. (refl, refl))
init_loop-run (suc left) slabs_at i h pos =
    let here = freelist_at slabs_at i in
    let (h1, run, ring, same) = list_init-IsRing here h (λ e. omega arith) in
    let (slabs, g, run', new, count, frame) = init_loop-run left slabs_at (i + 1) h1 pos in
    let kept = frame here (omega arith) in
    (
      new_slab slabs_at i ∷ slabs,
      g,
      rw (run, run') refl,
      (
        refl,
        record {
          circle = (ground (arith, ring.circle.0), ground (arith, ring.circle.1));
          distinct = ring.distinct;
          not_null = ring.not_null;
        },
        new,
      ),
      omega arith,
      λ x lt.
          let later = frame x (omega arith) in
          let before = same x ((λ e. omega arith), tt) in (ground arith, ground arith),
    )

-- With the array `slabs` at an address that is not null, `mm_init` succeeds: there are `SLAB_MAX`
-- slabs, each with its number for a type, with an empty free list, and with no memory yet at its
-- base address.
pub mm_init_lem :
    (slabs_at : Ptr) (heap : Heap)
    → 0 < slabs_at
    → (slabs : List Slab) × (g : Links) × (mm_init slabs_at heap
        ≡ done (record heap { slabs = slabs; links = g }))
      × (length slabs ≡ slab_max)
      × AllNew slabs_at 0 g slabs
unfolding mm_init
mm_init_lem slabs_at heap pos =
    let (slabs, g, run, new, count, frame) = init_loop-run slab_max slabs_at 0 heap.links pos in
    (slabs, g, rw run refl, count, new)

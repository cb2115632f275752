-- ===== src/Heap/Take.antt =====
-- `alloc_slab` and `mm_alloc` (mm/mm.c) on a slab whose free list is a ring.
use mimik.Base.{
  ℕ, zero, suc, ◌+◌, ◌*◌, ◌^◌, ◌<◌, ◌≤◌, ◌≡◌, refl, arith, List, [], ◌∷◌, true, false, Bool,
  Outcome, ◌&&◌, leb, ltb, ◌==◌, done, u64, some, get_elem?, set, test_below, test_below_lem, ap,
  lt→ltb, ◌∙◌, subst,
}
use mimik.Memory.{Ptr, null}
use mimik.Page.{page_size, align_up}
use mimik.Page.Align.{align_up-page}
use mimik.Ring.{Links}
use mimik.Ring.Chain.{IsRing}
use mimik.Ring.Insert.{SameOutside}
use mimik.Ring.Remove.{list_remove-IsRing}
use mimik.Vm.State.{Vm}
use mimik.Pm.State.{Pm}
use mimik.Heap.Mapping.{mm_map}
use mimik.Heap.Sizes.{slab_max, slab_size, get_slab_from_size}
use mimik.Heap.Slabs.{Slab, Heap, grow_rounds, grow_flags, alloc_slab, mm_alloc}
use mimik.Heap.Grow.{chunks_onto, Outside, grow_loop-run}

size_in_range : ℕ → Bool
size_in_range type = leb 16 (slab_size type) && leb (slab_size type) 4096

range_table : test_below slab_max size_in_range ≡ true
unfolding test_below size_in_range slab_size
range_table = refl

slab_size-range : (type : ℕ) → type < slab_max → (16 ≤ slab_size type) × (slab_size type ≤ 4096)
unfolding size_in_range
slab_size-range type lt =
    let ok : size_in_range type ≡ true =
      test_below_lem slab_max type size_in_range lt range_table in
    ground arith

last_size : slab_size 15 ≡ 4096
unfolding slab_size
last_size = refl

-- The page behind the end of a slab.
abbrev pub next_page : Slab → Ptr
next_page s = align_up s.end page_size

-- A slab at index `i` of the heap, with the free list `xs`, and room for one more page.
pub record IsSlab (heap : Heap) (i : ℕ) (s : Slab) (xs : List Ptr) : Type 0 where
  pub stored : get_elem? heap.slabs i ≡ some s
  pub typed : s.type < slab_max
  pub ring : IsRing heap.links s.freelist xs
  pub fresh : Outside s.end (next_page s + page_size) (s.freelist ∷ xs)
  pub not_null : 0 < s.end
  pub room : s.end + 4 * page_size ≤ 2 ^ 64

chunks_onto-last :
    (m size start : ℕ) (xs : List Ptr)
    → chunks_onto (suc m) size start xs ≡ (start + m * size) ∷ chunks_onto m size start xs
chunks_onto-last zero size start xs = ap (λ (a : Ptr). a ∷ xs) (nothing start size)
  where
    nothing : (a b : ℕ) → a ≡ a + 0 * b
    nothing a b = omega arith
chunks_onto-last (suc m) size start xs =
    chunks_onto-last m size (start + size) (start ∷ xs)
    ∙ ap (λ (a : Ptr). a ∷ chunks_onto (suc m) size start xs) (shift start size m)
  where
    shift : (a b k : ℕ) → a + b + k * b ≡ a + suc k * b
    shift a b k = omega arith

some_chunk :
    (n start size e : ℕ)
    → e ≡ start + n * size
    → size < 4096
    → start + 4096 ≤ e + size
    → (m : ℕ) × (n ≡ suc m)
some_chunk zero start size e value small full = absurd (omega arith)
some_chunk (suc m) start size e value small full = (m, refl)

-- What `alloc_slab` makes of the end `e` of a slab with `n` new chunks, and of the links.
abbrev pub grown : Heap → ℕ → Slab → Ptr → Links → Vm → Heap
grown heap i s e g vm = record heap {
  slabs = set heap.slabs i (record s { end = e });
  links = g;
  vm = vm;
}

module _ (alloc : Pm → Outcome (Ptr × Pm)) (depth fuel rounds vaddr_end : ℕ) (heap : Heap) (i : ℕ)
    (s : Slab) where
  -- If `mm_map` grants the page that it is asked for, `alloc_slab` puts all chunks that end below
  -- the end of that page in front of the free list, the last one first, and moves the end of the
  -- slab behind the last one.
  pub alloc_slab_lem :
      (xs : List Ptr) (vm : Vm)
      → IsSlab heap i s xs
      → mm_map alloc depth fuel rounds vaddr_end (next_page s) page_size grow_flags heap.vm
        ≡ done (next_page s, vm)
      → (n e : ℕ) × (g : Links) × (alloc_slab alloc depth fuel rounds vaddr_end i heap
          ≡ done (grown heap i s e g vm))
        × (e ≡ s.end + n * slab_size s.type)
        × (e < next_page s + page_size)
        × (next_page s + page_size ≤ e + slab_size s.type)
        × IsRing g s.freelist (chunks_onto n (slab_size s.type) s.end xs)
  unfolding alloc_slab
  alloc_slab_lem xs vm ok granted =
      let page = align_up-page s.end (omega arith) in
      let range = slab_size-range s.type ok.typed in
      let (n, e, g, run, value, low, high, ring) =
        grow_loop-run grow_rounds (next_page s + page_size) (slab_size s.type) s heap.links xs
          ok.ring ok.fresh range.0 range.1 ok.not_null (omega arith) (omega arith) (omega arith) in
      let limit : u64 (next_page s + page_size) ≡ next_page s + page_size = omega arith in
      let typed : ltb s.type slab_max ≡ true = lt→ltb s.type slab_max ok.typed in
      let granted_page : (next_page s == null) ≡ false = ground arith in
      (
        n,
        e,
        g,
        rw (ok.stored, typed, granted, granted_page, limit, run) refl,
        value,
        low,
        high,
        ring,
      )

  -- `mm_alloc` of a size of this class, while the free list has nodes, returns the first of them and
  -- takes it out.
  pub mm_alloc-first :
      (sz : ℕ) (c : Ptr) (xs : List Ptr)
      → sz < 4096
      → get_slab_from_size sz ≡ done i
      → get_elem? heap.slabs i ≡ some s
      → IsRing heap.links s.freelist (c ∷ xs)
      → (g : Links) × (mm_alloc alloc depth fuel rounds vaddr_end sz heap
          ≡ done (c, record heap { links = g }))
        × IsRing g s.freelist xs
        × SameOutside (s.freelist ∷ c ∷ xs) heap.links g
  unfolding mm_alloc
  mm_alloc-first sz c xs lt class stored ring =
      let (g, run, rest, p, q, same) = list_remove-IsRing heap.links c s.freelist [] xs ring in
      let small : ltb sz (slab_size 15) ≡ true = lt→ltb sz (slab_size 15) (rw last_size lt) in
      let used : (s.freelist == heap.links.next s.freelist) ≡ false =
        ground (arith, ring.distinct.0, ring.circle.0) in
      let first : heap.links.next s.freelist ≡ c = ring.circle.0 in
      (g, rw (small, class, stored, used, first, run) refl, rest, same)

  -- The rest of `mm_alloc`, behind an `alloc_slab` that made at least one chunk.
  mm_alloc-behind :
      (sz m e : ℕ) (vm : Vm) (g : Links)
      → sz < 4096
      → get_slab_from_size sz ≡ done i
      → IsSlab heap i s []
      → alloc_slab alloc depth fuel rounds vaddr_end i heap ≡ done (grown heap i s e g vm)
      → IsRing g s.freelist (chunks_onto (suc m) (slab_size s.type) s.end [])
      → (f : Links) × (mm_alloc alloc depth fuel rounds vaddr_end sz heap
          ≡ done (s.end + m * slab_size s.type, grown heap i s e f vm))
        × IsRing f s.freelist (chunks_onto m (slab_size s.type) s.end [])
  unfolding mm_alloc
  mm_alloc-behind sz m e vm g lt class ok run ring =
      let chunk = s.end + m * slab_size s.type in
      let rest = chunks_onto m (slab_size s.type) s.end [] in
      let ring' : IsRing g s.freelist (chunk ∷ rest) =
        subst (IsRing g s.freelist) (chunks_onto-last m (slab_size s.type) s.end []) ring in
      let (f, took, left, p, q, same) = list_remove-IsRing g chunk s.freelist [] rest ring' in
      let small : ltb sz (slab_size 15) ≡ true = lt→ltb sz (slab_size 15) (rw last_size lt) in
      let empty : (s.freelist == heap.links.next s.freelist) ≡ true =
        ground (arith, ok.ring.circle.0) in
      let first : g.next s.freelist ≡ chunk = ring'.circle.0 in
      (f, rw (small, class, ok.stored, empty, run, first, took) refl, left)

  -- `mm_alloc` of a size of this class, where the free list is empty and `mm_map` grants the page
  -- that it is asked for, returns a chunk that begins at the old end of the slab or behind it, and
  -- ends at the new end, below the end of the new page. The free list holds the chunks before it.
  pub mm_alloc-grown :
      (sz : ℕ) (vm : Vm)
      → sz < 4096
      → get_slab_from_size sz ≡ done i
      → slab_size s.type < 4096
      → IsSlab heap i s []
      → mm_map alloc depth fuel rounds vaddr_end (next_page s) page_size grow_flags heap.vm
        ≡ done (next_page s, vm)
      → (m e chunk : ℕ) × (f : Links) × (mm_alloc alloc depth fuel rounds vaddr_end sz heap
          ≡ done (chunk, grown heap i s e f vm))
        × (s.end ≤ chunk)
        × (chunk + slab_size s.type ≡ e)
        × (e < next_page s + page_size)
        × (chunk ≡ s.end + m * slab_size s.type)
        × IsRing f s.freelist (chunks_onto m (slab_size s.type) s.end [])
  mm_alloc-grown sz vm lt class small ok granted =
      let (n, e, g, run, value, low, high, ring) = alloc_slab_lem [] vm ok granted in
      let page = align_up-page s.end (omega arith) in
      let (m, count) =
        some_chunk n s.end (slab_size s.type) e value small (omega (arith, high, page)) in
      let (f, run', left) =
        mm_alloc-behind sz m e vm g lt class ok run (
          subst (λ k. IsRing g s.freelist (chunks_onto k (slab_size s.type) s.end [])) count
            ring) in
      (
        m,
        e,
        s.end + m * slab_size s.type,
        f,
        run',
        omega arith,
        omega (arith, value, ap (λ (k : ℕ). s.end + k * slab_size s.type) count),
        low,
        refl,
        left,
      )

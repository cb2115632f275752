-- ===== src/Heap/Classes.antt =====
-- Which class `get_slab_from_size` picks for a size (mm/mm.c).
use mimik.Base.{
  Outcome, ℕ, ◌+◌, ◌-◌, ◌<◌, ◌≤◌, ◌≡◌, refl, Bool, true, false, ◌&&◌, List, [], ◌∷◌, ltb, leb, ◌==◌,
  arith, Outcome, done, halted, get_or, Bool-cases, inl, inr, subst, u32, ◌^◌, ◌>>>◌, test_below,
  test_below_lem,
}
use mimik.Memory.{Ptr}
use mimik.Pm.State.{Pm}
use mimik.Heap.Sizes.{
  slab_max, slab_size, smear, ceil_to_power_of_2, type_loop, type_rounds, get_slab_from_size,
}
use mimik.Heap.Powers.{ceil_to_power_of_2_lem}
use mimik.Heap.Slabs.{Heap, mm_alloc}

-- The sizes that the enumerators of `enum slab_type` are named for.
abbrev pub class_sizes : List ℕ
class_sizes =
    16 ∷ 24 ∷ 32 ∷ 48 ∷ 64 ∷ 96 ∷ 128 ∷ 192 ∷ 256 ∷ 384 ∷ 512 ∷ 768 ∷ 1024 ∷ 2048 ∷ 3072 ∷ 4096 ∷ []

size_ok : ℕ → Bool
size_ok type = slab_size type == get_or class_sizes type 0

size_table : test_below slab_max size_ok ≡ true
unfolding test_below size_ok slab_size
size_table = refl

-- For every type below `SLAB_MAX`, `slab_size` is the size in the type's name.
pub slab_size_lem : (type : ℕ) → type < slab_max → slab_size type ≡ get_or class_sizes type 0
unfolding size_ok
slab_size_lem type lt = ground (arith, test_below_lem slab_max type size_ok lt size_table)

on_class : (ℕ → Bool) → Outcome ℕ → Bool
on_class good (done type) = ltb type slab_max && good type
on_class good _ = false

on_class-done :
    (good : ℕ → Bool) (o : Outcome ℕ)
    → on_class good o ≡ true
    → (type : ℕ) × (o ≡ done type) × (type < slab_max) × (good type ≡ true)
unfolding on_class
on_class-done good (done type) h = (type, refl, ground arith, ground arith)
on_class-done good halted h = absurd (ground arith)
on_class-done good Outcome.fault h = absurd (ground arith)
on_class-done good Outcome.out_of_fuel h = absurd (ground arith)

is_halted : Outcome ℕ → Bool
is_halted halted = true
is_halted _ = false

least_fit : ℕ → ℕ → Bool
least_fit sz type = leb sz (slab_size type) && test_below type (λ k. ltb (slab_size k) sz)

fit_table : test_below 40 (λ d. on_class (least_fit (d + 9)) (get_slab_from_size (d + 9))) ≡ true
unfolding test_below on_class least_fit slab_size get_slab_from_size type_loop ceil_to_power_of_2
    smear
fit_table = refl

least_fit_lem :
    (sz type : ℕ)
    → least_fit sz type ≡ true
    → (sz ≤ slab_size type) × ((k : ℕ) → k < type → slab_size k < sz)
unfolding least_fit
least_fit_lem sz type good =
    (ground arith, λ k lt. ground (arith, test_below_lem type k (λ k. ltb (slab_size k) sz) lt))

-- From 9 to 48 bytes, `get_slab_from_size` picks the smallest class that the size fits in.
pub get_slab_from_size-least :
    (sz : ℕ)
    → 9 ≤ sz
    → sz ≤ 48
    → (type : ℕ) × (get_slab_from_size sz ≡ done type)
      × (type < slab_max)
      × (sz ≤ slab_size type)
      × ((k : ℕ) → k < type → slab_size k < sz)
get_slab_from_size-least sz lo hi =
    let (type, run, lt, good) = on_class-done (least_fit sz) (get_slab_from_size sz) (
      subst (λ (n : ℕ). on_class (least_fit n) (get_slab_from_size n) ≡ true) back
        (test_below_lem 40 (sz - 9) (λ d. on_class (least_fit (d + 9)) (get_slab_from_size (d + 9)))
          (omega arith) fit_table)) in
    let (fits, least) = least_fit_lem sz type good in (type, run, lt, fits, least)
  where
    back : sz - 9 + 9 ≡ sz
    back = omega arith

-- A size above `2 ^ k`, with the class that its power of two has.
large_band :
    (k type sz : ℕ)
    → k < 63
    → 2 ^ k < sz
    → sz ≤ 2 ^ (k + 1)
    → type_loop type_rounds ((2 ^ (k + 1)) >>> 4) 0 ≡ done type
    → slab_size (u32 (type + (2 ^ 32 - 1))) < sz
    → type < slab_max
    → get_slab_from_size sz ≡ done type
unfolding get_slab_from_size
large_band k type sz small lo hi loop below lt =
    rw (ceil_to_power_of_2_lem k sz small lo hi, loop) (ground arith)

-- The class that is picked is a class, and smaller than the size.
abbrev pub TooSmall : ℕ → Type 0
TooSmall sz =
    (type : ℕ) × (get_slab_from_size sz ≡ done type) × (type < slab_max) × (slab_size type < sz)

-- The binary orders of magnitude, downwards from 4096.
module _ (sz : ℕ) (lo : 48 < sz) where
  upto64 : sz ≤ 64 → TooSmall sz
  unfolding slab_size type_loop
  upto64 hi = (
    3,
    large_band 5 3 sz (omega arith) (omega arith) hi refl (omega arith) (omega arith),
    omega arith,
    omega arith,
  )

  -- A band is done if its class is below it; else the next band is asked.
  or_below :
      (k type : ℕ)
      → k < 63
      → sz ≤ 2 ^ (k + 1)
      → type_loop type_rounds ((2 ^ (k + 1)) >>> 4) 0 ≡ done type
      → slab_size (u32 (type + (2 ^ 32 - 1))) ≤ 2 ^ k
      → type < slab_max
      → slab_size type ≤ 2 ^ k
      → (sz ≤ 2 ^ k → TooSmall sz)
      → TooSmall sz
  or_below k type small hi loop below lt size next = elim (Bool-cases (leb sz (2 ^ k))) [
    | inl b ↦ next (ground arith)
    | inr b ↦
        let above : 2 ^ k < sz = ground arith in
        (type, large_band k type sz small above hi loop (omega arith) lt, lt, omega arith)
  ]

-- From 49 to 4095 bytes, `get_slab_from_size` picks a class whose chunks are smaller than the size.
pub get_slab_from_size-TooSmall : (sz : ℕ) → 48 < sz → sz < 4096 → TooSmall sz
unfolding slab_size type_loop
get_slab_from_size-TooSmall sz lo hi =
    let step = λ (k type : ℕ). or_below sz lo k type in
    step 11 9 (omega arith) (omega arith) refl (omega arith) (omega arith) (omega arith) (λ h.
      step 10 8 (omega arith) h refl (omega arith) (omega arith) (omega arith) (λ h.
        step 9 7 (omega arith) h refl (omega arith) (omega arith) (omega arith) (λ h.
          step 8 6 (omega arith) h refl (omega arith) (omega arith) (omega arith) (λ h.
            step 7 5 (omega arith) h refl (omega arith) (omega arith) (omega arith) (λ h.
              step 6 4 (omega arith) h refl (omega arith) (omega arith) (omega arith)
                (λ h. upto64 sz lo h))))))

halt_table : test_below 9 (λ sz. is_halted (get_slab_from_size sz)) ≡ true
unfolding test_below is_halted slab_size get_slab_from_size type_loop ceil_to_power_of_2 smear
halt_table = refl

halts : (sz : ℕ) → sz ≤ 8 → get_slab_from_size sz ≡ halted
unfolding is_halted
halts sz le =
    let h : is_halted (get_slab_from_size sz) ≡ true =
      test_below_lem 9 sz (λ sz. is_halted (get_slab_from_size sz)) (omega arith) halt_table in
    ground arith

-- Up to 8 bytes, `mm_alloc` halts: the type below the first one is out of range.
pub mm_alloc-halted :
    (alloc : Pm → Outcome (Ptr × Pm)) (depth fuel rounds vaddr_end sz : ℕ) (heap : Heap)
    → sz ≤ 8
    → mm_alloc alloc depth fuel rounds vaddr_end sz heap ≡ halted
unfolding mm_alloc slab_size
mm_alloc-halted alloc depth fuel rounds vaddr_end sz heap le = ground (arith, halts sz le)

-- ===== src/Pm/Seek.antt =====
-- `find_first_free_index` and the refresh of `first_free` behind a lock (mm/pm.c), with one bitmap.
use mimik.Base.{
  ℕ, zero, suc, ◌+◌, ◌-◌, ◌<◌, ◌≤◌, ◌≡◌, refl, true, false, ltb, ◌==◌, arith, done, fault, Outcome,
  inl, inr, Bool-cases, ◌∙◌, ap,
}
use mimik.Memory.{Ptr}
use mimik.Bitmap.{bitmap_get}
use mimik.Bitmap.Access.{Cell, locked, free, status_of, bitmap_get-view}
use mimik.Pm.State.{bitmap_size, Pm}
use mimik.Pm.Search.{scan_ring, ring_after, find_first_free_bitmap, find_first_free_index}
use mimik.Pm.Lock.{refresh}
use mimik.Pm.Single.{
  Single, bitmap0, to_pm, page, IsSingle, IsReady, current-bitmap0, put_bitmap0, bit_of_free,
  some_free, least_free,
}

abbrev pub with_first : Single → ℕ → Single
with_first t j = record t { first_free = j }

pub with_first-IsSingle : {t : Single} (j : ℕ) → IsSingle t → IsSingle (with_first t j)
with_first-IsSingle j ok = record { bitmap = ok.bitmap; size = ok.size }

get_first :
    (t : Single) (c : Cell)
    → page t t.first_free ≡ c
    → bitmap_get t.super t.memory t.first_free ≡ status_of c
get_first t c h = bitmap_get-view t.super t.memory t.first_free ∙ ap status_of h

-- Where `first_free` has to go: to the least free index.
pub relocate :
    (t : Single)
    → IsSingle t
    → 0 < t.super.unset
    → ((k : ℕ) → k < t.first_free → page t k ≡ locked)
    → (j : ℕ) × (t.first_free ≤ j)
      × (page t j ≡ free)
      × ((k : ℕ) → t.first_free ≤ k → k < j → page t k ≡ locked)
      × IsReady (with_first t j)
relocate t ok pos below =
    let (m, m_in, m_free) = some_free ok pos in
    let above : t.first_free ≤ m = elim (Bool-cases (ltb m t.first_free)) [
      | inl lt ↦ absurd (apart (below m (ground arith)) m_free)
      | inr le ↦ ground arith
    ] in
    let gap : t.first_free + (m - t.first_free) ≡ m = omega arith in
    let (j, lo, hi, j_free, between) =
      least_free t (m - t.first_free) t.first_free ok (rw gap m_free) in
    (
      j,
      lo,
      j_free,
      between,
      record {
        single = with_first-IsSingle j ok;
        in_range = (bit_of_free ok j j_free).0;
        is_free = j_free;
        below = λ k lt. elim (Bool-cases (ltb k t.first_free)) [
          | inl before ↦ below k (ground arith)
          | inr behind ↦ between k (ground arith) lt
        ];
      },
    )
  where
    apart : {c : Cell} → c ≡ locked → c ≡ free → ⊥
    apart p q = cc

module _ (alloc : Pm → Outcome (Ptr × Pm)) (request : Pm → Outcome (ℕ × Pm)) where
  -- The loop walks over locked pages, up to the first that is free.
  pub find_first_free_index-least :
      (fuel : ℕ) (t : Single) (j : ℕ)
      → IsSingle t
      → t.first_free ≤ j
      → page t j ≡ free
      → ((k : ℕ) → t.first_free ≤ k → k < j → page t k ≡ locked)
      → j < t.first_free + fuel
      → find_first_free_index alloc request fuel (to_pm t) ≡ done (true, to_pm (with_first t j))
  unfolding find_first_free_index
  find_first_free_index-least zero t j ok le f below more = absurd (omega arith)
  find_first_free_index-least (suc fuel) t j ok le f below more =
      elim (Bool-cases (t.first_free == j)) [
        | inl here ↦
            let e : t.first_free ≡ j = ground arith in
            ground (arith, current-bitmap0 t, get_first t free (rw e f))
        | inr on ↦
            let lt : t.first_free < j = ground arith in
            let in_range : j < bitmap_size = (bit_of_free ok j f).0 in
            let t' = with_first t (t.first_free + 1) in
            ground (
              arith,
              ok.size,
              current-bitmap0 t,
              get_first t locked (below t.first_free (omega arith) lt),
              put_bitmap0 (bitmap0 t') (bitmap0 t),
              find_first_free_index-least fuel t' j (with_first-IsSingle _ ok) (omega arith) f
                  (λ k a b. below k (omega arith) b) (omega arith),
            )
      ]

  -- With no page free from `first_free` on the loop runs to the end of the bitmap.
  pub find_first_free_index-full :
      (fuel : ℕ) (t : Single)
      → IsSingle t
      → t.first_free < bitmap_size
      → ((k : ℕ) → t.first_free ≤ k → k < bitmap_size → page t k ≡ locked)
      → bitmap_size ≤ t.first_free + fuel
      → find_first_free_index alloc request fuel (to_pm t)
        ≡ done (false, to_pm (with_first t bitmap_size))
  unfolding find_first_free_index
  find_first_free_index-full zero t ok lt full more = absurd (omega arith)
  find_first_free_index-full (suc fuel) t ok lt full more =
      let t' = with_first t (t.first_free + 1) in
      let step = get_first t locked (full t.first_free (omega arith) lt) in
      elim (Bool-cases (ltb (t.first_free + 1) bitmap_size)) [
        | inl on ↦ ground (
          arith,
          ok.size,
          current-bitmap0 t,
          step,
          put_bitmap0 (bitmap0 t') (bitmap0 t),
          find_first_free_index-full fuel t' (with_first-IsSingle _ ok) (ground arith)
              (λ k a b. full k (omega arith) b) (omega arith),
        )
        | inr last ↦
            ground (arith, ok.size, current-bitmap0 t, step, put_bitmap0 (bitmap0 t') (bitmap0 t))
      ]

  -- Behind the only bitmap comes the list's head.
  pub find_first_free_bitmap-fault :
      (t : Single) → find_first_free_bitmap alloc request (to_pm t) ≡ fault
  unfolding find_first_free_bitmap scan_ring ring_after
  find_first_free_bitmap-fault t = ground arith

  module _ (fuel : ℕ) (enough : bitmap_size ≤ fuel) where
    pub refresh-least :
        (t : Single) (j : ℕ)
        → IsSingle t
        → t.first_free ≤ j
        → page t j ≡ free
        → ((k : ℕ) → t.first_free ≤ k → k < j → page t k ≡ locked)
        → refresh alloc request fuel 0 (to_pm t) ≡ done (to_pm (with_first t j))
    unfolding refresh
    refresh-least t j ok le f below =
        let in_range : j < bitmap_size = (bit_of_free ok j f).0 in
        rw (current-bitmap0 t, find_first_free_index-least fuel t j ok le f below (omega arith))
          refl

    pub refresh-full :
        (t : Single)
        → IsSingle t
        → t.first_free < bitmap_size
        → ((k : ℕ) → t.first_free ≤ k → k < bitmap_size → page t k ≡ locked)
        → refresh alloc request fuel 0 (to_pm t) ≡ fault
    unfolding refresh
    refresh-full t ok lt full =
        rw
          (
            current-bitmap0 t,
            find_first_free_index-full fuel t ok lt full (omega arith),
            find_first_free_bitmap-fault (with_first t bitmap_size),
          )
          refl

-- ===== src/Pm/Scan.antt =====
-- The loop of `pm_request_pages` (mm/pm.c), with one bitmap: it stops at the first run of free pages.
use mimik.Base.{
  ℕ, zero, suc, ◌+◌, ◌<◌, ◌≤◌, ◌≡◌, refl, Bool, true, false, ltb, ◌==◌, if◌then◌else◌, u64, arith,
  done, inl, inr, ◌⊎◌, Bool-cases, ap, ap₂, ◌∙◌,
}
use mimik.Bitmap.Access.{locked, free, bitmap_get-view}
use mimik.Pm.State.{bitmap_size}
use mimik.Pm.Request.{Run, count_page, pages_loop}
use mimik.Pm.Single.{Single, bitmap0, to_pm, page, IsSingle, page-bit}
use mimik.Pm.Ranges.{all_free}

-- The variables of the loop behind a page that was counted.
abbrev pub at_run : Single → (start found : ℕ) → Run
at_run t start found = record {
  bitmap = bitmap0 t;
  index = start + found;
  start_index = start;
  found = found;
  retrying = false;
}

pub free_in : (t : Single) (n i j : ℕ) → all_free t i n ≡ true → i ≤ j → j < i + n → page t j ≡ free
unfolding all_free
free_in t zero i j all le lt = absurd (omega arith)
free_in t (suc n) i j all le lt = elim (Bool-cases (i == j)) [
  | inl here ↦ ground arith
  | inr there ↦ free_in t n (i + 1) j (ground arith) (ground arith) (omega arith)
]

all_free_of :
    (t : Single) (n i : ℕ) → ((j : ℕ) → i ≤ j → j < i + n → page t j ≡ free) → all_free t i n ≡ true
unfolding all_free
all_free_of t zero i h = refl
all_free_of t (suc n) i h = ground (
  arith,
  h i (omega arith) (omega arith),
  all_free_of t n (i + 1) (λ j le lt. h j (omega arith) (omega arith)),
)

-- A run of free pages that starts at `start` or behind it does not start before the next index, if
-- the page at `start + found` is locked.
past_locked :
    (t : Single) (start found num k : ℕ)
    → page t (start + found) ≡ locked
    → found < num
    → start ≤ k
    → all_free t k num ≡ true
    → start + found + 1 ≤ k
past_locked t start found num k taken lt le run = elim (Bool-cases (ltb (start + found) k)) [
  | inl before ↦ ground arith
  | inr inside ↦
      let both : page t (start + found) ≡ free =
        free_in t num k (start + found) run (ground arith) (omega arith) in
      ground arith
]

count_free :
    (t : Single) (start found : ℕ)
    → start + found < bitmap_size
    → count_page (at_run t start found) true ≡ at_run t start (found + 1)
unfolding count_page
count_free t start found lt =
    ap₂ (λ (i n : ℕ). record (at_run t start found) { index = i; found = n })
      (next (start + found) lt ∙ assoc start found) (next found (omega arith))
  where
    next : (i : ℕ) → i < bitmap_size → u64 (i + 1) ≡ i + 1
    next i h = omega arith

    assoc : (a b : ℕ) → a + b + 1 ≡ a + (b + 1)
    assoc a b = omega arith

count_locked :
    (t : Single) (start found : ℕ)
    → start + found < bitmap_size
    → count_page (at_run t start found) false ≡ at_run t (start + found + 1) 0
unfolding count_page
count_locked t start found lt =
    ap₂ (λ (i n : ℕ). record (at_run t start found) { index = i; start_index = n; found = 0 })
      (next (start + found) lt ∙ plus_zero (start + found + 1)) (next (start + found) lt)
  where
    next : (i : ℕ) → i < bitmap_size → u64 (i + 1) ≡ i + 1
    next i h = omega arith

    plus_zero : (a : ℕ) → a ≡ a + 0
    plus_zero a = omega arith

module _ (rounds num : ℕ) (t : Single) (start found : ℕ) where
  wanted : found < num → ltb found num ≡ true
  wanted more = ground arith

  in_range : IsSingle t → start + found < bitmap_size → ltb (start + found) t.super.size ≡ true
  in_range ok lt = ground (arith, ok.size)

  -- One round of the loop, on a page that is free, and on one that is locked.
  round_on :
      (c : Bool)
      → IsSingle t
      → start + found < bitmap_size
      → found < num
      → page t (start + found) ≡ (if c then free else locked)
      → pages_loop (suc rounds) num (to_pm t) (at_run t start found)
        ≡ pages_loop rounds num (to_pm t) (count_page (at_run t start found) c)
  unfolding pages_loop
  round_on true ok lt more here =
      rw (wanted more, in_range ok lt, bitmap_get-view t.super t.memory (start + found), here) refl
  round_on false ok lt more here =
      rw (wanted more, in_range ok lt, bitmap_get-view t.super t.memory (start + found), here) refl

loop-stop :
    (rounds n : ℕ) (t : Single) (start : ℕ)
    → pages_loop (suc rounds) n (to_pm t) (at_run t start n) ≡ done (at_run t start n)
unfolding pages_loop
loop-stop rounds n t start = rw (not_less n) refl
  where
    not_less : (n : ℕ) → ltb n n ≡ false
    not_less n = ground arith

-- The loop of `pm_request_pages`, where a run of free pages lies ahead: it stops at the first one.
pub pages_loop-run :
    (rounds num r : ℕ) (t : Single) (start found : ℕ)
    → IsSingle t
    → bitmap_size < start + found + rounds
    → found ≤ num
    → start ≤ r
    → r + num ≤ bitmap_size
    → all_free t r num ≡ true
    → ((j : ℕ) → start ≤ j → j < start + found → page t j ≡ free)
    → (first : ℕ) × (pages_loop rounds num (to_pm t) (at_run t start found)
        ≡ done (at_run t first num))
      × (all_free t first num ≡ true)
      × (first + num ≤ bitmap_size)
      × ((k : ℕ) → start ≤ k → all_free t k num ≡ true → first ≤ k)
pages_loop-run zero num r t start found ok more few le fits run known = absurd (omega arith)
pages_loop-run (suc rounds) num r t start found ok more few le fits run known =
    elim (Bool-cases (ltb found num)) [
      | inr full ↦
          let same : num ≡ found = ground arith in
          (
            start,
            rw same (stops found),
            all_free_of t num start (λ j a b. known j a (omega arith)),
            omega arith,
            λ k a b. a,
          )
      | inl under ↦
          let lt : start + found < bitmap_size = ground arith in
          let more_wanted : found < num = ground arith in
          elim (cell (start + found) lt) [
            | inl vacant ↦
                let (first, go, all, inside, least) =
                  pages_loop-run rounds num r t start (found + 1) ok (omega arith) (omega arith) le
                    fits run (one_more vacant) in
                (
                  first,
                  round_on rounds num t start found true ok lt more_wanted vacant
                      ∙ ap (pages_loop rounds num (to_pm t)) (count_free t start found lt)
                      ∙ go,
                  all,
                  inside,
                  least,
                )
            | inr taken ↦
                let (first, go, all, inside, least) =
                  pages_loop-run rounds num r t (start + found + 1) 0 ok (omega arith) (omega arith)
                    (past_locked t start found num r taken more_wanted le run) fits run
                    (λ j a b. absurd (omega arith)) in
                (
                  first,
                  round_on rounds num t start found false ok lt more_wanted taken
                      ∙ ap (pages_loop rounds num (to_pm t)) (count_locked t start found lt)
                      ∙ go,
                  all,
                  inside,
                  λ k a b. least k (past_locked t start found num k taken more_wanted a b) b,
                )
          ]
    ]
  where
    cell : (i : ℕ) → i < bitmap_size → (page t i ≡ free) ⊎ (page t i ≡ locked)
    cell i lt = ground (arith, page-bit ok i lt)

    one_more :
        page t (start + found) ≡ free
        → (j : ℕ) → start ≤ j
        → j < start + (found + 1)
        → page t j ≡ free
    one_more vacant j a b = elim (Bool-cases (j == start + found)) [
      | inl last ↦ ground arith
      | inr before ↦ known j a (ground arith)
    ]

    stops :
        (n : ℕ) → pages_loop (suc rounds) n (to_pm t) (at_run t start n) ≡ done (at_run t start n)
    stops n = loop-stop rounds n t start

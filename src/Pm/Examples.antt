-- ===== src/Pm/Examples.antt =====
-- Runs of mm/pm.c, and the theorems about it at concrete states.
use mimik.Base.{
  ℕ, ◌+◌, ◌*◌, ◌/◌, ◌≡◌, ◌<◌, ◌≤◌, refl, Bool, true, List, [], ◌∷◌, if◌then◌else◌, arith, Outcome,
  done, fault, ◌>>=◌, bit_and, bit_and-one, ◌^◌,
}
use mimik.Memory.{Ptr, Memory}
use mimik.Bitmap.{bit_at}
use mimik.Bitmap.Access.{locked, free, view}
use mimik.Bitmap.Count.{zeros-clear}
use mimik.Page.{page_size}
use mimik.Pm.State.{bitmap_size, to_bitmap, Pm}
use mimik.Pm.Lock.{
  pm_request_page, pm_try_lock_page, pm_try_lock_pages, pm_try_release_page, pm_try_release_pages,
}
use mimik.Pm.Init.{Segment, Layout, init_first_bitmap, compute_mem_size}
use mimik.Pm.Single.{Single, to_pm, page, IsReady}
use mimik.Pm.Pages.{
  is_free, is_locked, Changed, Accounts, pm_try_lock_page_lem, pm_request_page_lem,
  pm_try_release_page_lem,
}
use mimik.Pm.Ranges.{
  run_length, RunChanged, all_free, pm_try_lock_pages_lem, pm_try_release_pages-lock_pages,
}
use mimik.Pm.Request.{pm_request_pages}
use mimik.Pm.Requests.{pm_request_pages_lem}
use mimik.Pm.Start.{AllFit, budget, covered, compute_mem_size-covered}

abbrev blank : Memory
blank a = 0

-- 128 MB, all of them free.
abbrev pub fresh : Single
fresh = record {
  memory = blank;
  used = 0;
  unused = 0x8000000;
  node = 0x5000;
  first_free = 0;
  super = record { bytes = 4096; size = 32768; unset = 32768; map = 0x6000 };
  next_bitmap_page = 0;
}

blank-bit : (i : ℕ) → bit_at blank 0x6000 i ≡ 0
unfolding bit_at
blank-bit i = omega (arith, bit_and-one (0 / 2 ^ bit_and i 7))

pub fresh-IsReady : IsReady fresh
unfolding view
fresh-IsReady = record {
  single = record {
    bitmap = record {
      memory = λ a. omega arith;
      sized = omega arith;
      bytes = refl;
      counted = omega (arith, zeros-clear blank 0x6000 32768 (λ i lt. blank-bit i));
    };
    size = refl;
  };
  in_range = omega arith;
  is_free = ground (arith, blank-bit 0);
  below = λ k lt. absurd (omega arith);
}

-- The allocator of list nodes is not reached while there is one bitmap.
abbrev pub no_alloc : Pm → Outcome (Ptr × Pm)
no_alloc s = fault

abbrev pub rounds : ℕ
rounds = 32768

pm_try_lock_page_lem_example :
    (b : Bool) × (t' : Single) × (pm_try_lock_page no_alloc 0 rounds 0x3000 (to_pm fresh)
      ≡ done (b, to_pm t'))
    × (b ≡ is_free (page fresh (0x3000 / 4096)))
    × Changed fresh (0x3000 / 4096) locked t'
    × Accounts b fresh.used fresh.unused t'.used t'.unused
    × (fresh.super.unset ≤ t'.super.unset + 1)
    × IsReady t'
pm_try_lock_page_lem_example =
    pm_try_lock_page_lem no_alloc 0 rounds (omega arith) fresh 0x3000 (omega arith) fresh-IsReady
      (omega arith)

pm_request_page_lem_example :
    (t' : Single) × (pm_request_page no_alloc 1 rounds (to_pm fresh)
      ≡ done (fresh.first_free * page_size, to_pm t'))
    × (page fresh fresh.first_free ≡ free)
    × ((k : ℕ) → k < fresh.first_free → page fresh k ≡ locked)
    × Changed fresh fresh.first_free locked t'
    × Accounts true fresh.used fresh.unused t'.used t'.unused
    × IsReady t'
pm_request_page_lem_example =
    pm_request_page_lem no_alloc 0 rounds (omega arith) fresh fresh-IsReady (omega arith)
      (omega arith)

pm_try_release_page_lem_example :
    (b : Bool) × (t' : Single) × (pm_try_release_page no_alloc 0 rounds 0x3000 (to_pm fresh)
      ≡ done (b, to_pm t'))
    × (b ≡ is_locked (page fresh (0x3000 / 4096)))
    × Changed fresh (0x3000 / 4096) free t'
    × Accounts b fresh.unused fresh.used t'.unused t'.used
    × IsReady t'
pm_try_release_page_lem_example =
    pm_try_release_page_lem no_alloc 0 rounds (omega arith) fresh 0x3000 (omega arith) fresh-IsReady

pm_try_lock_pages_lem_example :
    (t' : Single) × (pm_try_lock_pages no_alloc 0 rounds 0x3000 0x2001 (to_pm fresh)
      ≡ done (all_free fresh (0x3000 / 4096) (run_length 0x2001), to_pm t'))
    × RunChanged fresh (0x3000 / 4096) (run_length 0x2001) locked t'
    × (fresh.super.unset ≤ t'.super.unset + run_length 0x2001)
    × IsReady t'
pm_try_lock_pages_lem_example =
    pm_try_lock_pages_lem no_alloc 0 rounds (omega arith) 0x3000 0x2001 fresh (omega arith)
      (omega arith) fresh-IsReady (omega arith)

pub fresh-page : (i : ℕ) → i < 32768 → page fresh i ≡ free
unfolding view
fresh-page i lt = ground (arith, blank-bit i)

fresh-all_free : all_free fresh 3 3 ≡ true
unfolding all_free
fresh-all_free =
    ground
      (arith, fresh-page 3 (omega arith), fresh-page 4 (omega arith), fresh-page 5 (omega arith))

pm_try_release_pages-lock_pages_example :
    (mid after : Single) × (pm_try_lock_pages no_alloc 0 rounds 0x3000 0x2001 (to_pm fresh)
      ≡ done (true, to_pm mid))
    × (pm_try_release_pages no_alloc 0 rounds 0x3000 0x2001 (to_pm mid) ≡ done (true, to_pm after))
    × ((j : ℕ) → page after j ≡ page fresh j)
    × (after.first_free ≡ fresh.first_free)
pm_try_release_pages-lock_pages_example =
    pm_try_release_pages-lock_pages no_alloc 0 rounds (omega arith) 0x3000 0x2001 fresh
      (omega arith) (omega arith) (omega arith) fresh-IsReady (omega arith) fresh-all_free

abbrev layout : Layout
layout = record {
  paddr_start = 0x100000;
  paddr_end = 0x140000;
  mem_bitmap0 = 0x5000;
  pages_bitmap0 = 0x6000;
  behind_mem_info = λ s. s;
}

-- The first megabyte is reserved, the next 127 are not.
abbrev segments : List Segment
segments =
    record { type = 0; addr = 0; length = 0x100000 }
    ∷ record { type = 1; addr = 0x100000; length = 0x7f00000 }
    ∷ []

segments-fit : AllFit segments
unfolding to_bitmap
segments-fit = ((λ h. omega arith), ((λ h. omega arith), tt))

segments-budget : budget segments < bitmap_size
unfolding to_bitmap
segments-budget = omega arith

compute_mem_size-covered_example :
    (t : Single) × ((init_first_bitmap layout (to_pm fresh) >>= λ s'.
    compute_mem_size no_alloc 0 rounds layout segments s')
      ≡ done (to_pm t))
    × ((j : ℕ) → j < bitmap_size → page t j ≡ (if covered segments j then locked else free))
    × IsReady t
compute_mem_size-covered_example =
    compute_mem_size-covered no_alloc 0 rounds (omega arith) layout segments (to_pm fresh)
      (omega arith) (λ a. omega arith) segments-fit segments-budget (λ s'. refl)

three_free : all_free fresh 5 3 ≡ true
unfolding all_free view bit_at
three_free = refl

pm_request_pages_lem_example :
    (first : ℕ) × (t' : Single) × (pm_request_pages no_alloc 1 (rounds + 1) 3 (to_pm fresh)
      ≡ done (first * page_size, to_pm t'))
    × (all_free fresh first 3 ≡ true)
    × ((k : ℕ) → all_free fresh k 3 ≡ true → first ≤ k)
    × RunChanged fresh first 3 locked t'
    × IsReady t'
pm_request_pages_lem_example =
    pm_request_pages_lem no_alloc 1 (rounds + 1) (omega arith) 3 5 fresh (omega arith) fresh-IsReady
      (omega arith) (omega arith) (omega arith) three_free

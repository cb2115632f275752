-- ===== src/Pm/ReachExamples.antt =====
-- A page of mm/pm.c requested, and the theorems on sequences of requests and releases at that state.
use mimik.Base.{ℕ, ◌<◌, ◌≡◌, true, [], ◌∷◌, arith, done}
use mimik.Bitmap.Access.{locked, free}
use mimik.Pm.Lock.{pm_request_page}
use mimik.Pm.Single.{Single, to_pm, page, IsReady}
use mimik.Pm.Pages.{Changed, Accounts, pm_request_page_lem}
use mimik.Pm.Held.{NotIn}
use mimik.Pm.Reach.{Reached, begin, request, IsHeld, Reached-IsHeld, Reached-request}
use mimik.Pm.Examples.{fresh, fresh-IsReady, no_alloc, rounds}

granted :
    (t' : Single) × (pm_request_page no_alloc 1 rounds (to_pm fresh) ≡ done (0, to_pm t'))
    × (page fresh 0 ≡ free)
    × ((k : ℕ) → k < 0 → page fresh k ≡ locked)
    × Changed fresh 0 locked t'
    × Accounts true fresh.used fresh.unused t'.used t'.unused
    × IsReady t'
granted =
    pm_request_page_lem no_alloc 0 rounds (omega arith) fresh fresh-IsReady (omega arith)
      (omega arith)

-- Page 0 is out.
one_out : Reached no_alloc 0 rounds fresh (0 ∷ []) granted.0
one_out = request fresh begin (omega arith) (omega arith) granted.1

Reached-IsHeld_example : IsHeld no_alloc 0 rounds fresh (0 ∷ []) granted.0
Reached-IsHeld_example = Reached-IsHeld no_alloc 0 rounds fresh (omega arith) fresh-IsReady one_out

Reached-request_example :
    (p : ℕ) × (t' : Single) × (pm_request_page no_alloc 1 rounds (to_pm fresh) ≡ done (p, to_pm t'))
    × NotIn p []
    × Reached no_alloc 0 rounds fresh (p ∷ []) t'
Reached-request_example =
    Reached-request no_alloc 0 rounds fresh (omega arith) fresh fresh-IsReady begin (omega arith)
      (omega arith)

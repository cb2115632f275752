-- ===== src/Ring/Walk.antt =====
-- `list_length` and `list_is_empty`.
use mimik.Base.{ℕ, zero, suc, ◌+◌, ◌<◌, ◌≡◌, List, [], ◌∷◌, length, arith, ◌==◌, done}
use mimik.Memory.{Ptr, null}
use mimik.Ring.{Links, list_is_empty, length_loop, list_length}
use mimik.Ring.Chain.{Chain, NotIn, IsRing}

length_loop-done :
    (fuel : ℕ) (h : Links) (list a : Ptr) (len : ℕ) (xs : List Ptr)
    → Chain h a xs list
    → NotIn list xs
    → NotIn null xs
    → length xs < fuel
    → length_loop fuel h list (h.next a) len ≡ done (len + length xs)
unfolding length_loop
length_loop-done zero h list a len xs c n z f = absurd (omega arith)
length_loop-done (suc fuel) h list a len [] c n z f = ground arith
length_loop-done (suc fuel) h list a len (x ∷ xs) c n z f =
    ground (arith, length_loop-done fuel h list x (len + 1) xs)

-- `list_length` of a ring with fewer nodes than rounds returns their number.
pub list_length-done :
    (fuel : ℕ) (h : Links) (list : Ptr) (xs : List Ptr)
    → IsRing h list xs
    → length xs < fuel
    → list_length fuel h list ≡ done (length xs)
unfolding list_length
list_length-done fuel h list xs r f =
    ground (arith, length_loop-done fuel h list list 0 xs r.circle r.distinct.0 r.not_null.1)

-- `list_is_empty` holds of a ring exactly when it has no node.
pub list_is_empty_iff :
    (h : Links) (list : Ptr) (xs : List Ptr)
    → IsRing h list xs
    → list_is_empty h list ≡ (length xs == 0)
list_is_empty_iff h list [] r = ground arith
list_is_empty_iff h list (x ∷ xs) r = ground arith

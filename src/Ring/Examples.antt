-- ===== src/Ring/Examples.antt =====
-- The theorems about the lists of structs/list.c at small rings.
use mimik.Base.{◌≡◌, refl, [], ◌∷◌, arith, done, fault, update}
use mimik.Memory.{null}
use mimik.Ring.{Links, list_init, list_remove}
use mimik.Ring.Chain.{IsRing}
use mimik.Ring.Insert.{SameOutside, list_init-IsRing}
use mimik.Ring.Remove.{list_remove-IsRing}

-- The head 1 with the nodes 2 and 3, and the head 5 with the node 6.
abbrev two_rings : Links
two_rings = record {
  next = update (update (update (update (update (λ _. null) 1 2) 2 3) 3 1) 5 6) 6 5;
  prev = update (update (update (update (update (λ _. null) 1 3) 2 1) 3 2) 5 6) 6 5;
}

first-IsRing : IsRing two_rings 1 (2 ∷ 3 ∷ [])
first-IsRing = record {
  circle = (refl, refl, (refl, refl, (refl, refl)));
  distinct = omega arith;
  not_null = omega arith;
}

remove_twice : (g : Links) → g.prev 9 ≡ null → list_remove 9 g ≡ fault
unfolding list_remove
remove_twice g h = ground arith

list_init-IsRing_example :
    (g : Links) × (list_init 9 two_rings ≡ done g)
    × IsRing g 9 []
    × SameOutside (9 ∷ []) two_rings g
list_init-IsRing_example = list_init-IsRing 9 two_rings (omega arith)

list_remove-IsRing_example :
    (g : Links) × (list_remove 3 two_rings ≡ done g)
    × IsRing g 1 (2 ∷ [])
    × (g.prev 3 ≡ null)
    × (g.next 3 ≡ null)
    × SameOutside (1 ∷ 2 ∷ 3 ∷ []) two_rings g
list_remove-IsRing_example = list_remove-IsRing two_rings 3 1 (2 ∷ []) [] first-IsRing

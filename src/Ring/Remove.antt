-- ===== src/Ring/Remove.antt =====
-- `list_remove`.
use mimik.Base.{◌≡◌, ◌≢◌, List, [], ◌∷◌, ◌++◌, arith, done, sym}
use mimik.Memory.{Ptr, null}
use mimik.Ring.{Links, set_next, set_prev, list_remove}
use mimik.Ring.Chain.{
  Chain, NotIn, Distinct, IsRing, SameAt-refl, SameAt-update, Chain-frame, first_or, last_or,
  next-first, prev-last, ne_first, ne_last, NotIn-left, NotIn-right, Distinct-remove,
}
use mimik.Ring.Insert.{SameOutside}

-- A chain through `e` is a chain to `e` and one from it.
pub Chain-split :
    (h : Links) (a b e : Ptr) (xs ys : List Ptr)
    → Chain h a (xs ++ e ∷ ys) b
    → Chain h a xs e × Chain h e ys b
Chain-split h a b e [] ys c = ((c.0, c.1), c.2)
Chain-split h a b e (x ∷ xs) ys c =
    let rest = Chain-split h x b e xs ys c.2 in ((c.0, c.1, rest.0), rest.1)

module _ (h : Links) (e : Ptr) where
  -- The links after `list_remove`.
  pub removed : Links
  removed =
      set_next (set_prev (set_prev (set_next h (h.prev e) (h.next e)) (h.next e) (h.prev e)) e null)
        e null

  list_remove-done :
      e ≢ null → h.prev e ≢ null → h.next e ≢ null → h.prev e ≢ e → list_remove e h ≡ done removed
  unfolding list_remove removed
  list_remove-done ne np nn d = ground arith

  -- What is left behind the predecessor of `e`.
  removed-right :
      (a b : Ptr) (ys : List Ptr)
      → h.prev e ≡ a
      → Chain h e ys b
      → a ≢ e
      → b ≢ e
      → NotIn a ys
      → NotIn e ys
      → NotIn b ys
      → Distinct ys
      → Chain removed a ys b
  unfolding removed
  removed-right a b [] p c ae be na ne nb d = (ground arith, ground arith)
  removed-right a b (y ∷ ys) p c ae be na ne nb d = (
    ground arith,
    ground arith,
    Chain-frame h removed y b ys (ground arith) (ground arith)
        (SameAt-update _ _ e null ys
          (SameAt-update _ _ (h.prev e) (h.next e) ys (SameAt-refl h.next ys) (rw p na.1)) ne.1)
        (SameAt-update _ _ e null ys
          (SameAt-update _ _ (h.next e) (h.prev e) ys (SameAt-refl h.prev ys) (rw c.0 d.0)) ne.1)
        c.2,
  )

  removed-Chain :
      (a b : Ptr) (xs ys : List Ptr)
      → Chain h a (xs ++ e ∷ ys) b
      → a ≢ e
      → b ≢ e
      → NotIn a (xs ++ e ∷ ys)
      → NotIn b (xs ++ e ∷ ys)
      → Distinct (xs ++ e ∷ ys)
      → Chain removed a (xs ++ ys) b
  unfolding removed
  removed-Chain a b [] ys c ae be na nb d = removed-right a b ys c.1 c.2 ae be na.1 d.0 nb.1 d.1
  removed-Chain a b (x ∷ xs) ys c ae be na nb d =
      let (to, from) = Chain-split h x b e xs ys c.2 in
      let p : h.prev e ≡ last_or x xs = prev-last h x e xs to in
      let n : h.next e ≡ first_or b ys = next-first h e b ys from in
      let pa : a ≢ last_or x xs = ne_last a x xs na.0 (NotIn-left a xs (e ∷ ys) na.1) in
      let right = NotIn-right x xs (e ∷ ys) d.0 in
      let nx : x ≢ first_or b ys = ne_first x b ys (λ q. nb.0 (sym q)) right.1 in
      let xe : x ≢ e = right.0 in
      (ground arith, ground arith, removed-Chain x b xs ys c.2 xe be d.0 nb.1 d.1)

  -- `list_remove` of a node of a ring takes that node out, leaves the others in their order, and
  -- sets both links of the node to null. It changes the links of no node outside the ring.
  pub list_remove-IsRing :
      (list : Ptr) (xs ys : List Ptr)
      → IsRing h list (xs ++ e ∷ ys)
      → (g : Links) × (list_remove e h ≡ done g)
        × IsRing g list (xs ++ ys)
        × (g.prev e ≡ null)
        × (g.next e ≡ null)
        × SameOutside (list ∷ xs ++ e ∷ ys) h g
  unfolding removed
  list_remove-IsRing list xs ys r =
      let (to, from) = Chain-split h list list e xs ys r.circle in
      let p : h.prev e ≡ last_or list xs = prev-last h list e xs to in
      let n : h.next e ≡ first_or list ys = next-first h e list ys from in
      let zs = NotIn-left null xs (e ∷ ys) r.not_null.1 in
      let ze = NotIn-right null xs (e ∷ ys) r.not_null.1 in
      let le = NotIn-right list xs (e ∷ ys) r.distinct.0 in
      let (rest, out) = Distinct-remove xs e ys r.distinct.1 in
      let (around, outside) = Distinct-remove (list ∷ xs) e ys r.distinct in
      let zp : null ≢ last_or list xs = ne_last null list xs r.not_null.0 zs in
      let zn : null ≢ first_or list ys = ne_first null list ys r.not_null.0 ze.1 in
      let ep : e ≢ last_or list xs = ne_last e list xs outside.0 (NotIn-left e xs ys outside.1) in
      (
        removed,
        list_remove-done (λ q. ze.0 (sym q)) (λ q. zp (ground arith)) (λ q. zn (ground arith))
            (λ q. ep (ground arith)),
        record {
          circle =
              removed-Chain list list xs ys r.circle le.0 le.0 r.distinct.0 r.distinct.0
                r.distinct.1;
          distinct = around;
          not_null = (Distinct-remove (null ∷ list ∷ xs) e ys (r.not_null, r.distinct)).0.0;
        },
        ground arith,
        ground arith,
        λ x o.
            let oe = NotIn-right x xs (e ∷ ys) o.1 in
            let xp : x ≢ last_or list xs = ne_last x list xs o.0 (NotIn-left x xs (e ∷ ys) o.1) in
            let xn : x ≢ first_or list ys = ne_first x list ys o.0 oe.1 in
            let xe : x ≢ e = oe.0 in (ground arith, ground arith),
      )

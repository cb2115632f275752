-- ===== src/Ring/Join.antt =====
-- `list_join`.
use mimik.Base.{◌≡◌, ◌≢◌, List, [], ◌∷◌, ◌++◌, arith, done, sym}
use mimik.Memory.{Ptr, null}
use mimik.Ring.{Links, set_next, set_prev, list_join}
use mimik.Ring.Chain.{
  Chain, NotIn, Distinct, Disjoint, IsRing, SameAt-refl, SameAt-update, Chain-frame, first_or,
  last_or, next-first, prev-last, ne_first, ne_last, NotIn-append, Distinct-append,
}

-- Joining an empty list changes nothing.
list_join-nil :
    (h : Links) (list other : Ptr)
    → IsRing h other []
    → list ≢ null
    → list ≢ other
    → list_join list other h ≡ done h
unfolding list_join
list_join-nil h list other r ne d = ground arith

module _ (h : Links) (list other : Ptr) where
  -- The links after a `list_join` with a list that is not empty.
  pub joined : Links
  joined =
      set_next
        (set_prev (set_next (set_prev h (h.next other) list) (h.prev other) (h.next list))
          (h.next list) (h.prev other))
        list (h.next other)

  list_join-done :
      list ≢ null
      → list ≢ other
      → h.next other ≢ other
      → h.next other ≢ null
      → h.prev other ≢ null
      → h.next list ≢ null
      → h.prev other ≢ list
      → h.prev other ≢ other
      → h.next other ≢ h.next list
      → other ≢ h.next list
      → list_join list other h ≡ done joined
  unfolding list_join joined
  list_join-done nl lo e1 e2 e3 e4 e5 e6 e7 e8 = ground arith

  -- The last node of the other list, `y`, leads on into the list.
  joined-right :
      (y : Ptr) (xs : List Ptr)
      → h.prev other ≡ y
      → Chain h list xs list
      → y ≢ list
      → NotIn y xs
      → NotIn list xs
      → Distinct xs
      → NotIn (h.next other) xs
      → h.next other ≢ list
      → Chain joined y xs list
  unfolding joined
  joined-right y [] p c yl ny nl d nf fl = (ground arith, ground arith)
  joined-right y (x ∷ xs) p c yl ny nl d nf fl = (
    ground arith,
    ground arith,
    Chain-frame h joined x list xs (ground arith) (ground arith)
        (SameAt-update _ _ list (h.next other) xs
          (SameAt-update _ _ (h.prev other) (h.next list) xs (SameAt-refl h.next xs) (rw p ny.1))
          nl.1)
        (SameAt-update _ _ (h.next list) (h.prev other) xs
          (SameAt-update _ _ (h.next other) list xs (SameAt-refl h.prev xs) nf.1) (rw c.0 d.0))
        c.2,
  )

  joined-Chain :
      (y : Ptr) (ys xs : List Ptr)
      → Chain h y ys other
      → Chain h list xs list
      → y ≢ list
      → NotIn y ys
      → NotIn list ys
      → NotIn list xs
      → Distinct ys
      → Distinct xs
      → NotIn y xs
      → Disjoint ys xs
      → NotIn (h.next other) ys
      → NotIn (h.next other) xs
      → h.next other ≢ list
      → Chain joined y (ys ++ xs) list
  unfolding joined
  joined-Chain y [] xs c d yl ny ly lx dy dx nx j f g fl = joined-right y xs c.1 d yl nx lx dx g fl
  joined-Chain y (z ∷ ys) xs c d yl ny ly lx dy dx nx j f g fl =
      let p : h.prev other ≡ last_or z ys = prev-last h z other ys c.2 in
      let yp : y ≢ last_or z ys = ne_last y z ys ny.0 ny.1 in
      let n : h.next list ≡ first_or list xs = next-first h list list xs d in
      let zn : z ≢ first_or list xs = ne_first z list xs (λ q. ly.0 (sym q)) j.0 in
      (
        ground arith,
        ground arith,
        joined-Chain z ys xs c.2 d (λ q. ly.0 (sym q)) dy.0 ly.1 lx dy.1 dx j.0 j.1 f.1 g fl,
      )

  -- `list_join` puts the nodes of the other ring, in their order, behind the head and in front of
  -- the nodes that were there, if the two rings share no address and the other is not empty. The
  -- head of the other ring keeps its links.
  pub list_join-append :
      (y : Ptr) (ys xs : List Ptr)
      → IsRing h list xs
      → IsRing h other (y ∷ ys)
      → Disjoint (other ∷ y ∷ ys) (list ∷ xs)
      → (g : Links) × (list_join list other h ≡ done g)
        × IsRing g list (y ∷ ys ++ xs)
        × (g.next other ≡ y)
        × (g.prev other ≡ h.prev other)
  unfolding joined
  list_join-append y ys xs r o j =
      let p : h.prev other ≡ last_or y ys = prev-last h y other ys o.circle.2 in
      let n : h.next list ≡ first_or list xs = next-first h list list xs r.circle in
      let op : other ≢ last_or y ys = ne_last other y ys o.distinct.0.0 o.distinct.0.1 in
      let zp : null ≢ last_or y ys = ne_last null y ys o.not_null.1.0 o.not_null.1.1 in
      let zn : null ≢ first_or list xs = ne_first null list xs r.not_null.0 r.not_null.1 in
      let on : other ≢ first_or list xs = ne_first other list xs j.0.0 j.0.1 in
      let yn : y ≢ first_or list xs = ne_first y list xs j.1.0.0 j.1.0.1 in
      let ly = list_apart y ys j.1 in
      let lp : list ≢ last_or y ys = ne_last list y ys ly.0 ly.1 in
      (
        joined,
        list_join-done (λ q. r.not_null.0 (sym q)) (λ q. j.0.0 (sym q))
            (λ q. o.distinct.0.0 (ground arith)) (λ q. o.not_null.1.0 (ground arith))
            (λ q. zp (ground arith)) (λ q. zn (ground arith)) (λ q. lp (ground arith))
            (λ q. op (ground arith)) (λ q. yn (ground arith)) (λ q. on (ground arith)),
        record {
          circle = (
            ground arith,
            ground arith,
            joined-Chain y ys xs o.circle.2 r.circle j.1.0.0 o.distinct.1.0 ly.1 r.distinct.0
                o.distinct.1.1 r.distinct.1 j.1.0.1 (tails ys j.1.1) (rw o.circle.0 o.distinct.1.0)
                (rw o.circle.0 j.1.0.1) (rw o.circle.0 j.1.0.0),
          );
          distinct = (
            NotIn-append list (y ∷ ys) xs ly r.distinct.0,
            Distinct-append (y ∷ ys) xs o.distinct.1 r.distinct.1 (tails (y ∷ ys) j.1),
          );
          not_null = (r.not_null.0, NotIn-append null (y ∷ ys) xs o.not_null.1 r.not_null.1);
        },
        ground arith,
        ground arith,
      )
    where
      tails : (zs : List Ptr) → Disjoint zs (list ∷ xs) → Disjoint zs xs
      tails [] d = tt
      tails (z ∷ zs) d = (d.0.1, tails zs d.1)

      apart_rest : (zs : List Ptr) → Disjoint zs (list ∷ xs) → NotIn list zs
      apart_rest [] d = tt
      apart_rest (z ∷ zs) d = ((λ q. d.0.0 (sym q)), apart_rest zs d.1)

      list_apart : (z : Ptr) (zs : List Ptr) → Disjoint (z ∷ zs) (list ∷ xs) → NotIn list (z ∷ zs)
      list_apart z zs d = apart_rest (z ∷ zs) d

-- ===== src/Ring/Insert.antt =====
-- `list_init` and `list_insert`.
use mimik.Base.{◌≡◌, ◌≢◌, List, [], ◌∷◌, arith, done, sym}
use mimik.Memory.{Ptr, null}
use mimik.Ring.{Links, set_next, set_prev, list_init, list_insert}
use mimik.Ring.Chain.{
  Chain, NotIn, Distinct, IsRing, SameAt-refl, SameAt-update, Chain-frame, first_or, next-first,
  ne_first,
}

-- No link of a node outside `xs` differs.
abbrev pub SameOutside : List Ptr → Links → Links → Type 0
SameOutside xs h g = (x : Ptr) → NotIn x xs → (g.next x ≡ h.next x) × (g.prev x ≡ h.prev x)

-- `list_init` makes any address that is not null the head of an empty list, and changes the links
-- of no other node.
pub list_init-IsRing :
    (list : Ptr) (h : Links)
    → list ≢ null
    → (g : Links) × (list_init list h ≡ done g) × IsRing g list [] × SameOutside (list ∷ []) h g
unfolding list_init
list_init-IsRing list h ne = (
  set_prev (set_next h list list) list list,
  ground arith,
  record {
    circle = (ground arith, ground arith);
    distinct = (tt, tt);
    not_null = ((λ e. ne (sym e)), tt);
  },
  λ x out. (ground arith, ground arith),
)

module _ (h : Links) (list elem : Ptr) where
  -- The links after `list_insert`.
  pub inserted : Links
  inserted =
      set_prev (set_next (set_next (set_prev h elem list) elem (h.next list)) list elem)
        (h.next list) elem

  list_insert-done :
      list ≢ null
      → elem ≢ null
      → elem ≢ list
      → h.next list ≢ null
      → list_insert list elem h ≡ done inserted
  unfolding list_insert inserted
  list_insert-done nl ne d nn = ground arith

  inserted-Chain :
      (xs : List Ptr)
      → Chain h list xs list
      → NotIn elem (list ∷ xs)
      → Distinct (list ∷ xs)
      → Chain inserted list (elem ∷ xs) list
  unfolding inserted
  inserted-Chain [] c n d = (ground arith, ground arith, (ground arith, ground arith))
  inserted-Chain (x ∷ xs) c n d = (
    ground arith,
    ground arith,
    (
      ground arith,
      ground arith,
      Chain-frame h inserted x list xs (ground arith) (ground arith)
          (SameAt-update _ _ list elem xs
            (SameAt-update _ _ elem (h.next list) xs (SameAt-refl h.next xs) n.1.1) d.0.1)
          (SameAt-update _ _ (h.next list) elem xs
            (SameAt-update _ _ elem list xs (SameAt-refl h.prev xs) n.1.1) (rw c.0 d.1.0))
          c.2,
    ),
  )

  -- `list_insert` of a node that is not null and not in the list puts it behind the head, in front
  -- of all others. It changes the links of no node outside the new list.
  pub list_insert-IsRing :
      (xs : List Ptr)
      → IsRing h list xs
      → elem ≢ null
      → NotIn elem (list ∷ xs)
      → (g : Links) × (list_insert list elem h ≡ done g)
        × IsRing g list (elem ∷ xs)
        × SameOutside (list ∷ elem ∷ xs) h g
  unfolding inserted
  list_insert-IsRing xs r ne n =
      let first : h.next list ≡ first_or list xs = next-first h list list xs r.circle in
      let nn : null ≢ first_or list xs = ne_first null list xs r.not_null.0 r.not_null.1 in
      (
        inserted,
        list_insert-done (λ e. r.not_null.0 (sym e)) ne n.0 (λ e. nn (ground arith)),
        record {
          circle = inserted-Chain xs r.circle n r.distinct;
          distinct = (((λ e. n.0 (sym e)), r.distinct.0), (n.1, r.distinct.1));
          not_null = (r.not_null.0, ((λ e. ne (sym e)), r.not_null.1));
        },
        λ x out.
            let other : x ≢ first_or list xs = ne_first x list xs out.0 out.1.1 in
            (ground arith, ground arith),
      )

-- ===== src/Ring/Chain.antt =====
-- What a ring of links stands for: the sequence of its nodes (structs/list.c).
use mimik.Base.{◌≡◌, ◌≢◌, refl, List, [], ◌∷◌, ◌++◌, update, arith}
use mimik.Memory.{Ptr, null}
use mimik.Ring.{Links}

-- From `a` the links lead in both directions through `xs` to `b`.
abbrev pub Chain : Links → Ptr → List Ptr → Ptr → Type 0
Chain h a [] b = (h.next a ≡ b) × (h.prev b ≡ a)
Chain h a (x ∷ xs) b = (h.next a ≡ x) × (h.prev x ≡ a) × Chain h x xs b

abbrev pub NotIn : Ptr → List Ptr → Type 0
NotIn k [] = Unit {0}
NotIn k (x ∷ xs) = (k ≢ x) × NotIn k xs

abbrev pub Distinct : List Ptr → Type 0
Distinct [] = Unit {0}
Distinct (x ∷ xs) = NotIn x xs × Distinct xs

abbrev pub Disjoint : List Ptr → List Ptr → Type 0
Disjoint [] ys = Unit {0}
Disjoint (x ∷ xs) ys = NotIn x ys × Disjoint xs ys

-- The head `list` holds the nodes `xs`: a circle of distinct addresses, none of them null.
pub record IsRing (h : Links) (list : Ptr) (xs : List Ptr) : Type 0 where
  pub circle : Chain h list xs list
  pub distinct : Distinct (list ∷ xs)
  pub not_null : NotIn null (list ∷ xs)

-- Two maps agree at every address of a list.
abbrev pub SameAt : (Ptr → Ptr) → (Ptr → Ptr) → List Ptr → Type 0
SameAt f g [] = Unit {0}
SameAt f g (x ∷ xs) = (f x ≡ g x) × SameAt f g xs

pub SameAt-refl : (f : Ptr → Ptr) (xs : List Ptr) → SameAt f f xs
SameAt-refl f [] = tt
SameAt-refl f (x ∷ xs) = (refl, SameAt-refl f xs)

pub SameAt-update :
    (f g : Ptr → Ptr) (k v : Ptr) (xs : List Ptr)
    → SameAt f g xs
    → NotIn k xs
    → SameAt (update f k v) g xs
SameAt-update f g k v [] s n = tt
SameAt-update f g k v (x ∷ xs) s n = (ground arith, SameAt-update f g k v xs s.1 n.1)

-- A chain survives a change that spares the forward links of all but its end and the backward
-- links of all but its start.
pub Chain-frame :
    (h g : Links) (a b : Ptr) (xs : List Ptr)
    → g.next a ≡ h.next a
    → g.prev b ≡ h.prev b
    → SameAt g.next h.next xs
    → SameAt g.prev h.prev xs
    → Chain h a xs b
    → Chain g a xs b
Chain-frame h g a b [] n p sn sp c = (ground arith, ground arith)
Chain-frame h g a b (x ∷ xs) n p sn sp c =
    (ground arith, ground arith, Chain-frame h g x b xs sn.0 p sn.1 sp.1 c.2)

-- The last node of `xs`, or `a` if there is none.
abbrev pub last_or : Ptr → List Ptr → Ptr
last_or a [] = a
last_or a (x ∷ xs) = last_or x xs

pub prev-last : (h : Links) (a b : Ptr) (xs : List Ptr) → Chain h a xs b → h.prev b ≡ last_or a xs
prev-last h a b [] c = c.1
prev-last h a b (x ∷ xs) c = prev-last h x b xs c.2

abbrev pub first_or : Ptr → List Ptr → Ptr
first_or b [] = b
first_or b (x ∷ xs) = x

pub next-first : (h : Links) (a b : Ptr) (xs : List Ptr) → Chain h a xs b → h.next a ≡ first_or b xs
next-first h a b [] c = c.0
next-first h a b (x ∷ xs) c = c.0

-- An address outside a list differs from its last node.
pub ne_last : (k a : Ptr) (xs : List Ptr) → k ≢ a → NotIn k xs → k ≢ last_or a xs
ne_last k a [] ne n = ne
ne_last k a (x ∷ xs) ne n = ne_last k x xs n.0 n.1

pub ne_first : (k b : Ptr) (xs : List Ptr) → k ≢ b → NotIn k xs → k ≢ first_or b xs
ne_first k b [] ne n = ne
ne_first k b (x ∷ xs) ne n = n.0

pub NotIn-append : (k : Ptr) (xs ys : List Ptr) → NotIn k xs → NotIn k ys → NotIn k (xs ++ ys)
NotIn-append k [] ys n m = m
NotIn-append k (x ∷ xs) ys n m = (n.0, NotIn-append k xs ys n.1 m)

pub NotIn-left : (k : Ptr) (xs ys : List Ptr) → NotIn k (xs ++ ys) → NotIn k xs
NotIn-left k [] ys n = tt
NotIn-left k (x ∷ xs) ys n = (n.0, NotIn-left k xs ys n.1)

pub NotIn-right : (k : Ptr) (xs ys : List Ptr) → NotIn k (xs ++ ys) → NotIn k ys
NotIn-right k [] ys n = n
NotIn-right k (x ∷ xs) ys n = NotIn-right k xs ys n.1

pub Distinct-append :
    (xs ys : List Ptr) → Distinct xs → Distinct ys → Disjoint xs ys → Distinct (xs ++ ys)
Distinct-append [] ys d e j = e
Distinct-append (x ∷ xs) ys d e j = (NotIn-append x xs ys d.0 j.0, Distinct-append xs ys d.1 e j.1)

-- The parts of a list of distinct nodes around one of them.
pub Distinct-remove :
    (xs : List Ptr) (e : Ptr) (ys : List Ptr)
    → Distinct (xs ++ e ∷ ys)
    → Distinct (xs ++ ys) × NotIn e (xs ++ ys)
Distinct-remove [] e ys d = (d.1, d.0)
Distinct-remove (x ∷ xs) e ys d =
    let rest = Distinct-remove xs e ys d.1 in
    let right = NotIn-right x xs (e ∷ ys) d.0 in
    (
      (NotIn-append x xs ys (NotIn-left x xs (e ∷ ys) d.0) right.1, rest.0),
      ((λ q. right.0 (ground arith)), rest.1),
    )

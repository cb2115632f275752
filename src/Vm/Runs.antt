-- ===== src/Vm/Runs.antt =====
-- Changes to a run of entries of one last-level table, and to the entries on the way to it
-- (arch/x86_64/mm/vm.c), as the walk of the tables sees them.
use mimik.Base.{
  ℕ, zero, suc, ◌+◌, ◌-◌, ◌*◌, ◌^◌, ◌<◌, ◌≤◌, ◌≡◌, ◌⊎◌, refl, Bool, ◌&&◌, ltb, leb, ◌==◌,
  if◌then◌else◌, u64, arith, ◌∙◌, inl, inr, List, [], ◌∷◌, Option, none, some, Option-cases,
}
use mimik.Vm.State.{Pte, pte_paddr, Table, put_entry, indices_of}
use mimik.Vm.Flag.{updated}
use mimik.Vm.Walk.{leaf, translate}

-- The last-level table to which a list of indices leads.
unfoldable pub last_table : (ℕ → Table) → ℕ → List ℕ → Option ℕ
last_table tables f [] = none
last_table tables f (i ∷ []) = some f
last_table tables f (i ∷ j ∷ index) =
    if (tables f i).present then last_table tables (pte_paddr (tables f i)) (j ∷ index) else none

abbrev pub last_index : ℕ → List ℕ → ℕ
last_index i [] = i
last_index i (j ∷ index) = last_index j index

abbrev entry_at : (ℕ → Table) → ℕ → Option ℕ → Option (ℕ × ℕ)
entry_at tables k none = none
entry_at tables k (some g) = if (tables g k).present then some (g, k) else none

pub leaf-last_table :
    (tables : ℕ → Table) (index : List ℕ) (i f : ℕ)
    → leaf tables f (i ∷ index)
      ≡ entry_at tables (last_index i index) (last_table tables f (i ∷ index))
unfolding leaf last_table
leaf-last_table tables [] i f = refl
leaf-last_table tables (j ∷ index) i f =
    ground (arith, leaf-last_table tables index j (pte_paddr (tables f i)))

-- The same entries are present, and lead to the same pages.
pub record SameShape (tables tables' : ℕ → Table) : Type 0 where
  pub present : (f i : ℕ) → (tables' f i).present ≡ (tables f i).present
  pub paddr : (f i : ℕ) → pte_paddr (tables' f i) ≡ pte_paddr (tables f i)

pub leaf-SameShape :
    {tables tables' : ℕ → Table} (same : SameShape tables tables') (index : List ℕ) (f : ℕ)
    → leaf tables' f index ≡ leaf tables f index
unfolding leaf
leaf-SameShape same [] f = refl
leaf-SameShape same (i ∷ []) f = ground (arith, same.present f i)
leaf-SameShape {tables} same (i ∷ j ∷ index) f =
    rw (same.present f i, same.paddr f i)
      (ground (arith, leaf-SameShape same (j ∷ index) (pte_paddr (tables f i))))

pub last_table-SameShape :
    {tables tables' : ℕ → Table} (same : SameShape tables tables') (index : List ℕ) (f : ℕ)
    → last_table tables' f index ≡ last_table tables f index
unfolding last_table
last_table-SameShape same [] f = refl
last_table-SameShape same (i ∷ []) f = refl
last_table-SameShape {tables} same (i ∷ j ∷ index) f =
    rw (same.present f i, same.paddr f i)
      (ground (arith, last_table-SameShape same (j ∷ index) (pte_paddr (tables f i))))

pub translate-SameShape :
    {tables tables' : ℕ → Table} (same : SameShape tables tables') (root v : ℕ)
    → translate tables' root v ≡ translate tables root v
unfolding translate
translate-SameShape {tables} same root v =
    let shape = leaf-SameShape same (indices_of v) root in
    elim (Option-cases (leaf tables root (indices_of v))) [
      | inl absent ↦ ground (arith, shape, absent)
      | inr ((f, i), here) ↦ ground (arith, shape, here, same.paddr f i)
    ]

pub SameShape-trans : {t1 t2 t3 : ℕ → Table} → SameShape t1 t2 → SameShape t2 t3 → SameShape t1 t3
SameShape-trans a b = record {
  present = λ f i. b.present f i ∙ a.present f i;
  paddr = λ f i. b.paddr f i ∙ a.paddr f i;
}

-- One entry written so that its shape stays.
pub put_entry-SameShape :
    (tables : ℕ → Table) (g k : ℕ) (e : Pte)
    → e.present ≡ (tables g k).present
    → pte_paddr e ≡ pte_paddr (tables g k)
    → SameShape tables (put_entry tables g k e)
put_entry-SameShape tables g k e there page = record {
  present = λ f i. ground arith;
  paddr = λ f i. ground arith;
}

-- `update_pt_pte_flags` of every entry on the way to the last level.
abbrev pub path_updated : ℕ → (ℕ → Table) → ℕ → List ℕ → (ℕ → Table)
path_updated flags tables f [] = tables
path_updated flags tables f (i ∷ []) = tables
path_updated flags tables f (i ∷ j ∷ index) =
    path_updated flags (put_entry tables f i (updated (tables f i) flags)) (pte_paddr (tables f i))
      (j ∷ index)

updated-SameShape :
    (flags : ℕ) (tables : ℕ → Table) (f i : ℕ)
    → SameShape tables (put_entry tables f i (updated (tables f i) flags))
unfolding updated
updated-SameShape flags tables f i = put_entry-SameShape tables f i _ refl refl

pub path_updated-SameShape :
    (flags : ℕ) (tables : ℕ → Table) (f : ℕ) (index : List ℕ)
    → SameShape tables (path_updated flags tables f index)
path_updated-SameShape flags tables f [] = record { present = λ f i. refl; paddr = λ f i. refl }
path_updated-SameShape flags tables f (i ∷ []) = record {
  present = λ f i. refl;
  paddr = λ f i. refl;
}
path_updated-SameShape flags tables f (i ∷ j ∷ index) =
    SameShape-trans (updated-SameShape flags tables f i) (
      path_updated-SameShape flags (put_entry tables f i (updated (tables f i) flags))
        (pte_paddr (tables f i)) (j ∷ index))

-- `n` entries of table `g` from `i` on, each replaced by `new` of an address that goes on by a page.
abbrev pub put_run : (ℕ → Pte → Pte) → ℕ → (ℕ → Table) → ℕ → ℕ → ℕ → (ℕ → Table)
put_run new a tables g i zero = tables
put_run new a tables g i (suc n) =
    put_run new (u64 (a + 4096)) (put_entry tables g i (new a (tables g i))) g (i + 1) n

abbrev pub in_entries : ℕ → ℕ → ℕ → ℕ → ℕ → Bool
in_entries g i n f j = (f == g) && (leb i j && ltb j (i + n))

next_address :
    (a i j : ℕ) → i < j → u64 (u64 (a + 4096) + (j - (i + 1)) * 4096) ≡ u64 (a + (j - i) * 4096)
next_address a i j lt = omega arith

first_address : (a i j : ℕ) → a < 2 ^ 64 → j ≡ i → u64 (a + (j - i) * 4096) ≡ a
first_address a i j lt e = omega arith

pub put_run-at :
    (new : ℕ → Pte → Pte) (n a : ℕ) (tables : ℕ → Table) (g i f j : ℕ)
    → a < 2 ^ 64
    → put_run new a tables g i n f j
      ≡ (if in_entries g i n f j then new (u64 (a + (j - i) * 4096)) (tables f j) else tables f j)
put_run-at new zero a tables g i f j lt = ground arith
put_run-at new (suc n) a tables g i f j lt =
    let rest =
      put_run-at new n (u64 (a + 4096)) (put_entry tables g i (new a (tables g i))) g (i + 1) f j
        (omega arith) in
    elim (later i j) [
      | inl after ↦ ground (arith, rest, next_address a i j after)
      | inr not_after ↦ ground (arith, rest, first_address a i j lt)
    ]
  where
    later : (i j : ℕ) → (i < j) ⊎ (j ≤ i)
    later i j = ground arith

-- ===== src/Vm/Effect.antt =====
-- What a change to a run of entries of one last-level table does to the translation of addresses
-- (arch/x86_64/mm/vm.c).
use mimik.Base.{
  ℕ, ◌+◌, ◌-◌, ◌*◌, ◌/◌, ◌%◌, ◌^◌, ◌<◌, ◌≡◌, refl, Bool, false, if◌then◌else◌, u64, arith, ◌∙◌, sym,
  inl, inr, List, [], ◌∷◌, length, Option, none, some, Option-cases,
}
use mimik.Vm.State.{Pte, pte_paddr, Table, indices_of}
use mimik.Vm.Lookup.{pt_last_level}
use mimik.Vm.Walk.{translate}
use mimik.Vm.Backing.{IsLevelled}
use mimik.Vm.Runs.{last_table, leaf-last_table, SameShape, put_run, put_run-at, in_entries}

pub last_table-level :
    {tables : ℕ → Table} {root : ℕ} (l : IsLevelled tables root) (index : List ℕ) (i f g : ℕ)
    → l.level_of f + length index ≡ pt_last_level
    → last_table tables f (i ∷ index) ≡ some g
    → l.level_of g ≡ pt_last_level
unfolding last_table
last_table-level l [] i f g depth h = ground arith
last_table-level {tables} l (j ∷ index) i f g depth h =
    ground (arith, l.down f i, last_table-level l index j (pte_paddr (tables f i)) g)

-- Tables above the last level are as they were.
abbrev KeepsUpper : {tables : ℕ → Table} {root : ℕ} → IsLevelled tables root → (ℕ → Table) → Type 0
KeepsUpper {tables} l tables' = (f j : ℕ) → l.level_of f < pt_last_level → tables' f j ≡ tables f j

pub last_table-KeepsUpper :
    {tables tables' : ℕ → Table} {root : ℕ} (l : IsLevelled tables root)
    → KeepsUpper l tables'
    → (index : List ℕ) (i f : ℕ) → l.level_of f + length index ≡ pt_last_level
    → last_table tables' f (i ∷ index) ≡ last_table tables f (i ∷ index)
unfolding last_table
last_table-KeepsUpper l keeps [] i f depth = refl
last_table-KeepsUpper {tables} l keeps (j ∷ index) i f depth =
    rw (keeps f i (omega arith))
      (ground (arith, l.down f i, last_table-KeepsUpper l keeps index j (pte_paddr (tables f i))))

pub put_run-KeepsUpper :
    {tables : ℕ → Table} {root : ℕ} (l : IsLevelled tables root) (new : ℕ → Pte → Pte) (n a g i : ℕ)
    → a < 2 ^ 64
    → l.level_of g ≡ pt_last_level
    → KeepsUpper l (put_run new a tables g i n)
put_run-KeepsUpper {tables} l new n a g i lt last f j upper =
    ground (arith, put_run-at new n a tables g i f j lt)

pub KeepsUpper-IsLevelled :
    {tables tables' : ℕ → Table} {root : ℕ} (l : IsLevelled tables root)
    → KeepsUpper l tables'
    → IsLevelled tables' root
KeepsUpper-IsLevelled l keeps = record {
  level_of = l.level_of;
  top = l.top;
  down = λ f i lt there. ground (arith, keeps f i lt, l.down f i);
}

pub SameShape-IsLevelled :
    {tables tables' : ℕ → Table} {root : ℕ}
    → SameShape tables tables'
    → IsLevelled tables root
    → IsLevelled tables' root
SameShape-IsLevelled same l = record {
  level_of = l.level_of;
  top = l.top;
  down = λ f i lt there. rw (same.paddr f i) (l.down f i lt (sym (same.present f i) ∙ there));
}

-- Whether an address is mapped by one of `n` entries of table `g` from `i` on.
abbrev hit : ℕ → ℕ → ℕ → ℕ → Option ℕ → Bool
hit g i n k none = false
hit g i n k (some f) = in_entries g i n f k

abbrev pub hits : (ℕ → Table) → (root g i n v : ℕ) → Bool
hits tables root g i n v = hit g i n (v / 2 ^ 12 % 512) (last_table tables root (indices_of v))

-- What an address translates to through its last-level entry.
abbrev pub through : Pte → ℕ → Option ℕ
through e v = if e.present then some (pte_paddr e + v % 4096) else none

abbrev pub through_table : (ℕ → Table) → ℕ → Option ℕ → Option ℕ
through_table tables v none = none
through_table tables v (some f) = through (tables f (v / 2 ^ 12 % 512)) v

pub translate-through :
    (tables : ℕ → Table) (root v : ℕ)
    → translate tables root v ≡ through_table tables v (last_table tables root (indices_of v))
unfolding translate indices_of
translate-through tables root v =
    let index = v / 2 ^ 30 % 512 ∷ v / 2 ^ 21 % 512 ∷ v / 2 ^ 12 % 512 ∷ [] in
    let whole = leaf-last_table tables index (v / 2 ^ 39 % 512) root in
    elim (Option-cases (last_table tables root (indices_of v))) [
      | inl absent ↦ ground (arith, whole, absent)
      | inr (f, here) ↦ ground (arith, whole, here)
    ]

-- The addresses that the run maps translate through the new entries, and all others as before.
pub put_run-translate :
    {tables : ℕ → Table} {root : ℕ} (l : IsLevelled tables root) (new : ℕ → Pte → Pte)
    (n a g i v : ℕ)
    → a < 2 ^ 64
    → l.level_of g ≡ pt_last_level
    → translate (put_run new a tables g i n) root v ≡ (
        if hits tables root g i n v
        then through (new (u64 (a + (v / 2 ^ 12 % 512 - i) * 4096)) (tables g (v / 2 ^ 12 % 512))) v
        else translate tables root v)
unfolding indices_of
put_run-translate {tables} {root} l new n a g i v lt last =
    let tables' = put_run new a tables g i n in
    let k = v / 2 ^ 12 % 512 in
    let index = v / 2 ^ 30 % 512 ∷ v / 2 ^ 21 % 512 ∷ k ∷ [] in
    let same =
      last_table-KeepsUpper l (put_run-KeepsUpper l new n a g i lt last) index (v / 2 ^ 39 % 512)
        root (omega (arith, l.top)) in
    elim (Option-cases (last_table tables root (indices_of v))) [
      | inl absent ↦
          ground
            (arith, translate-through tables' root v, translate-through tables root v, same, absent)
      | inr (f, here) ↦ ground (
        arith,
        translate-through tables' root v,
        translate-through tables root v,
        same,
        here,
        put_run-at new n a tables g i f k lt,
      )
    ]

pub put_run-IsLevelled :
    {tables : ℕ → Table} {root : ℕ} (l : IsLevelled tables root) (new : ℕ → Pte → Pte) (n a g i : ℕ)
    → a < 2 ^ 64
    → l.level_of g ≡ pt_last_level
    → IsLevelled (put_run new a tables g i n) root
put_run-IsLevelled l new n a g i lt last =
    KeepsUpper-IsLevelled l (put_run-KeepsUpper l new n a g i lt last)

-- ===== src/Vm/Mapped.antt =====
-- What `vm_map_pages` does to the translation of addresses, and `vm_unmap_pages` behind it
-- (arch/x86_64/mm/vm.c).
use mimik.Base.{
  ℕ, ◌+◌, ◌-◌, ◌*◌, ◌/◌, ◌%◌, ◌^◌, ◌<◌, ◌≤◌, ◌≡◌, ◌⊎◌, inl, inr, refl, Bool, true, false,
  if◌then◌else◌, u64, arith, ◌∙◌, ap, sym, [], ◌∷◌, Option, none, some, done, success, Outcome,
  Option-cases, Bool-cases,
}
use mimik.Memory.{Ptr}
use mimik.Pm.State.{Pm}
use mimik.Vm.State.{pt_length, set_pte, indices_of, direct, Vm, Table, and_then}
use mimik.Vm.Lookup.{pt_last_level}
use mimik.Vm.Unmap.{vm_unmap_pages}
use mimik.Vm.Map.{vm_map_pages}
use mimik.Vm.Bracket.{IsWindow, with_tables}
use mimik.Vm.Walk.{translate}
use mimik.Vm.Backing.{IsLevelled}
use mimik.Vm.Runs.{
  last_table, last_table-SameShape, SameShape, translate-SameShape, path_updated-SameShape,
  in_entries,
}
use mimik.Vm.Effect.{
  hits, through, translate-through, last_table-level, last_table-KeepsUpper, put_run-KeepsUpper,
  put_run-translate, put_run-IsLevelled, SameShape-IsLevelled,
}
use mimik.Vm.Standing.{with_tables-IsWindow}
use mimik.Vm.Unmapping.{vm_unmap_pages-translate}
use mimik.Vm.Mapping.{fresh_entry, mapped_tables, vm_map_pages-tables}

through-set_pte :
    (a flags v : ℕ) → a % 4096 ≡ 0 → through (set_pte a flags) v ≡ some (a % 2 ^ 52 + v % 4096)
unfolding set_pte
through-set_pte a flags v aligned =
    let page : a / 4096 % 2 ^ 40 % 2 ^ 40 * 4096 ≡ a % 2 ^ 52 = omega arith in rw page refl

-- An address that only a free entry is responsible for is not mapped.
hits-free :
    (tables : ℕ → Table) (root g i n v : ℕ)
    → hits tables root g i n v ≡ true
    → ((k : ℕ) → k < n → (tables g (i + k)).present ≡ false)
    → translate tables root v ≡ none
hits-free tables root g i n v hit free =
    let k = v / 2 ^ 12 % 512 in
    let whole = translate-through tables root v in
    elim (Option-cases (last_table tables root (indices_of v))) [
      | inl absent ↦ ground (arith, whole, absent)
      | inr (f, here) ↦
          let inside : in_entries g i n f k ≡ true = sym (ap (hit_of k) here) ∙ hit in
          ground (arith, whole, here, in_range f k inside, free (k - i), back k)
    ]
  where
    hit_of : ℕ → Option ℕ → Bool
    hit_of k none = false
    hit_of k (some f) = in_entries g i n f k

    in_range : (f k : ℕ) → in_entries g i n f k ≡ true → (f ≡ g) × (i ≤ k) × (k < i + n)
    in_range f k h = ground arith

    back : (k : ℕ) → i ≤ k → i + (k - i) ≡ k
    back k le = omega arith

-- The address of the page for an address of the run.
abbrev pub page_for : (paddr hint v : ℕ) → ℕ
page_for paddr hint v = u64 (paddr + (v / 2 ^ 12 % 512 - hint / 2 ^ 12 % 512) * 4096)

hits-SameShape :
    {tables tables' : ℕ → Table} (same : SameShape tables tables') (root g i n v : ℕ)
    → hits tables' root g i n v ≡ hits tables root g i n v
hits-SameShape same root g i n v = rw (last_table-SameShape same (indices_of v) root) refl

module _ (alloc : Pm → Outcome (Ptr × Pm)) (depth fuel rounds root paddr n hint flags g : ℕ)
    {s : Vm} (w : IsWindow 3 s) (l : IsLevelled s.tables root) where
  abbrev at : ℕ
  at = hint / 2 ^ 12 % 512

  level_of_target :
      last_table s.tables root (indices_of hint) ≡ some g
      → (SameShape-IsLevelled
            (path_updated-SameShape flags s.tables root (indices_of hint))
            l).level_of
          g
        ≡ pt_last_level
  unfolding indices_of
  level_of_target here =
      let shape = path_updated-SameShape flags s.tables root (indices_of hint) in
      let lp = SameShape-IsLevelled shape l in
      last_table-level lp (hint / 2 ^ 30 % 512 ∷ hint / 2 ^ 21 % 512 ∷ at ∷ [])
        (hint / 2 ^ 39 % 512) root g (omega (arith, lp.top))
        (last_table-SameShape shape (indices_of hint) root ∙ here)

  mapped_tables-translate :
      paddr % 4096 ≡ 0
      → paddr < 2 ^ 64
      → last_table s.tables root (indices_of hint) ≡ some g
      → (v : ℕ)
      → translate (mapped_tables alloc depth fuel s.tables root paddr n hint flags g) root v ≡ (
          if hits s.tables root g at n v
          then some (page_for paddr hint v % 2 ^ 52 + v % 4096)
          else translate s.tables root v)
  mapped_tables-translate pa small here v =
      let shape = path_updated-SameShape flags s.tables root (indices_of hint) in
      let lp = SameShape-IsLevelled shape l in
      let aligned : page_for paddr hint v % 4096 ≡ 0 = omega arith in
      put_run-translate lp (fresh_entry flags) n paddr g at v small (level_of_target here)
      ∙ rw
          (
            hits-SameShape shape root g at n v,
            through-set_pte (page_for paddr hint v) flags v aligned,
            translate-SameShape shape root v,
          )
          refl

  -- The walk to a last-level table is as before the mapping.
  mapped_tables-last_table :
      paddr < 2 ^ 64
      → last_table s.tables root (indices_of hint) ≡ some g
      → (v : ℕ)
      → last_table
          (mapped_tables alloc depth fuel s.tables root paddr n hint flags g)
          root
          (indices_of v)
        ≡ last_table s.tables root (indices_of v)
  unfolding indices_of
  mapped_tables-last_table small here v =
      let shape = path_updated-SameShape flags s.tables root (indices_of hint) in
      let lp = SameShape-IsLevelled shape l in
      let keeps =
        put_run-KeepsUpper lp (fresh_entry flags) n paddr g at small (level_of_target here) in
      last_table-KeepsUpper lp keeps (v / 2 ^ 30 % 512 ∷ v / 2 ^ 21 % 512 ∷ v / 2 ^ 12 % 512 ∷ [])
        (v / 2 ^ 39 % 512) root (omega (arith, lp.top))
      ∙ last_table-SameShape shape (indices_of v) root

  -- `vm_map_pages` of `n` pages at a hint whose entries in one last-level table are free succeeds
  -- with the hint as it was. Afterwards those addresses translate to the pages from `paddr` on, cut
  -- to 52 bits, every other address translates as before, and the tables keep their levels. The
  -- window has room for three tables, both addresses are page aligned and of 64 bits, the hint is
  -- sign extended, and the search has two rounds more than there are pages.
  pub vm_map_pages-translate :
      paddr % 4096 ≡ 0
      → paddr < 2 ^ 64
      → hint % 4096 ≡ 0
      → (hint / 2 ^ 47 % 2 ≡ 0) ⊎ (hint / 2 ^ 48 ≡ 65535)
      → n + 1 < rounds
      → 0 < n
      → hint / 2 ^ 12 % 512 + n ≤ pt_length
      → last_table s.tables root (indices_of hint) ≡ some g
      → ((k : ℕ) → k < n → (s.tables g (hint / 2 ^ 12 % 512 + k)).present ≡ false)
      → (tables' : ℕ → Table) × (vm_map_pages alloc depth fuel rounds
            (direct root)
            paddr
            n
            hint
            flags
            s
          ≡ done ((success, hint), with_tables s tables'))
        × ((v : ℕ)
            → translate tables' root v ≡ (
                if hits s.tables root g (hint / 2 ^ 12 % 512) n v
                then some (page_for paddr hint v % 2 ^ 52 + v % 4096)
                else translate s.tables root v))
        × IsLevelled tables' root
  vm_map_pages-translate pa small ha canonical enough pos fits here free =
      let shape = path_updated-SameShape flags s.tables root (indices_of hint) in
      (
        mapped_tables alloc depth fuel s.tables root paddr n hint flags g,
        vm_map_pages-tables alloc depth fuel rounds root paddr n hint flags g s w pa ha canonical
            enough pos fits here free,
        λ v. mapped_tables-translate pa small here v,
        put_run-IsLevelled (SameShape-IsLevelled shape l) (fresh_entry flags) n paddr g at small
            (level_of_target here),
      )

  restored :
      paddr % 4096 ≡ 0
      → paddr < 2 ^ 64
      → last_table s.tables root (indices_of hint) ≡ some g
      → ((k : ℕ) → k < n → (s.tables g (hint / 2 ^ 12 % 512 + k)).present ≡ false)
      → (v : ℕ)
      → let mid = mapped_tables alloc depth fuel s.tables root paddr n hint flags g in
        (if hits mid root g at n v then none else translate mid root v) ≡ translate s.tables root v
  restored pa small here free v =
      rw (mapped_tables-last_table small here v, mapped_tables-translate pa small here v)
        (elim (Bool-cases (hits s.tables root g at n v)) [
          | inl hit ↦ rw (hit, hits-free s.tables root g at n v hit free) refl
          | inr miss ↦ rw (miss) refl
        ])

  -- Unmapping the pages that `vm_map_pages` has just mapped returns their number, and every address
  -- translates as it did before the two calls, under the conditions of the mapping.
  pub vm_unmap_pages-map_pages :
      paddr % 4096 ≡ 0
      → paddr < 2 ^ 64
      → hint % 4096 ≡ 0
      → (hint / 2 ^ 47 % 2 ≡ 0) ⊎ (hint / 2 ^ 48 ≡ 65535)
      → n + 1 < rounds
      → 0 < n
      → hint / 2 ^ 12 % 512 + n ≤ pt_length
      → last_table s.tables root (indices_of hint) ≡ some g
      → ((k : ℕ) → k < n → (s.tables g (hint / 2 ^ 12 % 512 + k)).present ≡ false)
      → (tables' : ℕ → Table) × (and_then
            (vm_map_pages alloc depth fuel rounds (direct root) paddr n hint flags s)
            (λ r. vm_unmap_pages (direct root) hint n)
          ≡ done (n, with_tables s tables'))
        × ((v : ℕ) → translate tables' root v ≡ translate s.tables root v)
        × IsLevelled tables' root
  vm_unmap_pages-map_pages pa small ha canonical enough pos fits here free =
      let shape = path_updated-SameShape flags s.tables root (indices_of hint) in
      let mid = mapped_tables alloc depth fuel s.tables root paddr n hint flags g in
      let lm =
        put_run-IsLevelled (SameShape-IsLevelled shape l) (fresh_entry flags) n paddr g at small
          (level_of_target here) in
      let (tables', run, seen, levels) =
        vm_unmap_pages-translate root hint n g (with_tables s mid) (with_tables-IsWindow w mid) lm
          ha pos fits (mapped_tables-last_table small here hint ∙ here) in
      (
        tables',
        rw
            (vm_map_pages-tables alloc depth fuel rounds root paddr n hint flags g s w pa ha
              canonical enough pos fits here free)
            run,
        λ v. seen v ∙ restored pa small here free v,
        levels,
      )

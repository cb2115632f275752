-- ===== src/Vm/Map/Space.antt =====
-- `pte_flags_match` and `find_space` (arch/x86_64/mm/vm.c).
use mimik.Base.{
  ℕ, zero, suc, ◌+◌, ◌-◌, Bool, not, ◌&&◌, ◌||◌, List, [], ◌∷◌, ltb, leb, ◌==◌, if◌then◌else◌, u64,
  fault, halted, out_of_fuel, Status, code, error, efull, eoverlap,
}
use mimik.Page.{page_size}
use mimik.Vm.State.{
  pt_length, Pte, pte_paddr, flag_writable, flag_user, flag_executable, flag_strict, is_flag_set,
  TablePtr, Command, ◌>>=◌, ◌>>◌, pure, check, read_entry,
}
use mimik.Vm.Window.{map_page_tmp, unmap_page_tmp}
use mimik.Vm.Lookup.{pt_num_levels, pt_last_level}
use mimik.Vm.Unmap.{get_pages_per_entry}

unfoldable pub pte_flags_match : Pte → ℕ → Bool
pte_flags_match e flags =
    e.writable
    && is_flag_set flags flag_writable
    && (e.user_accessible && is_flag_set flags flag_user)
    && (e.no_execute && not (is_flag_set flags flag_executable))

-- The variables of one call: `index` is `*index`, `rest` the indices of the lower levels.
pub record Scan : Type 0 where
  pub i : ℕ
  pub index : ℕ
  pub rest : List ℕ
  pub found_pages : ℕ
  pub paddr : ℕ

-- Where control is: at the test of the first loop, or at that of the second.
pub data Place : Type 0 where
  walking filling : Place

abbrev pub Reply : Type 0
Reply = Status × List ℕ

abbrev first_or_zero : List ℕ → ℕ
first_or_zero [] = 0
first_or_zero (i ∷ is) = i

-- `retry_loop`, with the increment of the loop behind it.
unfoldable pub retry_loop : Scan → Scan
retry_loop c = record c { i = c.i + 2; index = c.i + 1; found_pages = 0 }

-- `next_free_entry`
unfoldable pub next_free_entry : Scan → Scan
next_free_entry c = record c { index = c.i; found_pages = 0 }

abbrev reply : Status → Scan → Command Reply
reply st c = pure (st, c.index ∷ c.rest)

module _ (below : TablePtr → List ℕ → Command Reply) (pt : TablePtr)
    (level paddr_start pages flags : ℕ) where
  -- The second loop and what follows it; `go` goes on with the first.
  unfoldable pub fill_step : (Place → Scan → Command Reply) → Scan → Command Reply
  fill_step go c =
      let per_entry = get_pages_per_entry level in
      let full =
        (if ltb c.found_pages pages
          then (if is_flag_set flags flag_strict
              then reply (error eoverlap) c
              else go walking (next_free_entry c))
          else reply (code c.found_pages) c) in
      if ltb c.found_pages pages && ltb c.i pt_length
      then (do
        e ← read_entry pt c.i
        if e.present && (not (pte_paddr e == c.paddr) || not (pte_flags_match e flags))
            then full
            else go filling (record c {
              i = c.i + 1;
              found_pages = u64 (c.found_pages + per_entry);
              paddr = u64 (c.paddr + page_size);
            }))
      else full

  -- Behind the first loop.
  unfoldable pub leave : (Place → Scan → Command Reply) → Scan → Command Reply
  leave go c =
      if leb pt_length c.i
      then reply (error efull) c
      else go filling (record c { paddr = paddr_start })

  -- The first loop's body at a level above the last.
  unfoldable pub descend : (Place → Scan → Command Reply) → Scan → Command Reply
  descend go c = do
    e ← read_entry pt c.index
    p ← map_page_tmp (pte_paddr e) flag_writable
    (res, rest) ← below p c.rest
    unmap_page_tmp p
    let c' : Scan = record c { rest = rest }
    elim res [
      | error efull ↦ go walking (retry_loop c')
      | error other ↦ reply (error other) c'
      | code n ↦
          let more : Scan = record c' { found_pages = u64 (c.found_pages + n) } in
          if leb pages n
          then reply (code more.found_pages) more
          else if ltb (first_or_zero rest) (pt_length - 1)
          then go walking (retry_loop c')
          else go walking (record more { i = c.i + 1 })
    ]

  unfoldable pub walk_step : (Place → Scan → Command Reply) → Scan → Command Reply
  walk_step go c =
      if ltb c.found_pages pages && ltb c.i pt_length
      then (do
        e ← read_entry pt c.i
        if not e.present
            then leave go c
            else if level == pt_last_level
            then (if is_flag_set flags flag_strict
                then reply (error eoverlap) c
                else if pte_flags_match e flags
                then leave go c
                else go walking (retry_loop c))
            else descend go c)
      else leave go c

  -- The search may go round for ever; `rounds` bounds it.
  unfoldable pub space_loop : ℕ → Place → Scan → Command Reply
  space_loop zero place c = λ s. out_of_fuel
  space_loop (suc rounds) walking c = walk_step (λ p c'. space_loop rounds p c') c
  space_loop (suc rounds) filling c = fill_step (λ p c'. space_loop rounds p c') c

unfoldable pub find_space : (rounds depth : ℕ) → TablePtr → List ℕ → ℕ → ℕ → ℕ → ℕ → Command Reply
find_space rounds depth pt [] level paddr_start pages flags = λ s. fault
find_space rounds zero pt (i ∷ rest) level paddr_start pages flags = λ s. halted
find_space rounds (suc depth) pt (i ∷ rest) level paddr_start pages flags =
    let below = λ (p : TablePtr) (index : List ℕ).
      find_space rounds depth p index (level + 1) paddr_start pages flags in
    do
      check (ltb level pt_num_levels)
      space_loop below pt level paddr_start pages flags rounds walking
          (record { i = i; index = i; rest = rest; found_pages = 0; paddr = paddr_start })

-- ===== src/Kernel/Remap.antt =====
-- `kernel_remap` (kernel.c): the rights of the kernel's own pages.
use mimik.Base.{
  ℕ, ◌+◌, ◌-◌, ◌/◌, ◌%◌, ◌^◌, ◌<◌, ◌≤◌, ◌≡◌, refl, true, false, Bool, ◌||◌, none, sym, subst, ap,
  leb, if◌then◌else◌, arith, ◌∙◌, some, done, success,
}
use mimik.Page.{pages_of}
use mimik.Vm.State.{pte_paddr, set_pte, is_flag_set, flag_user, indices_of, direct, Vm, Table}
use mimik.Vm.Flag.{vm_flag_pages, vmk_flag_pages}
use mimik.Vm.Bracket.{IsWindow}
use mimik.Vm.Walk.{translate}
use mimik.Vm.Backing.{IsLevelled}
use mimik.Vm.Runs.{
  last_table, last_table-SameShape, SameShape, SameShape-trans, translate-SameShape,
}
use mimik.Vm.Effect.{SameShape-IsLevelled}
use mimik.Vm.Rights.{vm_flag_pages-entries, access-page}
use mimik.Initfs.Mount.{bytes_between}
use mimik.Kernel.{Sections, flag_section, kernel_remap}
use mimik.Kernel.Rights.{
  page_at, Ends, IsLaidOut, between, flags_at, in_stretch, remapped, remapped-flags_at,
  remapped-entries,
}
use mimik.Vm.Access.{access, granted, both, Grants}
use mimik.Vm.Flagging.{HasRights, set_pte-HasRights}

abbrev pub kernel_state : ℕ → Vm → (ℕ → Table) → Vm
kernel_state root vm tables = record vm { kpml4 = direct root; tables = tables }

-- All pages of a stretch have the same last-level table.
last_table-page :
    (tables : ℕ → Table) (root base p : ℕ)
    → base % 2 ^ 21 ≡ 0
    → p < 512
    → last_table tables root (indices_of (page_at base p))
      ≡ last_table tables root (indices_of base)
unfolding last_table indices_of
last_table-page tables root base p aligned lt =
    let i0 : page_at base p / 2 ^ 39 ≡ base / 2 ^ 39 = omega arith in
    let i1 : page_at base p / 2 ^ 30 ≡ base / 2 ^ 30 = omega arith in
    let i2 : page_at base p / 2 ^ 21 ≡ base / 2 ^ 21 = omega arith in rw (i0, i1, i2) refl

-- And the same tables on the way to it.
Grants-page :
    (flags : ℕ) (tables : ℕ → Table) (root base p : ℕ)
    → base % 2 ^ 21 ≡ 0
    → p < 512
    → Grants flags tables root (indices_of (page_at base p))
    → Grants flags tables root (indices_of base)
unfolding indices_of
Grants-page flags tables root base p aligned lt grants =
    let i0 : page_at base p / 2 ^ 39 ≡ base / 2 ^ 39 = omega arith in
    let i1 : page_at base p / 2 ^ 30 ≡ base / 2 ^ 30 = omega arith in
    let i2 : page_at base p / 2 ^ 21 ≡ base / 2 ^ 21 = omega arith in
    let g = rw (i0, i1, i2) at grants in (g.0, (g.1.0, (g.1.1.0, tt)))

flag_section-run :
    (root start end n flags : ℕ) (vm s' : Vm) (tables : ℕ → Table)
    → is_flag_set flags flag_user ≡ false
    → leb 18446603336221196288 start ≡ true
    → pages_of (bytes_between start end) ≡ n
    → vm_flag_pages (direct root) start n flags (kernel_state root vm tables) ≡ done (success, s')
    → flag_section start end flags (kernel_state root vm tables) ≡ done (tt, s')
unfolding flag_section vmk_flag_pages
flag_section-run root start end n flags vm s' tables no_user high count run =
    rw (no_user, high, count, run) refl

flag_section-entries :
    (root base a b end flags g : ℕ) (vm : Vm) (tables : ℕ → Table)
    → Ends base b end
    → IsWindow 3 vm
    → IsLevelled tables root
    → base % 2 ^ 21 ≡ 0
    → 18446603336221196288 ≤ base
    → base + 2 ^ 21 ≤ 2 ^ 64
    → a < b
    → b ≤ 512
    → is_flag_set flags flag_user ≡ false
    → last_table tables root (indices_of base) ≡ some g
    → ((j : ℕ) → a ≤ j → j < b → (tables g j).present ≡ true)
    → (tables' : ℕ → Table) × (flag_section (page_at base a) end flags (kernel_state root vm tables)
        ≡ done (tt, kernel_state root vm tables'))
      × SameShape tables tables'
      × ((j : ℕ)
          → tables' g j
            ≡ (if between a b j then set_pte (pte_paddr (tables g j)) flags else tables g j))
      × Grants flags tables' root (indices_of base)
flag_section-entries root base a b end flags g vm tables ends w l aligned kernel top lt inside
      no_user here there =
    let s = kernel_state root vm tables in
    let ws : IsWindow 3 s = record { room = w.room; empty = w.empty } in
    let v = page_at base a in
    let i : v / 2 ^ 12 % 512 ≡ a = omega arith in
    let n : pages_of (bytes_between v end) ≡ b - a = omega (arith, ends) in
    let high : leb 18446603336221196288 v ≡ true = ground arith in
    let (tables', run, shape, entries, grants) =
      vm_flag_pages-entries root v (b - a) flags g s ws l (omega arith) (omega arith) (omega arith)
        (last_table-page tables root base a aligned (omega arith) ∙ here)
        (λ k lt'. there (v / 2 ^ 12 % 512 + k) (omega arith) (omega arith)) in
    (
      tables',
      flag_section-run root v end (b - a) flags vm _ tables no_user high n run,
      shape,
      λ j. ground (arith, entries j),
      Grants-page flags tables' root base a aligned (omega arith) grants,
    )

no_user_flag : (is_flag_set 0 2 ≡ false) × (is_flag_set 4 2 ≡ false) × (is_flag_set 8 2 ≡ false)
unfolding is_flag_set
no_user_flag = (refl, refl, refl)

-- The last-level entries grant one of three kinds of access, and those above them let it pass.
let_pass :
    (b1 b2 b3 : Bool) (flags : ℕ)
    → (if b1 then some 4 else if b2 then some 8 else if b3 then some 0 else none) ≡ some flags
    → both 4 flags ≡ granted flags
unfolding is_flag_set
let_pass true b2 b3 flags at =
    let same : 4 ≡ flags = ground (arith, at) in subst (λ f. both 4 f ≡ granted f) same refl
let_pass false true b3 flags at =
    let same : 8 ≡ flags = ground (arith, at) in subst (λ f. both 4 f ≡ granted f) same refl
let_pass false false true flags at =
    let same : 0 ≡ flags = ground (arith, at) in subst (λ f. both 4 f ≡ granted f) same refl
let_pass false false false flags at = absurd (ground (arith, at))

granted_page :
    (l : Sections)
    (root base entry text text_end rodata rodata_end data_page data_end g j flags : ℕ)
    (t0 t4 : ℕ → Table)
    → IsLaidOut l base entry text text_end rodata rodata_end data_page data_end
    → flags_at entry text text_end rodata rodata_end data_page data_end j ≡ some flags
    → t4 g j ≡ remapped entry text text_end rodata rodata_end data_page data_end j (t0 g j)
    → last_table t4 root (indices_of base) ≡ some g
    → Grants 4 t4 root (indices_of base)
    → access t4 root (indices_of (page_at base j)) ≡ granted flags
granted_page l root base entry text text_end rodata rodata_end data_page data_end g j flags t0 t4 o
      at entry_at here grants =
    let here_at : base / 2 ^ 12 % 512 + j ≡ j = omega (arith, o.aligned) in
    let e : t4 g (base / 2 ^ 12 % 512 + j) ≡ set_pte (pte_paddr (t0 g j)) flags =
      ap (t4 g) here_at
      ∙ entry_at
      ∙ remapped-flags_at entry text text_end rodata rodata_end data_page data_end j flags (t0 g j)
          at in
    access-page 4 flags t4 root base g j (omega (arith, here_at, in_stretch o j flags at)) grants
      here (subst (HasRights flags) (sym e) (set_pte-HasRights (pte_paddr (t0 g j)) flags))
    ∙ let_pass (between entry text j || between data_page data_end j) (between text text_end j)
        (between rodata rodata_end j) flags at

-- The four calls, one after the other.
remap_runs :
    (l : Sections) (va ta ra da : ℕ) (s0 s1 s2 s3 s4 : Vm)
    → l.vaddr_start ≡ va
    → l.text_start ≡ ta
    → l.rodata_start ≡ ra
    → l.data_start ≡ da
    → flag_section va ta 4 s0 ≡ done (tt, s1)
    → flag_section ta l.text_end 8 s1 ≡ done (tt, s2)
    → flag_section ra l.rodata_end 0 s2 ≡ done (tt, s3)
    → flag_section da l.data_end 4 s3 ≡ done (tt, s4)
    → kernel_remap l s0 ≡ done (tt, s4)
unfolding kernel_remap
remap_runs l va ta ra da s0 s1 s2 s3 s4 v t r d run1 run2 run3 run4 =
    rw (v, t, r, d, run1, run2, run3, run4) refl

-- `kernel_remap` ends where the sections lie in order in one stretch of 2 MB, none of them empty,
-- whose last-level table maps all pages from the first section to the last, and the window has room
-- for three tables and the tables are levelled. Afterwards the entries on the way to each page of a
-- section together grant: writing in the entry and data sections, execution in the text, neither in
-- the read-only data, and nothing to user code. The last-level entry of every other page of the
-- stretch is as it was, and every address translates as before.
pub kernel_remap-rights :
    (l : Sections) (root base entry text text_end rodata rodata_end data_page data_end g : ℕ)
    (vm : Vm) (tables : ℕ → Table)
    → IsLaidOut l base entry text text_end rodata rodata_end data_page data_end
    → IsWindow 3 vm
    → IsLevelled tables root
    → last_table tables root (indices_of base) ≡ some g
    → ((j : ℕ) → entry ≤ j → j < data_end → (tables g j).present ≡ true)
    → (tables' : ℕ → Table) × (kernel_remap l (kernel_state root vm tables)
        ≡ done (tt, kernel_state root vm tables'))
      × ((j flags : ℕ)
          → flags_at entry text text_end rodata rodata_end data_page data_end j ≡ some flags
          → access tables' root (indices_of (page_at base j)) ≡ granted flags)
      × ((j : ℕ)
          → tables' g j
            ≡ remapped entry text text_end rodata rodata_end data_page data_end j (tables g j))
      × ((v : ℕ) → translate tables' root v ≡ translate tables root v)
kernel_remap-rights l root base entry text text_end rodata rodata_end data_page data_end g vm t0 o w
      levels here there =
    let (no0, no4, no8) = no_user_flag in
    let (t1, run1, same1, e1, g1) =
      flag_section-entries root base entry text (page_at base text) 4 g vm t0
        (omega arith, omega arith) w levels o.aligned o.kernel o.top o.entry_text
        (omega (
          arith, o.text_text, o.text_rodata, o.rodata_rodata, o.rodata_data, o.data_data, o.inside,
        ))
        no4 here
        (λ j lo hi. there j (omega arith) (
          omega
            (arith, o.text_text, o.text_rodata, o.rodata_rodata, o.rodata_data, o.data_data))) in
    let (t2, run2, same2, e2, g2) =
      flag_section-entries root base text text_end l.text_end 8 g vm t1 o.text_end_at w
        (SameShape-IsLevelled same1 levels) o.aligned o.kernel o.top o.text_text
        (omega (arith, o.text_rodata, o.rodata_rodata, o.rodata_data, o.data_data, o.inside)) no8
        (last_table-SameShape same1 (indices_of base) root ∙ here)
        (λ j lo hi.
          same1.present g j
          ∙ there j (omega (arith, o.entry_text))
              (omega (arith, o.text_rodata, o.rodata_rodata, o.rodata_data, o.data_data))) in
    let to2 = SameShape-trans same1 same2 in
    let (t3, run3, same3, e3, g3) =
      flag_section-entries root base rodata rodata_end l.rodata_end 0 g vm t2 o.rodata_end_at w
        (SameShape-IsLevelled to2 levels) o.aligned o.kernel o.top o.rodata_rodata
        (omega (arith, o.rodata_data, o.data_data, o.inside)) no0
        (last_table-SameShape to2 (indices_of base) root ∙ here)
        (λ j lo hi.
          to2.present g j
          ∙ there j (omega (arith, o.entry_text, o.text_text, o.text_rodata))
              (omega (arith, o.rodata_data, o.data_data))) in
    let to3 = SameShape-trans to2 same3 in
    let (t4, run4, same4, e4, g4) =
      flag_section-entries root base data_page data_end l.data_end 4 g vm t3 o.data_end_at w
        (SameShape-IsLevelled to3 levels) o.aligned o.kernel o.top o.data_data o.inside no4
        (last_table-SameShape to3 (indices_of base) root ∙ here)
        (λ j lo hi.
          to3.present g j
          ∙ there j
              (omega
                (arith, o.entry_text, o.text_text, o.text_rodata, o.rodata_rodata, o.rodata_data))
              hi) in
    let all_entries : (j : ℕ)
        → t4 g j ≡ remapped entry text text_end rodata rodata_end data_page data_end j (t0 g j) =
      λ j.
        remapped-entries o j (t0 g j) (t1 g j) (t2 g j) (t3 g j) (t4 g j) (e1 j) (e2 j) (e3 j)
          (e4 j) (same1.paddr g j) (to2.paddr g j) (to3.paddr g j) in
    (
      t4,
      remap_runs l (page_at base entry) (page_at base text) (page_at base rodata)
          (page_at base data_page) _ _ _ _ _ o.vaddr_start_at o.text_start_at o.rodata_start_at
          o.data_start_at run1 run2 run3 run4,
      λ j flags at.
          granted_page l root base entry text text_end rodata rodata_end data_page data_end g j
            flags t0 t4 o at (all_entries j)
            (last_table-SameShape (SameShape-trans to3 same4) (indices_of base) root ∙ here) g4,
      all_entries,
      translate-SameShape (SameShape-trans to3 same4) root,
    )

-- ===== src/Kernel/Examples.antt =====
-- The rights of a kernel of six pages (kernel.c).
use mimik.Base.{ℕ, ◌+◌, ◌*◌, ◌≡◌, refl, arith, if◌then◌else◌, ◌==◌, ◌&&◌, ltb, some, done}
use mimik.Vm.State.{zero_pte, indices_of, direct, Vm, Table}
use mimik.Vm.Bracket.{IsWindow}
use mimik.Vm.Walk.{translate}
use mimik.Vm.Backing.{IsLevelled}
use mimik.Vm.Runs.{last_table}
use mimik.Vm.Examples.{to_page, no_pm}
use mimik.Kernel.{Sections, kernel_remap}
use mimik.Kernel.Rights.{page_at, IsLaidOut, flags_at, remapped}
use mimik.Vm.Access.{access, granted}
use mimik.Kernel.Remap.{kernel_state, kernel_remap-rights}

-- 0xffffffff80200000
abbrev base : ℕ
base = 18446744071564165120

-- The text, the read-only data and the data end inside a page.
abbrev sections : Sections
sections = record {
  vaddr_start = base;
  vaddr_end = base + 24000;
  text_start = base + 4096;
  text_end = base + 12000;
  rodata_start = base + 12288;
  rodata_end = base + 16000;
  data_start = base + 16384;
  data_end = base + 24000;
}

-- The stretch is mapped, up to the end of the data, to physical memory from 0x200000 on.
abbrev tables : ℕ → Table
tables f i =
    if (f == 0x1000) && (i == 511)
    then to_page 0x2000
    else if (f == 0x2000) && (i == 510)
    then to_page 0x3000
    else if (f == 0x3000) && (i == 1)
    then to_page 0x4000
    else if (f == 0x4000) && ltb i 6
    then to_page (0x200000 + 4096 * i)
    else zero_pte

abbrev vm : Vm
vm = record {
  pm = no_pm;
  tables = tables;
  tmp_pt = λ k. zero_pte;
  first_free_tmp_index = 0;
  kpml4 = direct 0x1000;
}

vm-IsWindow : IsWindow 3 vm
vm-IsWindow = record { room = omega arith; empty = λ k a b. refl }

tables-IsLevelled : IsLevelled tables 0x1000
tables-IsLevelled = record {
  level_of = λ f.
      if f == 0x1000
      then 0
      else if f == 0x2000
      then 1
      else if f == 0x3000
      then 2
      else if f == 0x4000
      then 3
      else 4;
  top = refl;
  down = λ f i lt there. ground arith;
}

laid_out : IsLaidOut sections base 0 1 3 3 4 4 6
laid_out = record {
  aligned = omega arith;
  kernel = omega arith;
  top = omega arith;
  entry_text = omega arith;
  text_text = omega arith;
  text_rodata = omega arith;
  rodata_rodata = omega arith;
  rodata_data = omega arith;
  data_data = omega arith;
  inside = omega arith;
  vaddr_start_at = refl;
  text_start_at = refl;
  text_end_at = (omega arith, omega arith);
  rodata_start_at = refl;
  rodata_end_at = (omega arith, omega arith);
  data_start_at = refl;
  data_end_at = (omega arith, omega arith);
}

stretch_table : last_table tables 0x1000 (indices_of base) ≡ some 0x4000
unfolding last_table indices_of
stretch_table = refl

kernel_remap-rights_example :
    (tables' : ℕ → Table) × (kernel_remap sections (kernel_state 0x1000 vm tables)
      ≡ done (tt, kernel_state 0x1000 vm tables'))
    × ((j flags : ℕ)
        → flags_at 0 1 3 3 4 4 6 j ≡ some flags
        → access tables' 0x1000 (indices_of (page_at base j)) ≡ granted flags)
    × ((j : ℕ) → tables' 0x4000 j ≡ remapped 0 1 3 3 4 4 6 j (tables 0x4000 j))
    × ((v : ℕ) → translate tables' 0x1000 v ≡ translate tables 0x1000 v)
kernel_remap-rights_example =
    kernel_remap-rights sections 0x1000 base 0 1 3 3 4 4 6 0x4000 vm tables laid_out vm-IsWindow
      tables-IsLevelled stretch_table (λ j lo hi. ground arith)

-- ===== src/Kernel.antt =====
-- The entry of the kernel (kernel.c): the parts of the system are set up in order, over one state.
pub mod Rights
pub mod Remap
mod Examples
use mimik.Base.{
  ℕ, ◌+◌, ◌-◌, ◌^◌, Bool, true, false, List, [], ◌∷◌, u64, Outcome, done, halted, fault,
  out_of_fuel, Status,
}
use mimik.Base.Commands as Commands
use mimik.Base.Commands.{◌>>=◌, ◌>>◌, pure, check, modify}
use mimik.Memory.{Ptr}
use mimik.Page.{pages_of}
use mimik.Pm.State.{Pm}
use mimik.Pm.Lock.{is_success}
use mimik.Pm.Init.{Segment, Layout, pm_init}
use mimik.Vm.State.{Vm, flag_writable, flag_executable}
use mimik.Vm.Flag.{vmk_flag_pages}
use mimik.Vm.Init.{vm_init}
use mimik.Heap.Slabs.{Heap, mm_init}
use mimik.Initfs.Mount.{Module, Fs, zero_fs, bytes_between, initfs_from_module}
use mimik.Cpu.{Machine, Hardware}
use mimik.Cpu.Idt.{isr_init}
use mimik.Cpu.Arch.{arch_init}

-- The section bounds of arch/x86_64/include/mem/layout.h.
pub record Sections : Type 0 where
  pub vaddr_start : ℕ
  pub vaddr_end : ℕ
  pub text_start : ℕ
  pub text_end : ℕ
  pub rodata_start : ℕ
  pub rodata_end : ℕ
  pub data_start : ℕ
  pub data_end : ℕ

abbrev pub flag_read : ℕ
flag_read = 0

-- `vmk_flag_range` and the assertion on its status.
unfoldable pub flag_section : (start end flags : ℕ) → Commands.Command Vm (Unit {0})
flag_section start end flags = do
  res ← vmk_flag_pages start (pages_of (bytes_between start end)) flags
  check (is_success res)

unfoldable pub kernel_remap : Sections → Commands.Command Vm (Unit {0})
kernel_remap l = do
  flag_section l.vaddr_start l.text_start (flag_read + flag_writable)
  flag_section l.text_start l.text_end (flag_read + flag_executable)
  flag_section l.rodata_start l.rodata_end flag_read
  flag_section l.data_start l.data_end (flag_read + flag_writable)

-- `struct bootinfo`, less the command line, which is not looked at, and what the set-up of the
-- processor takes from it.
pub record BootInfo : Type 0 where
  pub modules : List Module
  pub segments : List Segment

-- `struct kernel_singleton`, with the flag `subsys_init.pm`.
pub record Kernel : Type 0 where
  pub pm_initialized : Bool
  pub bootinfo : BootInfo
  pub fs : Fs

-- What all parts keep; the heap has the page tables, and those the page allocator.
pub record World : Type 0 where
  pub kernel : Kernel
  pub machine : Machine
  pub heap : Heap
  pub interrupts_enabled : Bool

abbrev pub Command : Type 0 → Type 0
Command A = Commands.Command World A

-- The commands of one part on the whole state.
abbrev on_machine : {A : Type 0} → Commands.Command Machine A → Command A
on_machine c w = back w (c w.machine)
  where
    back : {A : Type 0} → World → Outcome (A × Machine) → Outcome (A × World)
    back w (done (a, m)) = done (a, record w { machine = m })
    back w halted = halted
    back w fault = fault
    back w out_of_fuel = out_of_fuel

abbrev on_vm : {A : Type 0} → Commands.Command Vm A → Command A
on_vm c w = back w (c w.heap.vm)
  where
    back : {A : Type 0} → World → Outcome (A × Vm) → Outcome (A × World)
    back w (done (a, vm)) = done (a, record w { heap = record (w.heap) { vm = vm } })
    back w halted = halted
    back w fault = fault
    back w out_of_fuel = out_of_fuel

abbrev on_heap : (Heap → Outcome Heap) → Command (Unit {0})
on_heap f w = back w (f w.heap)
  where
    back : World → Outcome Heap → Outcome (Unit {0} × World)
    back w (done heap) = done (tt, record w { heap = heap })
    back w halted = halted
    back w fault = fault
    back w out_of_fuel = out_of_fuel

abbrev on_pm : (Pm → Outcome Pm) → Command (Unit {0})
on_pm f w = back w (f w.heap.vm.pm)
  where
    back : World → Outcome Pm → Outcome (Unit {0} × World)
    back w (done pm) =
        done (tt, record w { heap = record (w.heap) { vm = record (w.heap.vm) { pm = pm } } })
    back w halted = halted
    back w fault = fault
    back w out_of_fuel = out_of_fuel

-- The bytes behind the structure that mem/mem.c clears as well are not part of the state.
unfoldable pub kernel_init_singleton : BootInfo → Command (Unit {0})
kernel_init_singleton bootinfo = modify (λ w. record w {
  kernel = record { pm_initialized = false; bootinfo = bootinfo; fs = zero_fs };
})

-- What the linker, the boot code and the hardware decide, and the bounds of the searches.
pub record Platform : Type 0 where
  pub hardware : Hardware
  pub layout : Layout
  pub sections : Sections
  pub slabs_at : Ptr
  pub cr3 : ℕ
  pub tmp_paddr : ℕ
  pub depth : ℕ
  pub fuel : ℕ
  pub rounds : ℕ

-- `alloc` is `mm_alloc` for the page allocator, and `acpi_init` the set-up of common/acpi.c.
module _ (p : Platform) (alloc : Pm → Outcome (Ptr × Pm))
    (acpi_init : Commands.Command Machine Status) where
  -- Only the first module is looked at.
  unfoldable pub kernel_parse_bootinfo : BootInfo → Command (Unit {0})
  kernel_parse_bootinfo bootinfo = first bootinfo.modules
    where
      first : List Module → Command (Unit {0})
      first [] = pure tt
      first (m ∷ modules) = do
        fs ← on_vm (initfs_from_module alloc p.depth p.fuel p.rounds p.sections.vaddr_end m)
        modify (λ w. record w { kernel = record (w.kernel) { fs = fs } })

  -- Everything in front of the last assertion.
  unfoldable pub kernel_setup : BootInfo → Command (Unit {0})
  kernel_setup bootinfo = do
    kernel_init_singleton bootinfo
    (λ w. on_pm (pm_init alloc p.depth p.fuel w.kernel.pm_initialized p.layout bootinfo.segments) w)
    on_vm (vm_init p.cr3 p.tmp_paddr)
    on_heap (mm_init p.slabs_at)
    on_vm (kernel_remap p.sections)
    on_machine (isr_init p.hardware)
    res ← on_machine (arch_init p.hardware acpi_init)
    check (is_success res)
    modify (λ w. record w { interrupts_enabled = true })
    kernel_parse_bootinfo bootinfo

  -- `ASSERT(0 && "Hello from MIMIK!")` ends it.
  unfoldable pub kernel_main : BootInfo → Command (Unit {0})
  kernel_main bootinfo = do kernel_setup bootinfo; check false

-- ===== src/Acpi/Program.antt =====
-- The set-up of common/acpi.c over the page tables, the page allocator and the heap.
use mimik.Base.{ℕ, Outcome, done, halted, fault, out_of_fuel, Status}
use mimik.Base.Commands
use mimik.Memory.{Ptr, Memory, mem_set}
use mimik.Pm.State.{Pm}
use mimik.Vm.State.{Vm}
use mimik.Vm.Map.{vmk_map_bytes}
use mimik.Heap.Slabs.{Heap, mm_alloc}
use mimik.Acpi.Setup.{Mapper, Acpi, acpi_init}

-- A result of the page tables, and new memory, put into the heap's state.
abbrev put_vm : {A : Type 0} → Heap → Outcome (A × Vm) → Outcome (A × Heap)
put_vm h (done (a, vm)) = done (a, record h { vm = vm })
put_vm h halted = halted
put_vm h fault = fault
put_vm h out_of_fuel = out_of_fuel

abbrev put_memory : Heap → Outcome Memory → Outcome (Unit {0} × Heap)
put_memory h (done memory) = done (tt, record h { memory = memory })
put_memory h halted = halted
put_memory h fault = fault
put_memory h out_of_fuel = out_of_fuel

-- The parameters are those of `mm_map`. The heap's memory has the bytes at all of the kernel's
-- addresses, also at those that are mapped later.
module _ (alloc : Pm → Outcome (Ptr × Pm)) (depth fuel rounds vaddr_end : ℕ) where
  abbrev pub kernel_mapper : Mapper Heap
  kernel_mapper = record {
    see = λ h. h.memory;
    map_bytes = λ paddr bytes hint h.
        put_vm h (vmk_map_bytes alloc depth fuel rounds vaddr_end paddr bytes hint 0 h.vm);
    mm_alloc = λ n h. mm_alloc alloc depth fuel rounds vaddr_end n h;
    clear = λ p n h. put_memory h (mem_set p 0 n h.memory);
  }

  -- `acpi_init` of the program.
  unfoldable kernel_acpi_init :
      (known_tbls : ℕ → Ptr) → (type : ℕ) → Ptr → Acpi → Commands.Command Heap (Status × Acpi)
  kernel_acpi_init known_tbls = acpi_init kernel_mapper known_tbls

-- ===== src/Cpu/Arch.antt =====
-- The set-up of the processor (arch/x86_64/arch.c).
use mimik.Base.{◌-◌, ◌^◌, bit_and, bit_or, true, ◌<<<◌, Status, success}
use mimik.Base.Commands.{◌>>=◌, ◌>>◌, pure, check, modify}
use mimik.Cpu.{Hardware, Machine, Command, has_bit}
use mimik.Cpu.Pic.{pic_init}
use mimik.Cpu.Pit.{pit_init}

-- The assembly of `check_and_enable_features` on the two control registers.
unfoldable pub enable_sse : Machine → Machine
enable_sse m = record m {
  cr4 = bit_or m.cr4 (1 <<< 9);
  cr0 = bit_or (bit_and m.cr0 (2 ^ 64 - 1 - (1 <<< 2))) (1 <<< 1);
}

unfoldable pub check_and_enable_features : Hardware → Command (Unit {0})
check_and_enable_features hw =
    let r = hw.cpuid 1 in
    let ext = hw.cpuid 2147483649 in
    do
      check (has_bit r.edx (1 <<< 24))
      check (has_bit r.edx (1 <<< 25))
      check (has_bit r.edx (1 <<< 26))
      check (has_bit r.ecx (1 <<< 0))
      check (has_bit r.ecx (1 <<< 9))
      check (has_bit r.ecx (1 <<< 19))
      check (has_bit r.ecx (1 <<< 20))
      modify enable_sse
      check (has_bit ext.edx (1 <<< 20))
      check (has_bit ext.edx (1 <<< 11))

-- `gdt_load` is assembly, and `acpi_init` changes nothing of the machine: here it is a parameter.
-- The statuses of both set-ups are dropped, as in the source.
unfoldable pub arch_init : Hardware → Command Status → Command Status
arch_init hw acpi_init = do
  modify (λ m. record m { gdt_loaded = true })
  check_and_enable_features hw
  acpi_status ← acpi_init
  pic_status ← pic_init hw
  pit_init hw
  pure success

-- ===== src/Acpi/Examples.antt =====
-- The search for tables of common/acpi.c with one table of nine bytes.
use mimik.Base.{ℕ, ◌≡◌, refl, arith, true, [], ◌∷◌, ◌==◌, if◌then◌else◌, done, some}
use mimik.Memory.{Memory, load_le}
use mimik.Acpi.{table_length, acpi_get_table, checksum_loop, checksum_matches}
use mimik.Acpi.Search.{first_with, if_intact, IsSignature, acpi_get_table-first}

-- "APIC" at 0x50, and a table with that signature, its length and a checksum at 0x100.
abbrev apic : ℕ → ℕ
apic i =
    if i == 0 then 65 else if i == 1 then 80 else if i == 2 then 73 else if i == 3 then 67 else 0

abbrev memory : Memory
memory a =
    if a == 0x50
    then apic 0
    else if a == 0x51
    then apic 1
    else if a == 0x52
    then apic 2
    else if a == 0x53
    then apic 3
    else if a == 0x100
    then apic 0
    else if a == 0x101
    then apic 1
    else if a == 0x102
    then apic 2
    else if a == 0x103
    then apic 3
    else if a == 0x104
    then 9
    else if a == 0x108
    then 218
    else 0

table_test : (table_length memory 0x100 ≡ 9) × (checksum_matches memory 0x100 9 ≡ true)
unfolding table_length load_le checksum_matches checksum_loop
table_test = (refl, refl)

apic-IsSignature : IsSignature memory 0x50
apic-IsSignature = ((λ e. omega arith), (λ e. omega arith), (λ e. omega arith), (λ e. omega arith))

acpi_get_table-first_example :
    acpi_get_table memory (some (0x100 ∷ [])) 0x50
    ≡ done (if_intact memory (first_with memory 0x50 (0x100 ∷ [])))
acpi_get_table-first_example =
    acpi_get_table-first memory (0x100 ∷ []) 0x50 (λ e. omega arith) apic-IsSignature
      ((λ e. omega arith), tt)

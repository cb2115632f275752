-- ===== src/Acpi.antt =====
-- The search for tables in common/acpi.c, over the memory that the tables are mapped in.
pub mod Search
pub mod Setup
pub mod Program
pub mod Refused
mod Examples
mod SetupExamples
use mimik.Base.{
  ℕ, zero, suc, ◌+◌, Bool, true, false, not, ◌&&◌, List, [], ◌∷◌, leb, ◌==◌, if◌then◌else◌, u8,
  Outcome, done, halted, ◌>>=◌, ◌>>◌, assert, Option, none, some,
}
use mimik.Memory.{Ptr, null, Memory, load_le}
use mimik.Str.{str_nlength, str_nequal}

-- The loop of `checksum_matches`, with the sum so far in `c`.
unfoldable pub checksum_loop : ℕ → Memory → Ptr → ℕ → ℕ
checksum_loop zero mem p c = c
checksum_loop (suc sz) mem p c = checksum_loop sz mem (p + 1) (u8 (c + mem p))

unfoldable pub checksum_matches : Memory → Ptr → ℕ → Bool
checksum_matches mem p sz = checksum_loop sz mem p 0 == 0

-- "RSD PTR "
abbrev pub rsd_ptr : List ℕ
rsd_ptr = 82 ∷ 83 ∷ 68 ∷ 32 ∷ 80 ∷ 84 ∷ 82 ∷ 32 ∷ []

unfoldable pub signature_loop : List ℕ → Memory → Ptr → Bool
signature_loop [] mem sig = true
signature_loop (c ∷ target) mem sig =
    let rest = signature_loop target mem (sig + 1) in if mem sig == c then rest else false

unfoldable pub signature_matches : Memory → Ptr → Bool
signature_matches mem sig = signature_loop rsd_ptr mem sig

-- The field `length` of a `struct acpi_sdt_header`, 4 bytes from offset 4 on.
unfoldable pub table_length : Memory → Ptr → ℕ
table_length mem t = load_le 4 mem (t + 4)

-- The loop of `acpi_get_table` over the tables that are left in front of the final `NULL`.
unfoldable pub table_loop : Memory → Ptr → List Ptr → Outcome Ptr
table_loop mem sig [] = done null
table_loop mem sig (t ∷ tbls) =
    let rest = table_loop mem sig tbls in
    do
      same ← str_nequal mem t sig 4
      if same then done (if checksum_matches mem t (table_length mem t) then t else null) else rest

-- `tbls` is `none` before `acpi_init`.
unfoldable pub acpi_get_table : Memory → Option (List Ptr) → Ptr → Outcome Ptr
acpi_get_table mem none sig = halted
acpi_get_table mem (some tbls) sig =
    if sig == null
    then done null
    else (do long ← str_nlength mem sig 4; if long then table_loop mem sig tbls else done null)

abbrev pub acpi_table_max : ℕ
acpi_table_max = 6

-- `known_tbls` are the addresses of the signatures in the kernel's image.
unfoldable pub acpi_get_known_table : Memory → Option (List Ptr) → (ℕ → Ptr) → ℕ → Outcome Ptr
acpi_get_known_table mem tbls known_tbls table =
    if leb acpi_table_max table then done null else acpi_get_table mem tbls (known_tbls table)

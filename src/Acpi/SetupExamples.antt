-- ===== src/Acpi/SetupExamples.antt =====
-- The set-up of common/acpi.c with a root table whose checksum is wrong.
use mimik.Base.{
  ℕ, ◌+◌, ◌-◌, ◌≡◌, refl, inl, if◌then◌else◌, ltb, List, [], ◌∷◌, none, some, done, true, success,
  error, eintegrity, get_or,
}
use mimik.Base.Commands.{pure}
use mimik.Memory.{Ptr, null, Memory, load_le}
use mimik.Str.{str_nequal, nequal_loop}
use mimik.Acpi.{checksum_loop, checksum_matches, signature_loop, signature_matches, table_length}
use mimik.Acpi.Setup.{Mapper, Acpi, map_table, acpi_init}
use mimik.Acpi.Refused.{old_variant, refusal, acpi_init-refusal}

-- The root pointer at 0x100, "RSDT" at 0x500, and the root table at 0x3000.
abbrev rsdp_bytes : List ℕ
rsdp_bytes =
    82 ∷ 83 ∷ 68 ∷ 32 ∷ 80 ∷ 84 ∷ 82 ∷ 32 ∷ 193 ∷ 0 ∷ 0 ∷ 0 ∷ 0 ∷ 0 ∷ 0 ∷ 0 ∷ 0 ∷ 32 ∷ 0 ∷ 0 ∷ []

abbrev root_bytes : List ℕ
root_bytes = 82 ∷ 83 ∷ 68 ∷ 84 ∷ 40 ∷ 0 ∷ 0 ∷ 0 ∷ 0 ∷ 92 ∷ []

-- A byte of the root table is wrong.
abbrev memory : Memory
memory a =
    if ltb a 0x100
    then 0
    else if ltb a 0x500
    then get_or rsdp_bytes (a - 0x100) 0
    else if ltb a 0x3000
    then get_or (82 ∷ 83 ∷ 68 ∷ 84 ∷ []) (a - 0x500) 0
    else if ltb a 0x3024
    then get_or root_bytes (a - 0x3000) 0
    else get_or (0 ∷ 64 ∷ []) (a - 0x3024) 0

-- Physical memory is seen a page further on.
abbrev mapper : Mapper (Unit {0})
mapper = record {
  see = λ s. memory;
  map_bytes = λ paddr bytes hint. pure (success, paddr + 4096);
  mm_alloc = λ n. pure 0x9000;
  clear = λ p n. pure tt;
}

abbrev nowhere : Acpi
nowhere = record { root = null; tbls = none }

known : ℕ → Ptr
known n = 0x500

table_mapped : map_table mapper known 0x2000 null tt ≡ done ((success, 0x3000), tt)
unfolding map_table table_length load_le
table_mapped = refl

name_fits : str_nequal memory 0x3000 0x500 4 ≡ done true
unfolding str_nequal nequal_loop
name_fits = refl

table_refused :
    refusal memory memory old_variant 0x100 success 0x3000 true ≡ some (error eintegrity)
unfolding checksum_loop checksum_matches signature_loop signature_matches table_length load_le
table_refused = refl

acpi_init-refusal_example :
    acpi_init mapper known 1 0x100 nowhere tt
    ≡ done ((error eintegrity, record nowhere { root = 0x3000 }), tt)
unfolding known checksum_loop checksum_matches signature_loop signature_matches load_le
acpi_init-refusal_example =
    acpi_init-refusal mapper known old_variant 0x100 0x3000 true success (error eintegrity) nowhere
      tt tt (inl refl) table_mapped name_fits table_refused

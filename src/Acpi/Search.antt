-- ===== src/Acpi/Search.antt =====
-- What `checksum_matches` and `acpi_get_table` of common/acpi.c compute.
use mimik.Base.{
  ℕ, zero, suc, ◌+◌, ◌%◌, ◌<◌, ◌≡◌, ◌≢◌, refl, arith, Bool, false, ◌&&◌, List, [], ◌∷◌, ◌==◌,
  if◌then◌else◌, done, Option, none, some, Bool-cases, inl, inr, ◌∙◌, ap,
}
use mimik.Memory.{Ptr, null, Memory}
use mimik.Str.{nequal_loop, str_nequal, str_nlength, nlength_loop}
use mimik.Acpi.{checksum_loop, checksum_matches, table_length, table_loop, acpi_get_table}

-- The sum of `n` bytes.
pub sum_bytes : Memory → Ptr → ℕ → ℕ
sum_bytes mem p zero = 0
sum_bytes mem p (suc n) = mem p + sum_bytes mem (p + 1) n

checksum_loop-sum :
    (n : ℕ) (mem : Memory) (p : Ptr) (c : ℕ)
    → c < 256
    → checksum_loop n mem p c ≡ (c + sum_bytes mem p n) % 256
unfolding checksum_loop sum_bytes
checksum_loop-sum zero mem p c lt = omega arith
checksum_loop-sum (suc n) mem p c lt =
    omega (arith, checksum_loop-sum n mem (p + 1) ((c + mem p) % 256) (omega arith))

-- `checksum_matches` tests whether the bytes of a range add up to 0 in 8 bits.
pub checksum_matches-sum :
    (mem : Memory) (p : Ptr) (n : ℕ) → checksum_matches mem p n ≡ (sum_bytes mem p n % 256 == 0)
unfolding checksum_matches
checksum_matches-sum mem p n =
    let sum : checksum_loop n mem p 0 ≡ sum_bytes mem p n % 256 =
      omega (arith, checksum_loop-sum n mem p 0 (omega arith)) in
    ap (λ (c : ℕ). c == 0) sum

-- The four characters at two addresses are the same.
abbrev pub same_signature : Memory → (t sig : Ptr) → Bool
same_signature mem t sig =
    (mem t == mem sig)
    && (mem (t + 1) == mem (sig + 1))
    && (mem (t + 2) == mem (sig + 2))
    && (mem (t + 3) == mem (sig + 3))

-- The first table with a signature, if there is one.
abbrev pub first_with : Memory → Ptr → List Ptr → Option Ptr
first_with mem sig [] = none
first_with mem sig (t ∷ tbls) = if same_signature mem t sig then some t else first_with mem sig tbls

-- That table, if its bytes add up to 0.
abbrev pub if_intact : Memory → Option Ptr → Ptr
if_intact mem none = null
if_intact mem (some t) = if sum_bytes mem t (table_length mem t) % 256 == 0 then t else null

-- The tables are mapped.
abbrev pub AllMapped : List Ptr → Type 0
AllMapped [] = Unit {0}
AllMapped (t ∷ tbls) = (t ≢ null) × AllMapped tbls

-- A signature has no NUL in its four characters.
abbrev pub IsSignature : Memory → Ptr → Type 0
IsSignature mem sig =
    (mem sig ≢ 0) × (mem (sig + 1) ≢ 0) × (mem (sig + 2) ≢ 0) × (mem (sig + 3) ≢ 0)

nequal_loop-same : (mem : Memory) (t sig : Ptr) → nequal_loop 4 mem t sig ≡ same_signature mem t sig
unfolding nequal_loop
nequal_loop-same mem t sig = ground arith

table_loop-first :
    (mem : Memory) (sig : Ptr) (tbls : List Ptr)
    → sig ≢ null
    → AllMapped tbls
    → table_loop mem sig tbls ≡ done (if_intact mem (first_with mem sig tbls))
unfolding table_loop str_nequal
table_loop-first mem sig [] ns all = refl
table_loop-first mem sig (t ∷ tbls) ns all =
    let found = nequal_loop-same mem t sig in
    elim (Bool-cases (same_signature mem t sig)) [
      | inl same ↦
          rw (not_null t all.0, not_null sig ns, found ∙ same, same)
            (rw (checksum_matches-sum mem t (table_length mem t)) refl)
      | inr other ↦
          rw (not_null t all.0, not_null sig ns, found ∙ other, other)
            (table_loop-first mem sig tbls ns all.1)
    ]
  where
    not_null : (p : Ptr) → p ≢ null → (p == null) ≡ false
    not_null p ne = ground arith

-- `acpi_get_table`, for a signature of four characters without a NUL and tables that are mapped,
-- finds the first table with that signature, and returns it if its bytes add up to 0 in 8 bits, or
-- `NULL` if they do not or if there is no such table.
pub acpi_get_table-first :
    (mem : Memory) (tbls : List Ptr) (sig : Ptr)
    → sig ≢ null
    → IsSignature mem sig
    → AllMapped tbls
    → acpi_get_table mem (some tbls) sig ≡ done (if_intact mem (first_with mem sig tbls))
unfolding acpi_get_table str_nlength nlength_loop
acpi_get_table-first mem tbls sig ns long all =
    rw (not_null, a, b, c, d) (table_loop-first mem sig tbls ns all)
  where
    not_null : (sig == null) ≡ false
    not_null = ground arith

    a : (mem sig == 0) ≡ false
    a = ground (arith, long.0)

    b : (mem (sig + 1) == 0) ≡ false
    b = ground (arith, long.1)

    c : (mem (sig + 1 + 1) == 0) ≡ false
    c = ground (arith, long.2)

    d : (mem (sig + 1 + 1 + 1) == 0) ≡ false
    d = ground (arith, long.3)

-- ===== src/Acpi/Setup.antt =====
-- The set-up of common/acpi.c: the root table is mapped and checked, then the tables that it lists.
-- What it asks of the page tables and of the heap is an interface.
use mimik.Base.{
  ℕ, Bool, true, false, zero, suc, ◌+◌, ◌-◌, ◌*◌, ◌^◌, not, ltb, ◌==◌, if◌then◌else◌, u64, ◌>>>◌,
  List, [], ◌∷◌, bit_and, Option, none, some, Outcome, done, halted, fault, out_of_fuel, Status,
  error, einval, eintegrity, enotimpl, success, is_error,
}
use mimik.Base.Commands as Commands
use mimik.Base.Commands.{◌>>=◌, ◌>>◌, pure, check}
use mimik.Memory.{Ptr, null, Memory, load_le}
use mimik.Str.{str_nequal}
use mimik.Acpi.{checksum_matches, signature_matches, table_length}

-- What the code reads of memory under a state, `vmk_map_bytes` of an address, a number of bytes and
-- what the pointer holds, `mm_alloc`, and `mem_set` to 0.
pub record Mapper (S : Type 0) : Type 0 where
  pub see : S → Memory
  pub map_bytes : (paddr bytes hint : ℕ) → Commands.Command S (Status × Ptr)
  pub mm_alloc : ℕ → Commands.Command S Ptr
  pub clear : Ptr → ℕ → Commands.Command S (Unit {0})

-- The static variables: `root`, and the array behind `tbls` up to its end, which is null.
pub record Acpi : Type 0 where
  pub root : Ptr
  pub tbls : Option (List Ptr)

-- `sizeof(struct acpi_sdt_header)` and `sizeof(struct acpi_rsdp)`.
abbrev pub header_size : ℕ
header_size = 36

abbrev pub rsdp_size : ℕ
rsdp_size = 20

-- The fields `revision` and `rsdt_address` of a `struct acpi_rsdp`, and `xsdt_address` of the larger
-- structure.
abbrev pub revision_of : Memory → Ptr → ℕ
revision_of mem rsdp = mem (rsdp + 15)

abbrev pub rsdt_address : Memory → Ptr → ℕ
rsdt_address mem rsdp = load_le 4 mem (rsdp + 16)

abbrev pub xsdt_address : Memory → Ptr → ℕ
xsdt_address mem xsdp = load_le 8 mem (xsdp + 24)

-- The places of the two root tables among `known_tbls`.
abbrev pub table_rsdt : ℕ
table_rsdt = 3

abbrev pub table_xsdt : ℕ
table_xsdt = 5

-- The entries of a root table, of `width` bytes each.
unfoldable pub entry_count : (shift length : ℕ) → ℕ
entry_count shift length = u64 (length + 2 ^ 64 - header_size) >>> shift

abbrev pub entry_at : (width : ℕ) → Memory → Ptr → ℕ → ℕ
entry_at width mem root i = load_le width mem (root + header_size + width * i)

module _ {S : Type 0} (mapper : Mapper S) (known_tbls : ℕ → Ptr) where
  abbrev Command : Type 0 → Type 0
  Command A = Commands.Command S A

  -- What a range of memory holds is read of the state.
  abbrev pub look : {A : Type 0} → (Memory → A) → Command A
  look f s = done (f (mapper.see s), s)

  abbrev pub look_or : {A : Type 0} → (Memory → Outcome A) → Command A
  look_or f s = keep s (f (mapper.see s))
    where
      keep : {A : Type 0} → S → Outcome A → Outcome (A × S)
      keep s (done a) = done (a, s)
      keep s halted = halted
      keep s fault = fault
      keep s out_of_fuel = out_of_fuel

  -- `map_table(paddr, &p)`, with what `p` holds before and after. A header that crosses the end of
  -- its page is read all the same.
  unfoldable pub map_table : ℕ → Ptr → Command (Status × Ptr)
  map_table paddr p = do
    (res, p1) ← mapper.map_bytes paddr header_size p
    if is_error res then pure (res, p1) else (do
      length ← look (λ mem. table_length mem p1)
      if ltb (4096 - bit_and p1 4095) length
          then (do
            (res2, p2) ← mapper.map_bytes paddr length p1
            pure (if is_error res2 then res2 else success, p2))
          else pure (success, p1))

  -- The result has what `root` holds afterwards.
  unfoldable pub acpi_init_generic : (rsdp sdt_address revision : ℕ) → Ptr → Command (Status × Ptr)
  acpi_init_generic rsdp sdt_address revision root = do
    intact ← look (λ mem. checksum_matches mem rsdp rsdp_size)
    if not intact then pure (error einval, root) else do
      signed ← look (λ mem. signature_matches mem rsdp)
      if not signed then pure (error einval, root) else do
        current ← look (λ mem. revision_of mem rsdp == revision)
        if not current then pure (error einval, root) else do
          (res, root') ← map_table sdt_address root
          pure (if is_error res then res else success, root')

  -- The array up to its first null.
  abbrev until_null : Ptr → List Ptr → List Ptr
  until_null p rest = if p == null then [] else p ∷ rest

  -- The loop over the entries from number `i` on. Behind the entry where the mapping fails the array
  -- holds nulls.
  unfoldable pub map_loop : (width left i : ℕ) → Ptr → Command (Status × List Ptr)
  map_loop width zero i root = pure (success, [])
  map_loop width (suc left) i root = do
    paddr ← look (λ mem. entry_at width mem root i)
    (res, p) ← map_table paddr null
    if is_error res
        then pure (res, until_null p [])
        else (do (res', rest) ← map_loop width left (i + 1) root; pure (res', until_null p rest))

  -- What `acpi_init_rsdp` and `acpi_init_xsdp` do once the root table is mapped.
  unfoldable pub list_tables : (known shift width : ℕ) → Acpi → Command (Status × Acpi)
  list_tables known shift width a = do
    same ← look_or (λ mem. str_nequal mem a.root (known_tbls known) 4)
    if not same then pure (error einval, a) else do
      intact ← look (λ mem. checksum_matches mem a.root (table_length mem a.root))
      if not intact then pure (error eintegrity, a) else do
        length ← look (λ mem. table_length mem a.root)
        let n_tbls = entry_count shift length
        let tbls_sz = u64 (8 * u64 (n_tbls + 1))
        p ← mapper.mm_alloc tbls_sz
        mapper.clear p tbls_sz
        (res, tbls) ← map_loop width n_tbls 0 a.root
        pure (res, record a { tbls = some tbls })

  unfoldable pub acpi_init_rsdp : Ptr → Acpi → Command (Status × Acpi)
  acpi_init_rsdp rsdp a = do
    sdt ← look (λ mem. rsdt_address mem rsdp)
    (res, root) ← acpi_init_generic rsdp sdt 0 a.root
    let a' : Acpi = record a { root = root }
    if is_error res then pure (res, a') else list_tables table_rsdt 2 4 a'

  unfoldable pub acpi_init_xsdp : Ptr → Acpi → Command (Status × Acpi)
  acpi_init_xsdp xsdp a = do
    sdt ← look (λ mem. xsdt_address mem xsdp)
    (res, root) ← acpi_init_generic xsdp sdt 2 a.root
    let a' : Acpi = record a { root = root }
    if is_error res then pure (res, a') else list_tables table_xsdt 3 8 a'

  abbrev is_some : Option (List Ptr) → Bool
  is_some none = false
  is_some (some tbls) = true

  -- Behind the two set-ups; the messages about the tables are left out.
  abbrev finish_init : Status × Acpi → Command (Status × Acpi)
  finish_init (res, a) =
      if is_error res
      then pure (res, a)
      else (do check (not (a.root == null)); check (is_some a.tbls); pure (success, a))

  -- `type` and `address` are what the boot loader says: 1 for a `struct acpi_rsdp` there, 2 for a
  -- `struct acpi_xsdp`.
  unfoldable pub acpi_init : (type : ℕ) → (address : Ptr) → Acpi → Command (Status × Acpi)
  acpi_init type address a =
      if type == 1
      then (do r ← acpi_init_rsdp address a; finish_init r)
      else if type == 2
      then (do r ← acpi_init_xsdp address a; finish_init r)
      else pure (error enotimpl, a)

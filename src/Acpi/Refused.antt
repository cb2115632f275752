-- ===== src/Acpi/Refused.antt =====
-- With which status `acpi_init` (common/acpi.c) refuses a root pointer or a root table.
use mimik.Base.{
  ℕ, ◌≡◌, refl, Bool, true, false, not, ◌&&◌, if◌then◌else◌, ◌==◌, arith, done, Status, Error, code,
  is_error, success, error, einval, eintegrity, Option, none, some, Bool-cases, inl, inr, ◌⊎◌, sym,
  subst,
}
use mimik.Memory.{Ptr, Memory}
use mimik.Str.{str_nequal}
use mimik.Acpi.{checksum_matches, signature_matches, table_length}
use mimik.Acpi.Setup.{
  Mapper, Acpi, rsdp_size, revision_of, rsdt_address, xsdt_address, table_rsdt, table_xsdt,
  map_table, acpi_init_generic, list_tables, acpi_init_rsdp, acpi_init_xsdp, acpi_init,
}

-- The two kinds of root pointer, by the type that the boot loader passes on, with what differs.
pub record Variant : Type 0 where
  pub type : ℕ
  pub revision : ℕ
  pub known : ℕ
  pub shift : ℕ
  pub width : ℕ
  pub sdt : Memory → Ptr → ℕ

abbrev pub old_variant : Variant
old_variant = record {
  type = 1;
  revision = 0;
  known = table_rsdt;
  shift = 2;
  width = 4;
  sdt = rsdt_address;
}

abbrev pub new_variant : Variant
new_variant = record {
  type = 2;
  revision = 2;
  known = table_xsdt;
  shift = 3;
  width = 8;
  sdt = xsdt_address;
}

-- The three tests of the root pointer.
abbrev pub is_pointer : Memory → Variant → Ptr → Bool
is_pointer mem v rsdp =
    checksum_matches mem rsdp rsdp_size
    && (signature_matches mem rsdp && (revision_of mem rsdp == v.revision))

-- With which status the set-up is refused, if it is: `before` and `behind` are the memory in front of
-- the mapping of the root table and behind it, `res` is the status of that mapping, `root` where the
-- table is mapped, and `named` whether it has the name of its kind.
abbrev pub refusal :
    (before behind : Memory)
    → Variant
    → Ptr
    → (res : Status) → (root : Ptr) → (named : Bool) → Option Status
refusal before behind v rsdp res root named =
    if not (is_pointer before v rsdp)
    then some (error einval)
    else if is_error res
    then some res
    else if not named
    then some (error einval)
    else if not (checksum_matches behind root (table_length behind root))
    then some (error eintegrity)
    else none

module _ {S : Type 0} (mapper : Mapper S) (known_tbls : ℕ → Ptr) where
  -- `acpi_init_generic`, on a pointer that fails a test, and on one that passes all.
  generic-refused :
      (v : Variant) (rsdp root : Ptr) (s : S)
      → is_pointer (mapper.see s) v rsdp ≡ false
      → acpi_init_generic mapper known_tbls rsdp (v.sdt (mapper.see s) rsdp) v.revision root s
        ≡ done ((error einval, root), s)
  unfolding acpi_init_generic
  generic-refused v rsdp root s bad =
      elim (Bool-cases (checksum_matches (mapper.see s) rsdp rsdp_size)) [
        | inl sum ↦ elim (Bool-cases (signature_matches (mapper.see s) rsdp)) [
          | inl signed ↦
              let old : (revision_of (mapper.see s) rsdp == v.revision) ≡ false =
                ground (arith, bad) in
              rw (sum, signed, old) refl
          | inr unsigned ↦ rw (sum, unsigned) refl
        ]
        | inr broken ↦ rw broken refl
      ]

  generic-mapped :
      (v : Variant) (rsdp root root' : Ptr) (res : Status) (s s1 : S)
      → is_pointer (mapper.see s) v rsdp ≡ true
      → map_table mapper known_tbls (v.sdt (mapper.see s) rsdp) root s ≡ done ((res, root'), s1)
      → acpi_init_generic mapper known_tbls rsdp (v.sdt (mapper.see s) rsdp) v.revision root s
        ≡ done ((if is_error res then res else success, root'), s1)
  unfolding acpi_init_generic
  generic-mapped v rsdp root root' res s s1 good run =
      let sum : checksum_matches (mapper.see s) rsdp rsdp_size ≡ true = ground (arith, good) in
      let signed : signature_matches (mapper.see s) rsdp ≡ true = ground (arith, good) in
      let new : (revision_of (mapper.see s) rsdp == v.revision) ≡ true = ground (arith, good) in
      rw (sum, signed, new, run) refl

  misnamed :
      (known shift width : ℕ) (a : Acpi) (s : S)
      → str_nequal (mapper.see s) a.root (known_tbls known) 4 ≡ done false
      → list_tables mapper known_tbls known shift width a s ≡ done ((error einval, a), s)
  unfolding list_tables
  misnamed known shift width a s name = rw name refl

  corrupted :
      (known shift width : ℕ) (a : Acpi) (s : S)
      → str_nequal (mapper.see s) a.root (known_tbls known) 4 ≡ done true
      → checksum_matches (mapper.see s) a.root (table_length (mapper.see s) a.root) ≡ false
      → list_tables mapper known_tbls known shift width a s ≡ done ((error eintegrity, a), s)
  unfolding list_tables
  corrupted known shift width a s name bad = rw (name, bad) refl

  bad_pointer :
      (v : Variant) (rsdp : Ptr) (a : Acpi) (s : S)
      → (v ≡ old_variant) ⊎ (v ≡ new_variant)
      → is_pointer (mapper.see s) v rsdp ≡ false
      → acpi_init mapper known_tbls v.type rsdp a s ≡ done ((error einval, a), s)
  unfolding acpi_init acpi_init_rsdp acpi_init_xsdp
  bad_pointer v rsdp a s kind bad = elim kind [
    | inl e ↦
        let bad' = subst (λ w. is_pointer (mapper.see s) w rsdp ≡ false) e bad in
        subst
          (λ (w : Variant).
            acpi_init mapper known_tbls w.type rsdp a s ≡ done ((error einval, a), s))
          (sym e) (rw (generic-refused old_variant rsdp a.root s bad') refl)
    | inr e ↦
        let bad' = subst (λ w. is_pointer (mapper.see s) w rsdp ≡ false) e bad in
        subst
          (λ (w : Variant).
            acpi_init mapper known_tbls w.type rsdp a s ≡ done ((error einval, a), s))
          (sym e) (rw (generic-refused new_variant rsdp a.root s bad') refl)
  ]

  -- What a good pointer comes to: the error of the mapping, or that of `list_tables`.
  Comes : Variant → Ptr → Ptr → Status → Error → Acpi → S → S → Type 0
  Comes v rsdp root res c a s s1 =
      is_pointer (mapper.see s) v rsdp ≡ true
      → map_table mapper known_tbls (v.sdt (mapper.see s) rsdp) a.root s ≡ done ((res, root), s1)
      → list_tables mapper known_tbls v.known v.shift v.width (record a { root = root }) s1
        ≡ done ((error c, record a { root = root }), s1)
      → acpi_init mapper known_tbls v.type rsdp a s ≡ done ((error c, record a { root = root }), s1)

  good_pointer :
      (v : Variant) (rsdp root : Ptr) (n : ℕ) (c : Error) (a : Acpi) (s s1 : S)
      → (v ≡ old_variant) ⊎ (v ≡ new_variant)
      → Comes v rsdp root (code n) c a s s1
  unfolding Comes acpi_init acpi_init_rsdp acpi_init_xsdp
  good_pointer v rsdp root n c a s s1 kind = elim kind [
    | inl e ↦
        subst (λ w. Comes w rsdp root (code n) c a s s1) (sym e)
          (λ good run list.
            rw (generic-mapped old_variant rsdp a.root root (code n) s s1 good run, list) refl)
    | inr e ↦
        subst (λ w. Comes w rsdp root (code n) c a s s1) (sym e)
          (λ good run list.
            rw (generic-mapped new_variant rsdp a.root root (code n) s s1 good run, list) refl)
  ]

  Fails : Variant → Ptr → Ptr → Error → Acpi → S → S → Type 0
  Fails v rsdp root c a s s1 =
      is_pointer (mapper.see s) v rsdp ≡ true
      → map_table mapper known_tbls (v.sdt (mapper.see s) rsdp) a.root s
        ≡ done ((error c, root), s1)
      → acpi_init mapper known_tbls v.type rsdp a s ≡ done ((error c, record a { root = root }), s1)

  unmapped :
      (v : Variant) (rsdp root : Ptr) (c : Error) (a : Acpi) (s s1 : S)
      → (v ≡ old_variant) ⊎ (v ≡ new_variant)
      → Fails v rsdp root c a s s1
  unfolding Fails acpi_init acpi_init_rsdp acpi_init_xsdp
  unmapped v rsdp root c a s s1 kind = elim kind [
    | inl e ↦
        subst (λ w. Fails w rsdp root c a s s1) (sym e)
          (λ good run.
            rw (generic-mapped old_variant rsdp a.root root (error c) s s1 good run) refl)
    | inr e ↦
        subst (λ w. Fails w rsdp root c a s s1) (sym e)
          (λ good run.
            rw (generic-mapped new_variant rsdp a.root root (error c) s s1 good run) refl)
  ]

  -- `acpi_init` of a root pointer of either kind that is refused in front of the list of tables:
  -- -EINVAL and no change where the pointer fails one of its three tests, else the error of the
  -- mapping of the root table, else -EINVAL where that table has another name, else -EINTEGRITY where
  -- its checksum is wrong. `root` is set by the mapping, and the list of tables is as it was. The
  -- mapping returns, and the name can be compared.
  pub acpi_init-refusal :
      (v : Variant) (rsdp root : Ptr) (named : Bool) (res status : Status) (a : Acpi) (s s1 : S)
      → (v ≡ old_variant) ⊎ (v ≡ new_variant)
      → map_table mapper known_tbls (v.sdt (mapper.see s) rsdp) a.root s ≡ done ((res, root), s1)
      → str_nequal (mapper.see s1) root (known_tbls v.known) 4 ≡ done named
      → refusal (mapper.see s) (mapper.see s1) v rsdp res root named ≡ some status
      → acpi_init mapper known_tbls v.type rsdp a s ≡ (
          if is_pointer (mapper.see s) v rsdp
          then done ((status, record a { root = root }), s1)
          else done ((status, a), s))
  unfolding Comes Fails
  acpi_init-refusal v rsdp root named res status a s s1 kind run name refused =
      elim (Bool-cases (is_pointer (mapper.see s) v rsdp)) [
        | inr bad ↦
            let same : error einval ≡ status = ground (arith, refused, bad) in
            rw (bad, ← same) (bad_pointer v rsdp a s kind bad)
        | inl good ↦ rw good (by_status res named run name (rw good at refused) good)
      ]
    where
      by_status :
          (res : Status) (named : Bool)
          → map_table mapper known_tbls (v.sdt (mapper.see s) rsdp) a.root s
            ≡ done ((res, root), s1)
          → str_nequal (mapper.see s1) root (known_tbls v.known) 4 ≡ done named
          → (if is_error res
              then some res
              else if not named
              then some (error einval)
              else if not
                  (checksum_matches (mapper.see s1) root (table_length (mapper.see s1) root))
              then some (error eintegrity)
              else none)
            ≡ some status
          → is_pointer (mapper.see s) v rsdp ≡ true
          → acpi_init mapper known_tbls v.type rsdp a s
            ≡ done ((status, record a { root = root }), s1)
      by_status (error c) named run name at good =
          let same : error c ≡ status = ground (arith, at) in
          rw (← same) (unmapped v rsdp root c a s s1 kind good run)
      by_status (code n) false run name at good =
          let same : error einval ≡ status = ground (arith, at) in
          rw (← same) (
            good_pointer v rsdp root n einval a s s1 kind good run
              (misnamed v.known v.shift v.width (record a { root = root }) s1 name))
      by_status (code n) true run name at good =
          elim (Bool-cases
            (checksum_matches (mapper.see s1) root (table_length (mapper.see s1) root))) [
              | inl whole ↦ absurd (ground (arith, at, whole))
              | inr bad ↦
                  let same : error eintegrity ≡ status = ground (arith, at, bad) in
                  rw (← same) (
                    good_pointer v rsdp root n eintegrity a s s1 kind good run
                      (corrupted v.known v.shift v.width (record a { root = root }) s1 name bad))
            ]

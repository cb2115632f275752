-- ===== src/Initfs/Archive.antt =====
-- What `initfs_lookup` (common/initfs.c) finds in a ustar archive.
use mimik.Base.{
  ℕ, zero, suc, ◌+◌, ◌<◌, ◌≤◌, ◌≡◌, refl, arith, Bool, true, false, List, [], ◌∷◌, ltb, ◌==◌,
  if◌then◌else◌, Outcome, done, halted, length, Bool-cases, inl, inr, ◌∙◌, ap, u64, error, enoent,
  success,
}
use mimik.Memory.{Ptr, null, Memory}
use mimik.Page.{align_up}
use mimik.Str.{str_equal, str_nequal, nequal_loop}
use mimik.Str.Length.{IsString, str_length-done}
use mimik.Str.Equal.{same_chars, same_chars-empty, same_chars_iff, str_equal_lem}
use mimik.Initfs.{
  oct_str_to_num, header_size, file_name_size, file_size_at, file_size_size, type_flag_at,
  ustar_string_at, ustar_version_at, type_flag_file, Found, lookup_loop, initfs_lookup,
}

-- An entry of an archive, with its type byte: 48, the character 0, for a regular file.
pub record File : Type 0 where
  pub name : List ℕ
  pub size : ℕ
  pub type : ℕ

-- "ustar"
abbrev pub ustar_chars : List ℕ
ustar_chars = 117 ∷ 115 ∷ 116 ∷ 97 ∷ 114 ∷ []

-- At `hdr` stands the header of an entry; its name ends within `fuel`.
pub record IsHeader (fuel : ℕ) (mem : Memory) (hdr : Ptr) (f : File) : Type 0 where
  pub here : 0 < hdr
  pub named : IsString mem hdr f.name
  pub short : length f.name < fuel
  pub magic : IsString mem (ustar_string_at hdr) ustar_chars
  pub version0 : mem (ustar_version_at hdr) ≡ 48
  pub version1 : mem (ustar_version_at hdr + 1) ≡ 48
  pub sized : oct_str_to_num mem (file_size_at hdr) file_size_size ≡ done f.size
  pub typed : mem (type_flag_at hdr) ≡ f.type

abbrev pub next_header : Ptr → File → Ptr
next_header hdr f = align_up (u64 (hdr + header_size + f.size)) header_size

-- From `hdr` to `end` stand the headers of some entries, each followed by its data, and behind them
-- nothing, or, if `marked`, the blocks of zeros that mark the end of an archive.
abbrev pub IsArchive : ℕ → Memory → (end hdr : Ptr) → (marked : Bool) → List File → Type 0
IsArchive fuel mem end hdr false [] = end ≤ hdr
IsArchive fuel mem end hdr true [] = (hdr < end) × (mem (ustar_string_at hdr) ≡ 0)
IsArchive fuel mem end hdr marked (f ∷ files) =
    (hdr < end) × IsHeader fuel mem hdr f × IsArchive fuel mem end (next_header hdr f) marked files

-- What a search for a name comes to: the first entry with the name, if its type byte is 1, a halt if
-- it has another type, and without such an entry a halt at the blocks of zeros, or `ENOENT`.
abbrev pub find_file : Ptr → (marked : Bool) → List File → List ℕ → Found → Outcome Found
find_file hdr true [] path old = halted
find_file hdr false [] path old = done (record old { status = error enoent })
find_file hdr marked (f ∷ files) path old =
    if same_chars f.name path
    then (if f.type == type_flag_file
        then done (record { status = success; file_ptr = hdr + header_size; file_size = f.size })
        else halted)
    else find_file (next_header hdr f) marked files path old

-- The literals and the path that the search compares with.
pub record IsSearch (fuel : ℕ) (mem : Memory) (ustar version path : Ptr) (chars : List ℕ)
    : Type 0 where
  pub ustar_here : 0 < ustar
  pub ustar_string : IsString mem ustar ustar_chars
  pub version_here : 0 < version
  pub version0 : mem version ≡ 48
  pub version1 : mem (version + 1) ≡ 48
  pub path_here : 0 < path
  pub path_string : IsString mem path chars
  pub path_short : length chars < fuel
  pub some_chars : 0 < length chars
  pub long_fuel : 6 < fuel

module _ (fuel : ℕ) (mem : Memory) (ustar version path : Ptr) (chars : List ℕ) where
  magic_ok :
      (hdr : Ptr) (f : File)
      → IsSearch fuel mem ustar version path chars
      → IsHeader fuel mem hdr f
      → str_equal fuel mem (ustar_string_at hdr) ustar ≡ done true
  magic_ok hdr f s h =
      str_equal_lem fuel mem (ustar_string_at hdr) ustar ustar_chars ustar_chars
        (λ e. absurd (omega arith)) (λ e. absurd (omega (arith, s.ustar_here))) h.magic
        s.ustar_string (omega (arith, s.long_fuel)) (omega (arith, s.long_fuel))
      ∙ ap (λ (b : Bool). done b) ((same_chars_iff ustar_chars ustar_chars).1 refl)

  version_ok :
      (hdr : Ptr) (f : File)
      → IsSearch fuel mem ustar version path chars
      → IsHeader fuel mem hdr f
      → str_nequal mem (ustar_version_at hdr) version 2 ≡ done true
  unfolding str_nequal nequal_loop
  version_ok hdr f s h = ground arith

  name_compared :
      (hdr : Ptr) (f : File)
      → IsSearch fuel mem ustar version path chars
      → IsHeader fuel mem hdr f
      → str_equal fuel mem hdr path ≡ done (same_chars f.name chars)
  name_compared hdr f s h =
      let some_name : (length f.name + length chars == 0) ≡ false = ground (arith, s.some_chars) in
      rw
        (
          str_equal_lem fuel mem hdr path f.name chars (λ e. absurd (omega (arith, h.here)))
              (λ e. absurd (omega (arith, s.path_here))) h.named s.path_string h.short s.path_short,
          some_name,
        )
        refl

  -- A block of zeros is no header.
  no_magic :
      (hdr : Ptr)
      → IsSearch fuel mem ustar version path chars
      → mem (ustar_string_at hdr) ≡ 0
      → str_equal fuel mem (ustar_string_at hdr) ustar ≡ done false
  no_magic hdr s zeros =
      str_equal_lem fuel mem (ustar_string_at hdr) ustar [] ustar_chars (λ e. absurd (omega arith))
        (λ e. absurd (omega (arith, s.ustar_here))) zeros s.ustar_string
        (omega (arith, s.long_fuel)) (omega (arith, s.long_fuel))
      ∙ ap (λ (b : Bool). done b) (same_chars-empty 117 (115 ∷ 116 ∷ 97 ∷ 114 ∷ []))

  lookup_loop-find :
      (rounds : ℕ) (end hdr : Ptr) (marked : Bool) (files : List File) (old : Found)
      → IsSearch fuel mem ustar version path chars
      → IsArchive fuel mem end hdr marked files
      → length files < rounds
      → lookup_loop fuel mem ustar version rounds end hdr path old
        ≡ find_file hdr marked files chars old
  unfolding lookup_loop
  lookup_loop-find zero end hdr marked files old s a lt = absurd (omega arith)
  lookup_loop-find (suc rounds) end hdr false [] old s a lt =
      let stop : ltb hdr end ≡ false = ground arith in rw stop refl
  lookup_loop-find (suc rounds) end hdr true [] old s a lt =
      let on : ltb hdr end ≡ true = ground (arith, a.0) in rw (on, no_magic hdr s a.1) refl
  lookup_loop-find (suc rounds) end hdr marked (f ∷ files) old s a lt =
      let h = a.1 in
      let on : ltb hdr end ≡ true = ground (arith, a.0) in
      elim (Bool-cases (same_chars f.name chars)) [
        | inl same ↦ elim (Bool-cases (f.type == type_flag_file)) [
          | inl file ↦
              rw
                (
                  on,
                  magic_ok hdr f s h,
                  version_ok hdr f s h,
                  h.sized,
                  name_compared hdr f s h,
                  same,
                  h.typed,
                  file,
                )
                refl
          | inr other_type ↦
              rw
                (
                  on,
                  magic_ok hdr f s h,
                  version_ok hdr f s h,
                  h.sized,
                  name_compared hdr f s h,
                  same,
                  h.typed,
                  other_type,
                )
                refl
        ]
        | inr other ↦
            rw
              (
                on,
                magic_ok hdr f s h,
                version_ok hdr f s h,
                h.sized,
                name_compared hdr f s h,
                other,
              )
              (lookup_loop-find rounds end (next_header hdr f) marked files old s a.2 (omega arith))
      ]

  -- `initfs_lookup` of a path of 1 to 99 characters ends within more rounds than the archive has
  -- entries. It reports the first entry with that name, where its data starts and how long it is, if
  -- the entry's type byte is the number 1, and halts if it has another type, as every regular file of
  -- a ustar archive has. If there is no such entry, it halts at the blocks of zeros that mark the end
  -- of an archive, and without these it returns `ENOENT` and writes nothing.
  pub initfs_lookup-find :
      (rounds : ℕ) (start end : Ptr) (marked : Bool) (files : List File) (old : Found)
      → 0 < start
      → IsSearch fuel mem ustar version path chars
      → length chars < file_name_size
      → IsArchive fuel mem end start marked files
      → length files < rounds
      → initfs_lookup fuel mem ustar version rounds start end path old
        ≡ find_file start marked files chars old
  unfolding initfs_lookup
  initfs_lookup-find rounds start end marked files old pos s short a lt =
      let fits : ltb (length chars) file_name_size ≡ true = ground arith in
      let not_null : (start == null) ≡ false = ground arith in
      let path_not_null : (path == null) ≡ false = ground (arith, s.path_here) in
      let ended =
        str_length-done fuel mem path chars (λ e. absurd (omega (arith, s.path_here))) s.path_string
          s.path_short in
      rw (not_null, path_not_null, ended, fits)
        (lookup_loop-find rounds end start marked files old s a lt)

-- ===== src/Initfs/Examples.antt =====
-- The search of common/initfs.c in an archive with one empty file.
use mimik.Base.{
  ℕ, ◌-◌, ◌≡◌, ◌≤◌, refl, arith, [], ◌∷◌, ltb, ◌==◌, if◌then◌else◌, false, get_or, error, enoent,
}
use mimik.Memory.{Memory}
use mimik.Page.{align_up}
use mimik.Initfs.{Found, oct_loop, oct_str_to_num, initfs_lookup}
use mimik.Initfs.Archive.{
  File, ustar_chars, IsHeader, next_header, find_file, IsSearch, initfs_lookup-find,
}

-- "ustar" at 0x100, "00" at 0x200 and the path "a" at 0x300; the header at 0x1000.
abbrev header_byte : ℕ → ℕ
header_byte i =
    if i == 0
    then 97
    else if ltb i 124
    then 0
    else if ltb i 135
    then 48
    else if i == 156
    then 1
    else if ltb i 257
    then 0
    else get_or (117 ∷ 115 ∷ 116 ∷ 97 ∷ 114 ∷ 0 ∷ 48 ∷ 48 ∷ []) (i - 257) 0

abbrev memory : Memory
memory a =
    if ltb a 0x100
    then 0
    else if ltb a 0x200
    then get_or ustar_chars (a - 0x100) 0
    else if ltb a 0x300
    then get_or (48 ∷ 48 ∷ []) (a - 0x200) 0
    else if ltb a 0x1000
    then get_or (97 ∷ []) (a - 0x300) 0
    else header_byte (a - 0x1000)

abbrev file : File
file = record { name = 97 ∷ []; size = 0; type = 1 }

abbrev nothing : Found
nothing = record { status = error enoent; file_ptr = 0; file_size = 0 }

file-IsHeader : IsHeader 8 memory 0x1000 file
unfolding oct_str_to_num oct_loop
file-IsHeader = record {
  here = omega arith;
  named = (refl, (λ e. omega arith), refl);
  short = omega arith;
  magic = (
    refl,
    (λ e. omega arith),
    (
      refl,
      (λ e. omega arith),
      (refl, (λ e. omega arith), (refl, (λ e. omega arith), (refl, (λ e. omega arith), refl))),
    ),
  );
  version0 = refl;
  version1 = refl;
  sized = refl;
  typed = refl;
}

archive_end : 0x1200 ≤ next_header 0x1000 file
unfolding align_up
archive_end = omega arith

file-IsSearch : IsSearch 8 memory 0x100 0x200 0x300 (97 ∷ [])
file-IsSearch = record {
  ustar_here = omega arith;
  ustar_string = (
    refl,
    (λ e. omega arith),
    (
      refl,
      (λ e. omega arith),
      (refl, (λ e. omega arith), (refl, (λ e. omega arith), (refl, (λ e. omega arith), refl))),
    ),
  );
  version_here = omega arith;
  version0 = refl;
  version1 = refl;
  path_here = omega arith;
  path_string = (refl, (λ e. omega arith), refl);
  path_short = omega arith;
  some_chars = omega arith;
  long_fuel = omega arith;
}

initfs_lookup-find_example :
    initfs_lookup 8 memory 0x100 0x200 2 0x1000 0x1200 0x300 nothing
    ≡ find_file 0x1000 false (file ∷ []) (97 ∷ []) nothing
initfs_lookup-find_example =
    initfs_lookup-find 8 memory 0x100 0x200 0x300 (97 ∷ []) 2 0x1000 0x1200 false (file ∷ [])
      nothing (omega arith) file-IsSearch (omega arith) (omega arith, file-IsHeader, archive_end)
      (omega arith)

-- ===== src/Str/Examples.antt =====
-- Runs of the string functions of mem/str.c, and the theorems about them at concrete strings.
use mimik.Base.{
  ℕ, ◌+◌, ◌≡◌, refl, true, false, List, [], ◌∷◌, length, get_or, leb, ◌==◌, if◌then◌else◌, arith,
  done, halted, out_of_fuel, ◌-◌,
}
use mimik.Memory.{Memory}
use mimik.Str.{
  length_loop, str_length, nlength_loop, str_nlength, nequal_loop, str_nequal, str_equal,
}
use mimik.Str.Length.{IsString, str_nlength-leb}
use mimik.Str.Equal.{same_chars, str_equal_lem}

-- "MCFG" at 16, "MCFI" at 24, and zeros elsewhere.
abbrev texts : Memory
texts a = get_or (77 ∷ 67 ∷ 70 ∷ 71 ∷ 0 ∷ 0 ∷ 0 ∷ 0 ∷ 77 ∷ 67 ∷ 70 ∷ 73 ∷ []) (a - 16) 0

abbrev mcfg : List ℕ
mcfg = 77 ∷ 67 ∷ 70 ∷ 71 ∷ []

abbrev mcfi : List ℕ
mcfi = 77 ∷ 67 ∷ 70 ∷ 73 ∷ []

mcfg-IsString : IsString texts 16 mcfg
mcfg-IsString = omega arith

mcfi-IsString : IsString texts 24 mcfi
mcfi-IsString = omega arith

runs :
    (str_length 5 texts 16 ≡ done 4)
    × (str_length 4 texts 16 ≡ out_of_fuel)
    × (str_nlength texts 16 4 ≡ done true)
    × (str_equal 9 texts 16 24 ≡ done false)
    × (str_equal 9 texts 16 16 ≡ done true)
    × (str_equal 9 texts 20 21 ≡ halted)
unfolding str_length length_loop str_nlength nlength_loop str_nequal nequal_loop str_equal
runs = (refl, refl, refl, refl, refl, refl)

str_nlength-leb_example : str_nlength texts 16 4 ≡ done (leb 4 (length mcfg))
str_nlength-leb_example = str_nlength-leb texts 16 4 mcfg (omega arith) mcfg-IsString

str_equal_lem_example :
    str_equal 9 texts 16 24
    ≡ (if length mcfg + length mcfi == 0 then halted else done (same_chars mcfg mcfi))
str_equal_lem_example =
    str_equal_lem 9 texts 16 24 mcfg mcfi (omega arith) (omega arith) mcfg-IsString mcfi-IsString
      (omega arith) (omega arith)

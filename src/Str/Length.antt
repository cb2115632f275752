-- ===== src/Str/Length.antt =====
-- `str_length` and `str_nlength` on a string that ends.
use mimik.Base.{ℕ, zero, suc, ◌+◌, ◌<◌, ◌≡◌, ◌≢◌, List, [], ◌∷◌, length, min, leb, arith, done}
use mimik.Memory.{Ptr, null, Memory}
use mimik.Str.{length_loop, str_length, nlength_loop, str_nlength}

-- From `p` on the memory holds the characters `xs`, none of them NUL, and then a NUL.
abbrev pub IsString : Memory → Ptr → List ℕ → Type 0
IsString mem p [] = mem p ≡ 0
IsString mem p (x ∷ xs) = (mem p ≡ x) × (x ≢ 0) × IsString mem (p + 1) xs

length_loop-done :
    (fuel : ℕ) (mem : Memory) (p : Ptr) (len : ℕ) (xs : List ℕ)
    → IsString mem p xs
    → length xs < fuel
    → length_loop fuel mem p len ≡ done (len + length xs)
unfolding length_loop
length_loop-done zero mem p len xs s h = absurd (omega arith)
length_loop-done (suc fuel) mem p len [] s h = ground arith
length_loop-done (suc fuel) mem p len (x ∷ xs) s h =
    ground (arith, length_loop-done fuel mem (p + 1) (len + 1) xs)

-- On a string that ends within the fuel, `str_length` returns the number of its characters.
pub str_length-done :
    (fuel : ℕ) (mem : Memory) (p : Ptr) (xs : List ℕ)
    → p ≢ null
    → IsString mem p xs
    → length xs < fuel
    → str_length fuel mem p ≡ done (length xs)
unfolding str_length
str_length-done fuel mem p xs ne s h = ground (arith, length_loop-done fuel mem p 0 xs)

nlength_loop-min :
    (left : ℕ) (mem : Memory) (p : Ptr) (len : ℕ) (xs : List ℕ)
    → IsString mem p xs
    → nlength_loop left mem p len ≡ len + min left (length xs)
unfolding nlength_loop
nlength_loop-min zero mem p len xs s = omega arith
nlength_loop-min (suc left) mem p len [] s = ground arith
nlength_loop-min (suc left) mem p len (x ∷ xs) s =
    ground (arith, nlength_loop-min left mem (p + 1) (len + 1) xs)

-- `str_nlength` says whether the string has at least `max_len` characters.
pub str_nlength-leb :
    (mem : Memory) (p : Ptr) (max_len : ℕ) (xs : List ℕ)
    → p ≢ null
    → IsString mem p xs
    → str_nlength mem p max_len ≡ done (leb max_len (length xs))
unfolding str_nlength
str_nlength-leb mem p max_len xs ne s = ground (arith, nlength_loop-min max_len mem p 0 xs)

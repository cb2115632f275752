-- ===== src/Str/Equal.antt =====
-- `str_nequal` and `str_equal`.
use mimik.Base.{
  ℕ, zero, suc, ◌+◌, ◌<◌, ◌≡◌, refl, ◌≢◌, ◌↔◌, Bool, true, false, List, [], ◌∷◌, length, ◌==◌,
  if◌then◌else◌, arith, done, halted,
}
use mimik.Memory.{Ptr, null, Memory}
use mimik.Str.{nequal_loop, str_nequal, str_equal}
use mimik.Str.Length.{IsString, str_length-done}

-- The same characters in the same order.
pub same_chars : List ℕ → List ℕ → Bool
same_chars [] [] = true
same_chars (x ∷ xs) (y ∷ ys) = if x == y then same_chars xs ys else false
same_chars _ _ = false

pub same_chars-empty : (c : ℕ) (cs : List ℕ) → same_chars [] (c ∷ cs) ≡ false
unfolding same_chars
same_chars-empty c cs = refl

pub same_chars_iff : (xs ys : List ℕ) → (same_chars xs ys ≡ true) ↔ (xs ≡ ys)
unfolding same_chars
same_chars_iff [] [] = ground arith
same_chars_iff [] (y ∷ ys) = ground arith
same_chars_iff (x ∷ xs) [] = ground arith
same_chars_iff (x ∷ xs) (y ∷ ys) = ground (arith, same_chars_iff xs ys)

same_chars_of_ne : (xs ys : List ℕ) → length xs ≢ length ys → same_chars xs ys ≡ false
unfolding same_chars
same_chars_of_ne [] [] h = absurd (h refl)
same_chars_of_ne [] (y ∷ ys) h = refl
same_chars_of_ne (x ∷ xs) [] h = refl
same_chars_of_ne (x ∷ xs) (y ∷ ys) h = ground (arith, same_chars_of_ne xs ys)

-- The bytes at `p` and at `q` agree over `n` places.
abbrev pub Agree : Memory → Ptr → Ptr → ℕ → Type 0
Agree mem p q n = (i : ℕ) → i < n → mem (p + i) ≡ mem (q + i)

nequal_loop-Agree :
    (n : ℕ) (mem : Memory) (p q : Ptr) → nequal_loop n mem p q ≡ true → Agree mem p q n
unfolding nequal_loop
nequal_loop-Agree zero mem p q h i lt = absurd (omega arith)
nequal_loop-Agree (suc n) mem p q h zero lt = ground arith
nequal_loop-Agree (suc n) mem p q h (suc i) lt =
    ground (arith, nequal_loop-Agree n mem (p + 1) (q + 1) (ground arith) i)

Agree-nequal_loop :
    (n : ℕ) (mem : Memory) (p q : Ptr) → Agree mem p q n → nequal_loop n mem p q ≡ true
unfolding nequal_loop
Agree-nequal_loop zero mem p q h = refl
Agree-nequal_loop (suc n) mem p q h =
    ground (arith, h 0, Agree-nequal_loop n mem (p + 1) (q + 1) (λ i lt. ground (arith, h (i + 1))))

-- For a positive length and pointers that are not null, `str_nequal` returns, and it returns true
-- exactly when the two ranges agree at every place, NUL bytes included.
pub str_nequal_iff :
    (mem : Memory) (p q : Ptr) (n : ℕ)
    → 0 < n
    → p ≢ null
    → q ≢ null
    → (b : Bool) × (str_nequal mem p q n ≡ done b) × ((b ≡ true) ↔ Agree mem p q n)
unfolding str_nequal
str_nequal_iff mem p q n pos np nq = (
  nequal_loop n mem p q,
  ground arith,
  (nequal_loop-Agree n mem p q, Agree-nequal_loop n mem p q),
)

nequal_loop-same :
    (mem : Memory) (p q : Ptr) (xs ys : List ℕ)
    → IsString mem p xs
    → IsString mem q ys
    → length xs ≡ length ys
    → nequal_loop (length xs) mem p q ≡ same_chars xs ys
unfolding nequal_loop same_chars
nequal_loop-same mem p q [] [] s t h = refl
nequal_loop-same mem p q [] (y ∷ ys) s t h = absurd (omega arith)
nequal_loop-same mem p q (x ∷ xs) [] s t h = absurd (omega arith)
nequal_loop-same mem p q (x ∷ xs) (y ∷ ys) s t h =
    ground (arith, nequal_loop-same mem (p + 1) (q + 1) xs ys)

-- `str_equal` on two strings that end within the fuel: it decides whether they are equal, but if
-- both are empty the assertion of `str_nequal` on the length fails.
pub str_equal_lem :
    (fuel : ℕ) (mem : Memory) (p q : Ptr) (xs ys : List ℕ)
    → p ≢ null
    → q ≢ null
    → IsString mem p xs
    → IsString mem q ys
    → length xs < fuel
    → length ys < fuel
    → str_equal fuel mem p q
      ≡ (if length xs + length ys == 0 then halted else done (same_chars xs ys))
unfolding str_equal str_nequal
str_equal_lem fuel mem p q xs ys np nq s t hx hy =
    rw (str_length-done fuel mem p xs np s hx, str_length-done fuel mem q ys nq t hy)
      (ground (arith, nequal_loop-same mem p q xs ys s t, same_chars_of_ne xs ys))

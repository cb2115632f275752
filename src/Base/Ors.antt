-- ===== src/Base/Ors.antt =====
-- Bounds on `|`, and what smearing the bits of a word to the right fills.
use Prim.Native.Nat.{ℕ, zero, suc, ◌+◌, ◌-◌, ◌*◌, ◌/◌, ◌^◌, ◌≤◌, ◌<◌, bit_or}
use mathlib.Core.Path.{◌≡◌, ap, sym, ◌∙◌}
use mathlib.Core.Logic.{◌⊎◌, inl, inr}
use native.Mathlib.Omega.{arith}
use native.Mathlib.Nat.{
  pow-suc, one-le-pow, pow-le-pow_right, le-div_iff_mul-le, div-le_self, div-lt_iff_lt-mul, mul-sub,
}
use mimik.Base.Bits.{bit_or_step, bit_or-zero, split_pow}

pub bit_or-bounds :
    (k x y : ℕ) → x < 2 ^ k → y < 2 ^ k → (bit_or x y < 2 ^ k) × (x ≤ bit_or x y) × (y ≤ bit_or x y)
bit_or-bounds zero x y hx hy = ground (arith, bit_or-zero 0)
bit_or-bounds (suc k) x y hx hy = ground (
  arith,
  bit_or_step x y,
  pow-suc 2 k,
  bit_or-bounds k (x / 2) (y / 2) (omega (arith, pow-suc 2 k)) (omega (arith, pow-suc 2 k)),
)

-- Bits above those of the right side stay as they are.
pub bit_or-high :
    (k q r y : ℕ) → r < 2 ^ k → y < 2 ^ k → bit_or (q * 2 ^ k + r) y ≡ q * 2 ^ k + bit_or r y
bit_or-high zero q r y hr hy = ground (arith, bit_or-zero (q * 1), bit_or-zero 0)
bit_or-high (suc k) q r y hr hy = ground (
  arith,
  bit_or_step (q * 2 ^ suc k + r) y,
  bit_or_step r y,
  split_pow q k,
  bit_or-high k q (r / 2) (y / 2) (omega (arith, pow-suc 2 k)) (omega (arith, pow-suc 2 k)),
)

-- A number of `w` bits, of which the highest `j` are set.
abbrev pub Top : ℕ → ℕ → ℕ → Type 0
Top w j x = (x < 2 ^ w) × (2 ^ w ≤ x + 2 ^ (w - j))

-- In `x / p`, for `x` between `p * q - q` and `p * q`.
div_bound : (p q r x : ℕ) → 0 < p → p * q ≤ x + q → q ≤ r * p → q ≤ x / p + r
div_bound p q r x pos h hr =
    let down : q - r ≤ x / p = (le-div_iff_mul-le pos).1 (omega (arith, mul-sub p q r)) in
    omega arith

pow_add : (a b : ℕ) → 2 ^ (a + b) ≡ 2 ^ a * 2 ^ b
pow_add a zero = omega (arith, ap (λ (t : ℕ). 2 ^ t) (plus_zero a))
  where
    plus_zero : (n : ℕ) → n + 0 ≡ n
    plus_zero n = omega arith
pow_add a (suc b) = omega (
  arith,
  pow_add a b,
  ap (λ (t : ℕ). 2 ^ t) (plus_suc a b),
  pow-suc 2 (a + b),
  pow-suc 2 b,
  ap (λ (t : ℕ). 2 ^ a * t) (pow-suc 2 b),
)
  where
    plus_suc : (n m : ℕ) → n + suc m ≡ suc (n + m)
    plus_suc n m = omega arith

-- `2 ^ (k - j)` covers what the shift by `j` loses.
pow_cover : (k j : ℕ) → 2 ^ k ≤ 2 ^ (k - j) * 2 ^ j
pow_cover k j = rw (sym (pow_add (k - j) j)) (pow-le-pow_right (omega arith) (omega arith))

fill_step :
    (k j x : ℕ)
    → x < 2 ^ k * 2 ^ j
    → 2 ^ k * 2 ^ j ≤ x + 2 ^ k
    → 2 ^ k * 2 ^ j ≤ bit_or x (x / 2 ^ j) + 2 ^ (k - j)
fill_step k j x lt top =
    let pj = one-le-pow j 2 in
    let pk = one-le-pow k 2 in
    let y = x / 2 ^ j in
    let high = (2 ^ j - 1) * 2 ^ k in
    let r = x - high in
    let scaled : 2 ^ k * (2 ^ j - 1) ≡ 2 ^ k * 2 ^ j - 2 ^ k * 1 = mul-sub (2 ^ k) (2 ^ j) 1 in
    let y_lt : y < 2 ^ k = (div-lt_iff_lt-mul (omega arith)).1 lt in
    let split : high + r ≡ x = omega arith in
    let value : bit_or (high + r) y ≡ high + bit_or r y =
      bit_or-high k (2 ^ j - 1) r y (omega arith) y_lt in
    omega (
      arith,
      ap (λ (t : ℕ). bit_or t y) split,
      (bit_or-bounds k r y (omega arith) y_lt).2,
      div_bound (2 ^ j) (2 ^ k) (2 ^ (k - j)) x (omega arith) (omega arith) (pow_cover k j),
    )

-- One step doubles the set bits at the top, until all of them are set.
pub smear-Top : (w j x : ℕ) → Top w j x → Top w (j + j) (bit_or x (x / 2 ^ j))
smear-Top w j x top = elim (le_or_lt w j) [
  | inl full ↦
      (bounds.0, omega (arith, whole (w - j) (omega arith), one-le-pow (w - (j + j)) 2, bounds.1))
  | inr part ↦
      let k = w - j in
      let whole_word : 2 ^ w ≡ 2 ^ k * 2 ^ j = ap (λ (t : ℕ). 2 ^ t) (parts part) ∙ pow_add k j in
      (
        bounds.0,
        omega
            (arith, fill_step k j x (omega arith) (omega arith), ap (λ (t : ℕ). 2 ^ t) (twice w j)),
      )
]
  where
    le_or_lt : (a b : ℕ) → (a ≤ b) ⊎ (b < a)
    le_or_lt a b = ground arith

    parts : j < w → w ≡ w - j + j
    parts lt = omega arith

    twice : (a b : ℕ) → a - (b + b) ≡ a - b - b
    twice a b = omega arith

    whole : (k : ℕ) → k ≡ 0 → 2 ^ k ≡ 1
    whole k e = ap (λ (t : ℕ). 2 ^ t) e

    shifted : x / 2 ^ j ≤ x
    shifted = div-le_self x (2 ^ j)

    bounds :
        (bit_or x (x / 2 ^ j) < 2 ^ w)
        × (x ≤ bit_or x (x / 2 ^ j))
        × (x / 2 ^ j ≤ bit_or x (x / 2 ^ j))
    bounds = bit_or-bounds w x (x / 2 ^ j) top.0 (omega (arith, shifted))

-- ===== src/Base/Bits.antt =====
-- Shifts, casts and masks as arithmetic, and the bits of a byte.
use Prim.Native.Nat.{ℕ, zero, suc, ◌+◌, ◌-◌, ◌*◌, ◌/◌, ◌%◌, ◌^◌, ◌≤◌, ◌<◌, min, max}
use Prim.Native.Nat.{bit_and, bit_or, digits, bit_and-bitwise, bit_or-bitwise}
use mathlib.Core.Path.{◌≡◌, refl, ap, sym, ◌∙◌}
use native.Mathlib.Omega.{arith}
use native.Mathlib.Nat.{pow-suc, pow-succ', one-le-pow, div-div-eq-div-mul}

infixl 75 ◌<<<◌ ◌>>>◌
abbrev pub ◌<<<◌ : ℕ → ℕ → ℕ
x <<< k = x * 2 ^ k

abbrev pub ◌>>>◌ : ℕ → ℕ → ℕ
x >>> k = x / 2 ^ k

abbrev pub u8 : ℕ → ℕ
u8 n = n % 2 ^ 8

abbrev pub u32 : ℕ → ℕ
u32 n = n % 2 ^ 32

abbrev pub u64 : ℕ → ℕ
u64 n = n % 2 ^ 64

-- The digits of a number do not depend on the fuel, once there is enough of it.
module _ (base : ℕ → ℕ) (op : ℕ → ℕ → ℕ) where
  digits-fuel : (a b n m : ℕ) → a ≤ n → a ≤ m → digits base op n a b ≡ digits base op m a b
  digits-fuel zero b zero zero hn hm = refl
  digits-fuel zero b zero (suc m) hn hm = refl
  digits-fuel zero b (suc n) zero hn hm = refl
  digits-fuel zero b (suc n) (suc m) hn hm = refl
  digits-fuel (suc a) b n zero hn hm = absurd (omega arith)
  digits-fuel (suc a) b zero (suc m) hn hm = absurd (omega arith)
  digits-fuel (suc a) b (suc n) (suc m) hn hm =
      ap (λ (t : ℕ). t * 2 + op (suc a % 2) (b % 2))
        (digits-fuel (suc a / 2) (b / 2) n m (omega arith) (omega arith))

pub bit_and_step : (x y : ℕ) → bit_and x y ≡ bit_and (x / 2) (y / 2) * 2 + min (x % 2) (y % 2)
bit_and_step x y = cases x
  where
    cases : (x : ℕ) → bit_and x y ≡ bit_and (x / 2) (y / 2) * 2 + min (x % 2) (y % 2)
    cases zero = omega (arith, bit_and-bitwise 0 y, bit_and-bitwise 0 (y / 2))
    cases (suc k) = omega (
      arith,
      bit_and-bitwise (suc k) y,
      bit_and-bitwise (suc k / 2) (y / 2),
      digits-fuel (λ b. zero) min (suc k / 2) (y / 2) k (suc k / 2) (omega arith) (omega arith),
    )

-- With a right side of 0, by halving the left side as often as a bound allows.
bit_and-zero_below : (a n : ℕ) → a ≤ n → bit_and a 0 ≡ 0
bit_and-zero_below a zero h = ground (arith, bit_and_step a 0)
bit_and-zero_below zero (suc n) h = refl
bit_and-zero_below (suc a) (suc n) h =
    omega (arith, bit_and_step (suc a) 0, bit_and-zero_below (suc a / 2) n (omega arith))

pub bit_and-zero : (a : ℕ) → bit_and a 0 ≡ 0
bit_and-zero a = bit_and-zero_below a a (omega arith)

pub split_pow : (q k : ℕ) → q * 2 ^ suc k ≡ 2 * (q * 2 ^ k)
split_pow q k = omega (arith, ap (λ (t : ℕ). q * t) (pow-suc 2 k))

-- The low `k` bits of a number that is given by its quotient and remainder.
low_of_parts : (k q r : ℕ) → r < 2 ^ k → bit_and (q * 2 ^ k + r) (2 ^ k - 1) ≡ r
low_of_parts zero q r h = omega (arith, bit_and-zero (q * 1 + r))
low_of_parts (suc k) q r h = ground (
  arith,
  bit_and_step (q * 2 ^ suc k + r) (2 ^ suc k - 1),
  split_pow q k,
  pow-suc 2 k,
  one-le-pow k 2,
  low_of_parts k q (r / 2) (omega (arith, pow-suc 2 k)),
)

-- A mask of `k` low bits is the remainder by `2 ^ k`.
pub bit_and-low : (k a : ℕ) → bit_and a (2 ^ k - 1) ≡ a % 2 ^ k
bit_and-low k a = ground (arith, one-le-pow k 2, low_of_parts k (a / 2 ^ k) (a % 2 ^ k))

pub bit_and-one : (a : ℕ) → bit_and a 1 ≡ a % 2
bit_and-one a = bit_and-low 1 a

-- A mask whose `k` low bits are 0.
pub bit_and-shifted : (k a m : ℕ) → bit_and a (m * 2 ^ k) ≡ bit_and (a / 2 ^ k) m * 2 ^ k
bit_and-shifted zero a m =
    omega (arith, ap (bit_and a) (times_one m), ap (λ t. bit_and t m) (over_one a))
  where
    times_one : (m : ℕ) → m * 1 ≡ m
    times_one m = omega arith

    over_one : (a : ℕ) → a / 1 ≡ a
    over_one a = omega arith
bit_and-shifted (suc k) a m =
    let halves : a / 2 ^ suc k ≡ a / 2 / 2 ^ k =
      ap (λ t. a / t) (pow-succ' 2 k) ∙ sym (div-div-eq-div-mul a 2 (2 ^ k)) in
    rw halves (
      ground (
        arith,
        bit_and_step a (m * 2 ^ suc k),
        split_pow m k,
        split_pow (bit_and (a / 2 / 2 ^ k) m) k,
        bit_and-shifted k (a / 2) m,
      ))

-- A mask of the `n` bits from bit `k` on.
pub bit_and-field : (k n a : ℕ) → bit_and a ((2 ^ n - 1) * 2 ^ k) ≡ a / 2 ^ k % 2 ^ n * 2 ^ k
bit_and-field k n a =
    bit_and-shifted k a (2 ^ n - 1) ∙ ap (λ t. t * 2 ^ k) (bit_and-low n (a / 2 ^ k))

pub bit_or_step : (x y : ℕ) → bit_or x y ≡ bit_or (x / 2) (y / 2) * 2 + max (x % 2) (y % 2)
bit_or_step x y = cases x
  where
    cases : (x : ℕ) → bit_or x y ≡ bit_or (x / 2) (y / 2) * 2 + max (x % 2) (y % 2)
    cases zero = omega (arith, bit_or-bitwise 0 y, bit_or-bitwise 0 (y / 2))
    cases (suc k) = omega (
      arith,
      bit_or-bitwise (suc k) y,
      bit_or-bitwise (suc k / 2) (y / 2),
      digits-fuel (λ b. b) max (suc k / 2) (y / 2) k (suc k / 2) (omega arith) (omega arith),
    )

bit_or-zero_below : (a n : ℕ) → a ≤ n → bit_or a 0 ≡ a
bit_or-zero_below zero n h = bit_or-bitwise 0 0
bit_or-zero_below (suc a) zero h = absurd (omega arith)
bit_or-zero_below (suc a) (suc n) h =
    omega (arith, bit_or_step (suc a) 0, bit_or-zero_below (suc a / 2) n (omega arith))

pub bit_or-zero : (a : ℕ) → bit_or a 0 ≡ a
bit_or-zero a = bit_or-zero_below a a (omega arith)

-- Where the bits of the two sides do not meet, `|` adds.
pub bit_or-fields : (k q r : ℕ) → r < 2 ^ k → bit_or (q * 2 ^ k) r ≡ q * 2 ^ k + r
bit_or-fields zero q r h = ground (arith, bit_or-zero (q * 1))
bit_or-fields (suc k) q r h = ground (
  arith,
  bit_or_step (q * 2 ^ suc k) r,
  split_pow q k,
  bit_or-fields k q (r / 2) (omega (arith, pow-suc 2 k)),
)

-- ===== src/Print/Digits.antt =====
-- What the printers of numbers write, read back as a number (log/printk.c).
use mimik.Base.{
  ℕ, zero, suc, ◌+◌, ◌-◌, ◌*◌, ◌/◌, ◌%◌, ◌^◌, ◌<◌, ◌≤◌, ◌≡◌, refl, arith, List, [], ◌∷◌, ◌++◌, true,
  ltb, leb, ◌==◌, Bool-cases, inl, inr, done, length, replicate, ap, max, ◌∙◌,
}
use native.Mathlib.Nat.{pow-suc}
use mimik.Print.{Char, char_0, buf_size, decimal_loop, pad, print_unsigned}

-- The value of a sequence of digits, behind digits of value `acc`; `digit` is the value of one.
abbrev pub read_digits : (Char → ℕ) → ℕ → ℕ → List Char → ℕ
read_digits digit base acc [] = acc
read_digits digit base acc (c ∷ cs) = read_digits digit base (acc * base + digit c) cs

abbrev pub decimal_digit : Char → ℕ
decimal_digit c = c - 48

-- Every character is a decimal digit.
abbrev pub AllDecimal : List Char → Type 0
AllDecimal [] = Unit {0}
AllDecimal (c ∷ cs) = (48 ≤ c) × (c ≤ 57) × AllDecimal cs

pub read_digits-pad :
    (digit : Char → ℕ) (base n : ℕ) (cs : List Char)
    → digit char_0 ≡ 0
    → read_digits digit base 0 (replicate n char_0 ++ cs) ≡ read_digits digit base 0 cs
read_digits-pad digit base zero cs z = refl
read_digits-pad digit base (suc n) cs z =
    ap (λ (acc : ℕ). read_digits digit base acc (replicate n char_0 ++ cs)) (nothing _ base z)
    ∙ read_digits-pad digit base n cs z
  where
    nothing : (d b : ℕ) → d ≡ 0 → 0 * b + d ≡ 0
    nothing d b e = omega arith

AllDecimal-pad : (n : ℕ) (cs : List Char) → AllDecimal cs → AllDecimal (replicate n char_0 ++ cs)
AllDecimal-pad zero cs all = all
AllDecimal-pad (suc n) cs all = (omega arith, omega arith, AllDecimal-pad n cs all)

-- The loop puts the digits of `n` in front of those that it has, and no zero in front of them.
decimal_loop-run :
    (rounds n : ℕ) (cs : List Char)
    → n < 10 ^ rounds
    → length cs + rounds ≤ buf_size
    → AllDecimal cs
    → (ds : List Char) × (k : ℕ) × (decimal_loop (suc rounds) n cs ≡ done ds)
      × AllDecimal ds
      × (read_digits decimal_digit 10 0 ds ≡ read_digits decimal_digit 10 n cs)
      × (length ds ≡ length cs + k)
      × (10 ^ k ≤ max 1 (10 * n))
unfolding decimal_loop
decimal_loop-run zero n cs lt room all = (
  cs,
  0,
  ground arith,
  all,
  ap (λ (a : ℕ). read_digits decimal_digit 10 a cs) (none n lt),
  omega arith,
  omega arith,
)
  where
    none : (m : ℕ) → m < 1 → 0 ≡ m
    none m h = omega arith
decimal_loop-run (suc rounds) n cs lt room all = elim (Bool-cases (n == 0)) [
  | inl nil ↦ (
    cs,
    0,
    rw nil refl,
    all,
    ap (λ (a : ℕ). read_digits decimal_digit 10 a cs) (zero_of n nil),
    omega arith,
    omega arith,
  )
  | inr more ↦
      let (ds, k, run, digits, value, len, small) =
        decimal_loop-run rounds (n / 10) ((n % 10 + char_0) ∷ cs) (omega (arith, pow-suc 10 rounds))
          (omega arith) (omega arith, omega arith, all) in
      let space : ltb (length cs) buf_size ≡ true = ground arith in
      (
        ds,
        suc k,
        rw (more, space) run,
        digits,
        value ∙ ap (λ (a : ℕ). read_digits decimal_digit 10 a cs) (joined n),
        omega arith,
        ground (arith, pow-suc 10 k),
      )
]
  where
    zero_of : (m : ℕ) → (m == 0) ≡ true → 0 ≡ m
    zero_of m h = ground arith

    joined : (m : ℕ) → m / 10 * 10 + (m % 10 + 48 - 48) ≡ m
    joined m = omega arith

-- `print_unsigned` of a word, with at most 64 digits asked for, writes the decimal digits of the
-- word, none of them a leading zero, and zeros in front of them up to the number asked for. What it
-- writes reads back as the word. Zero has no digit of its own.
pub print_unsigned-read :
    (places n : ℕ)
    → places ≤ buf_size
    → n < 2 ^ 64
    → (ds : List Char) × (print_unsigned places n ≡ done (pad places ds))
      × AllDecimal (pad places ds)
      × (read_digits decimal_digit 10 0 (pad places ds) ≡ n)
      × (10 ^ length ds ≤ max 1 (10 * n))
unfolding print_unsigned
print_unsigned-read places n le lt =
    let (ds, k, run, digits, value, len, small) =
      decimal_loop-run 64 n [] (omega arith) (omega arith) tt in
    let room : leb places buf_size ≡ true = ground arith in
    (
      ds,
      rw (room, run) refl,
      AllDecimal-pad (places - length ds) ds digits,
      read_digits-pad decimal_digit 10 (places - length ds) ds refl ∙ value,
      shown (length ds) k (max 1 (10 * n)) (omega (arith, len)) small,
    )
  where
    shown : (a b m : ℕ) → a ≡ b → 10 ^ b ≤ m → 10 ^ a ≤ m
    shown a b m e h = rw e h

-- ===== src/Print/Hex.antt =====
-- What `print_hex` writes, read back as a number (log/printk.c).
use mimik.Base.{
  ℕ, zero, suc, ◌+◌, ◌-◌, ◌*◌, ◌/◌, ◌%◌, ◌^◌, ◌<◌, ◌≤◌, ◌≡◌, refl, arith, List, [], ◌∷◌, Bool, true,
  false, ltb, ◌==◌, if◌then◌else◌, Bool-cases, inl, inr, done, length, bit_and, bit_and-low, ap,
  max, ◌∙◌, test_below, test_below_lem, ==_iff,
}
use native.Mathlib.Nat.{pow-suc}
use mimik.Print.{Char, buf_size, pad, hex_digit, hex_loop, print_hex}
use mimik.Print.Digits.{read_digits, read_digits-pad}

-- The value of a digit in either case of letters.
abbrev pub hex_value : Char → ℕ
hex_value c = if ltb c 58 then c - 48 else if ltb c 71 then c - 55 else c - 87

value_ok : Bool → ℕ → Bool
value_ok cap d = hex_value (hex_digit cap d) == d

value_table : (cap : Bool) → test_below 16 (value_ok cap) ≡ true
unfolding test_below value_ok
value_table true = refl
value_table false = refl

hex_value-digit : (cap : Bool) (d : ℕ) → d < 16 → hex_value (hex_digit cap d) ≡ d
unfolding value_ok
hex_value-digit cap d lt =
    let ok : value_ok cap d ≡ true = test_below_lem 16 d (value_ok cap) lt (value_table cap) in
    (==_iff _ d).0 ok

low_four : (n : ℕ) → bit_and n 0xf ≡ n % 16
low_four n = bit_and-low 4 n

-- The loop puts the digits of `n` in front of those that it has, and no zero in front of them.
hex_loop-run :
    (rounds n : ℕ) (cap : Bool) (cs : List Char)
    → n < 16 ^ rounds
    → length cs + rounds ≤ buf_size
    → (ds : List Char) × (k : ℕ) × (hex_loop (suc rounds) cap n cs ≡ done ds)
      × (read_digits hex_value 16 0 ds ≡ read_digits hex_value 16 n cs)
      × (length ds ≡ length cs + k)
      × (16 ^ k ≤ max 1 (16 * n))
unfolding hex_loop
hex_loop-run zero n cap cs lt room = (
  cs,
  0,
  ground arith,
  ap (λ (a : ℕ). read_digits hex_value 16 a cs) (none n lt),
  omega arith,
  omega arith,
)
  where
    none : (m : ℕ) → m < 1 → 0 ≡ m
    none m h = omega arith
hex_loop-run (suc rounds) n cap cs lt room = elim (Bool-cases (n == 0)) [
  | inl nil ↦ (
    cs,
    0,
    rw nil refl,
    ap (λ (a : ℕ). read_digits hex_value 16 a cs) (zero_of n nil),
    omega arith,
    omega arith,
  )
  | inr more ↦
      let d = bit_and n 0xf in
      let (ds, k, run, value, len, small) =
        hex_loop-run rounds (n / 16) cap (hex_digit cap d ∷ cs) (omega (arith, pow-suc 16 rounds))
          (omega arith) in
      let space : ltb (length cs) buf_size ≡ true = ground arith in
      (
        ds,
        suc k,
        rw (more, space) run,
        value
            ∙ ap (λ (a : ℕ). read_digits hex_value 16 a cs)
                (joined (hex_value-digit cap d (omega (arith, low_four n)))),
        omega arith,
        ground (arith, pow-suc 16 k),
      )
]
  where
    zero_of : (m : ℕ) → (m == 0) ≡ true → 0 ≡ m
    zero_of m h = ground arith

    joined :
        hex_value (hex_digit cap (bit_and n 0xf)) ≡ bit_and n 0xf
        → n / 16 * 16 + hex_value (hex_digit cap (bit_and n 0xf)) ≡ n
    joined e = omega (arith, e, low_four n)

-- `print_hex` of a word writes characters that read back as the
-- word in base 16, with zeros in front up to the number asked for and no other leading zero; the
-- letters may be of either case. Zero has no digit of its own.
pub print_hex-read :
    (places n : ℕ) (cap : Bool)
    → n < 2 ^ 64
    → (ds : List Char) × (print_hex places n cap ≡ done (pad places ds))
      × (read_digits hex_value 16 0 (pad places ds) ≡ n)
      × (16 ^ length ds ≤ max 1 (16 * n))
unfolding print_hex
print_hex-read places n cap lt =
    let (ds, k, run, value, len, small) = hex_loop-run 64 n cap [] (omega arith) (omega arith) in
    (
      ds,
      rw run refl,
      read_digits-pad hex_value 16 (places - length ds) ds refl ∙ value,
      shown (length ds) k (max 1 (16 * n)) (omega (arith, len)) small,
    )
  where
    shown : (a b m : ℕ) → a ≡ b → 16 ^ b ≤ m → 16 ^ a ≤ m
    shown a b m e h = rw e h

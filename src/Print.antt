-- ===== src/Print.antt =====
-- The printers of numbers and strings in log/printk.c. What they pass to `putc` is the list of
-- characters that they return; the serial port behind `putc` is not modelled.
pub mod Format
pub mod Digits
pub mod Hex
pub mod Text
mod Examples
use mimik.Base.{
  ℕ, zero, suc, ◌+◌, ◌-◌, ◌*◌, ◌/◌, ◌%◌, ◌^◌, Bool, not, List, [], ◌∷◌, ◌++◌, bit_and, ltb, leb,
  ◌==◌, if◌then◌else◌, u64, ◌>>>◌, Outcome, done, fault, out_of_fuel, ◌>>=◌, ◌>>◌, assert, length,
  replicate,
}
use mimik.Memory.{Ptr, null, Memory}

-- A `char`, by its code.
abbrev pub Char : Type 0
Char = ℕ

abbrev pub char_0 : Char
char_0 = 48

abbrev pub char_minus : Char
char_minus = 45

abbrev pub char_a : Char
char_a = 97

abbrev pub char_cap_a : Char
char_cap_a = 65

-- `BUF_SIZE`
abbrev pub buf_size : ℕ
buf_size = 64

-- A word has 64 bits, so fewer digits in every base.
abbrev pub digit_rounds : ℕ
digit_rounds = 65

-- The loop that fills `cs`. The list holds the digits in the order in which they are printed,
-- `cs[i - 1]` first.
unfoldable pub decimal_loop : ℕ → ℕ → List Char → Outcome (List Char)
decimal_loop zero n cs = out_of_fuel
decimal_loop (suc rounds) n cs = if n == 0 then done cs else (do
  assert (ltb (length cs) buf_size)
  decimal_loop rounds (n / 10) ((n % 10 + char_0) ∷ cs))

-- `for (j = i; j < zeros; ++j) putc('0')`, and then the digits.
abbrev pub pad : ℕ → List Char → List Char
pad zeros cs = replicate (zeros - length cs) char_0 ++ cs

unfoldable pub print_unsigned : ℕ → ℕ → Outcome (List Char)
print_unsigned zeros n = do
  assert (leb zeros buf_size)
  cs ← decimal_loop digit_rounds n []
  done (pad zeros cs)

-- `n` is the two's complement of the argument; the negation of the least one is undefined.
unfoldable pub print_decimal : ℕ → ℕ → Outcome (List Char)
print_decimal zeros n =
    if ltb n (2 ^ 63)
    then print_unsigned zeros n
    else if n == 2 ^ 63
    then fault
    else (do out ← print_unsigned zeros (2 ^ 64 - n); done (char_minus ∷ out))

abbrev pub hex_digit : Bool → ℕ → Char
hex_digit cap d = if ltb d 10 then d + char_0 else d - 10 + (if cap then char_cap_a else char_a)

unfoldable pub hex_loop : ℕ → Bool → ℕ → List Char → Outcome (List Char)
hex_loop zero cap n cs = out_of_fuel
hex_loop (suc rounds) cap n cs = if n == 0 then done cs else (do
  assert (ltb (length cs) buf_size)
  hex_loop rounds cap (n >>> 4) (hex_digit cap (bit_and n 0xf) ∷ cs))

unfoldable pub print_hex : ℕ → ℕ → Bool → Outcome (List Char)
print_hex zeros n cap = do cs ← hex_loop digit_rounds cap n []; done (pad zeros cs)

unfoldable pub print_ptr : Ptr → Bool → Outcome (List Char)
print_ptr p cap =
    if p == null
    then done (40 ∷ 110 ∷ 105 ∷ 108 ∷ 41 ∷ [])
    else (do out ← print_hex 16 p cap; done (48 ∷ 120 ∷ out))

-- `1 << (sz - 1)` of an `int`, made a 64-bit word: from 32 on the shift is undefined, and the sign
-- bit spreads.
abbrev pub binary_mask : ℕ → Outcome ℕ
binary_mask sz =
    if ltb sz 32 then done (2 ^ (sz - 1)) else if sz == 32 then done (2 ^ 64 - 2 ^ 31) else fault

unfoldable pub binary_loop : ℕ → ℕ → ℕ → List Char
binary_loop zero mask n = []
binary_loop (suc left) mask n =
    (char_0 + (if bit_and mask n == 0 then 0 else 1)) ∷ binary_loop left (mask >>> 1) n

-- The size is in bytes.
unfoldable pub print_binary : ℕ → ℕ → Outcome (List Char)
print_binary sz n =
    let bits = u64 (sz * 8) in
    do mask ← (if bits == 0 then fault else binary_mask bits); done (binary_loop bits mask n)

-- `puts` of include/log/put.h.
unfoldable pub puts : ℕ → Memory → Ptr → Outcome (List Char)
puts zero mem str = out_of_fuel
puts (suc fuel) mem str =
    if mem str == 0 then done [] else (do rest ← puts fuel mem (str + 1); done (mem str ∷ rest))

unfoldable pub chars_at : ℕ → Memory → Ptr → List Char
chars_at zero mem str = []
chars_at (suc n) mem str = mem str ∷ chars_at n mem (str + 1)

-- `fuel` bounds the length of a string.
unfoldable pub print_string : ℕ → Memory → ℕ → Ptr → Outcome (List Char)
print_string fuel mem len str = if len == 0 then puts fuel mem str else done (chars_at len mem str)

-- ===== src/Print/Format.antt =====
-- The format strings of `printk` (log/printk.c), as a machine that reads one character at a time.
use mimik.Base.{
  ℕ, ◌+◌, ◌-◌, ◌*◌, ◌/◌, ◌%◌, ◌^◌, Bool, ◌&&◌, List, [], ◌∷◌, ◌++◌, ltb, leb, ◌==◌, if◌then◌else◌,
  u32, u64, Outcome, done, fault, ◌>>=◌,
}
use mimik.Memory.{Memory}
use mimik.Print.{
  Char, char_0, print_unsigned, print_decimal, print_hex, print_ptr, print_binary, print_string,
}

pub record PrintFlags : Type 0 where
  pub number_size : ℕ
  pub leading_zeros : ℕ
  pub string_length : ℕ

abbrev pub reset : PrintFlags
reset = record { number_size = 4; leading_zeros = 0; string_length = 0 }

-- Where the machine is: in the text, behind `next_mod`, or in the loop of the case `'0'`.
pub data Mode : Type 0 where
  text : Mode
  next_mod zeros : PrintFlags → Mode

abbrev pub is_digit : Char → Bool
is_digit c = leb 48 c && leb c 57

-- `x *= 10; x += c - '0'`
abbrev pub push_digit : ℕ → Char → ℕ
push_digit x c = u64 (u64 (x * 10) + (c - char_0))

-- A 32-bit argument with its sign spread over a word.
abbrev pub sign_extend : ℕ → ℕ
sign_extend n = if ltb (n % 2 ^ 32) (2 ^ 31) then n % 2 ^ 32 else 2 ^ 64 - 2 ^ 32 + n % 2 ^ 32

-- The macro `next_int`, for `uint` and for `int`.
abbrev pub next_uint : PrintFlags → ℕ → ℕ
next_uint f n = if ltb 4 f.number_size then u64 n else u32 n

abbrev pub next_int : PrintFlags → ℕ → ℕ
next_int f n = if ltb 4 f.number_size then u64 n else sign_extend n

abbrev pub add_long : PrintFlags → PrintFlags
add_long f = if ltb f.number_size 8 then record f { number_size = f.number_size * 2 } else f

abbrev pub add_half : PrintFlags → PrintFlags
add_half f = if ltb 1 f.number_size then record f { number_size = f.number_size / 2 } else f

-- What a conversion takes from the arguments, or what else the `switch` does.
pub data Action : Type 0 where
  literal : Char → Action
  modify : PrintFlags → Action
  start_zeros ignore : Action
  binary decimal unsigned pointer string character : Action
  hex : Action

-- The cases of the `switch`, by the codes of `% l h 0 b d u x X p P s c`.
unfoldable pub action : PrintFlags → Char → Action
action f c =
    if c == 37
    then literal 37
    else if c == 108
    then modify (add_long f)
    else if c == 104
    then modify (add_half f)
    else if c == 48
    then start_zeros
    else if c == 98
    then binary
    else if c == 100
    then decimal
    else if c == 117
    then unsigned
    else if c == 120
    then hex
    else if c == 88
    then hex
    else if c == 112
    then pointer
    else if c == 80
    then pointer
    else if c == 115
    then string
    else if c == 99
    then character
    else if is_digit c
    then modify (record f { string_length = push_digit f.string_length c })
    else ignore

-- A conversion of the argument `n`.
module _ (fuel : ℕ) (mem : Memory) where
  unfoldable pub convert : PrintFlags → Char → ℕ → Action → Outcome (List Char)
  convert f c n binary =
      print_binary (if f.leading_zeros == 0 then f.number_size else f.leading_zeros) (next_uint f n)
  convert f c n decimal = print_decimal f.leading_zeros (next_int f n)
  convert f c n unsigned = print_unsigned f.leading_zeros (next_uint f n)
  convert f c n hex = print_hex f.leading_zeros (next_uint f n) (c == 88)
  convert f c n pointer = print_ptr (u64 n) (c == 80)
  convert f c n string = print_string fuel mem f.string_length (u64 n)
  convert f c n character = done (n % 256 ∷ [])
  convert f c n (literal p) = done (p ∷ [])
  convert f c n (modify g) = done []
  convert f c n start_zeros = done []
  convert f c n ignore = done []

  -- The next argument, converted, in front of what the rest of the format prints.
  unfoldable pub take_arg :
      (List ℕ → Outcome (List Char)) → PrintFlags → Char → Action → List ℕ → Outcome (List Char)
  take_arg rest f c a [] = fault
  take_arg rest f c a (n ∷ args) = do out ← convert f c n a; more ← rest args; done (out ++ more)

  -- One pass of the `switch`; `go` is the rest of the format, from the next character on.
  unfoldable pub act :
      (Mode → List ℕ → Outcome (List Char))
      → PrintFlags
      → Char
      → List ℕ
      → Action
      → Outcome (List Char)
  act go f c args (literal p) = do more ← go text args; done (p ∷ more)
  act go f c args (modify g) = go (next_mod g) args
  act go f c args start_zeros = go (zeros f) args
  act go f c args ignore = go text args
  act go f c args a = take_arg (go text) f c a args

  -- `fmt` is the format with its NUL; a read behind it is undefined, and so is an argument that was
  -- not passed. An argument is a word.
  unfoldable pub format : List Char → Mode → List ℕ → Outcome (List Char)
  format [] m args = fault
  format (c ∷ fmt) text args =
      let go = λ (m : Mode) (rest : List ℕ). format fmt m rest in
      if c == 0
      then done []
      else if c == 37
      then go (next_mod reset) args
      else (do more ← go text args; done (c ∷ more))
  format (c ∷ fmt) (next_mod f) args = act (λ m rest. format fmt m rest) f c args (action f c)
  format (c ∷ fmt) (zeros f) args =
      let go = λ (m : Mode) (rest : List ℕ). format fmt m rest in
      if is_digit c
      then go (zeros (record f { leading_zeros = push_digit f.leading_zeros c })) args
      else act go f c args (action f c)

  unfoldable pub printk : List Char → List ℕ → Outcome (List Char)
  printk fmt args = format fmt text args

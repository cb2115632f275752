-- ===== src/Print/Examples.antt =====
-- The theorems about log/printk.c at concrete texts and numbers, and runs of `printk`.
use mimik.Base.{◌^◌, ◌-◌, ◌≡◌, refl, arith, List, [], ◌∷◌, ◌++◌, done, ◌≤◌, ◌*◌, length, max}
use mimik.Memory.{Memory}
use mimik.Print.{
  Char, decimal_loop, print_unsigned, print_binary, binary_loop, print_string, chars_at,
}
use mimik.Print.Format.{printk, format, act, action, take_arg, convert}
use mimik.Print.Digits.{read_digits, decimal_digit, AllDecimal}
use mimik.Print.Text.{IsPlain, printk-unsigned}

abbrev blank_memory : Memory
blank_memory a = 0

-- "n=" and a new line.
abbrev label : List Char
label = 110 ∷ 61 ∷ []

abbrev new_line : List Char
new_line = 10 ∷ []

label-IsPlain : IsPlain label
label-IsPlain =
    ((λ e. omega arith), (λ e. omega arith), ((λ e. omega arith), (λ e. omega arith), tt))

new_line-IsPlain : IsPlain new_line
new_line-IsPlain = ((λ e. omega arith), (λ e. omega arith), tt)

printk-unsigned_example :
    (digits : List Char) × (printk 8 blank_memory
        (label ++ (37 ∷ 108 ∷ 117 ∷ (new_line ++ (0 ∷ []))))
        (7 ∷ [])
      ≡ done (label ++ (digits ++ new_line)))
    × AllDecimal digits
    × (read_digits decimal_digit 10 0 digits ≡ 7)
    × (10 ^ length digits ≤ max 1 (10 * 7))
printk-unsigned_example =
    printk-unsigned 8 blank_memory label new_line 7 label-IsPlain new_line-IsPlain (omega arith)

-- "%05u" of 42 prints "00042".
zeros_test :
    printk 8 blank_memory (37 ∷ 48 ∷ 53 ∷ 117 ∷ 0 ∷ []) (42 ∷ [])
    ≡ done (48 ∷ 48 ∷ 48 ∷ 52 ∷ 50 ∷ [])
unfolding printk format act action take_arg convert print_unsigned decimal_loop
zeros_test = refl

-- "%u" of 0 prints nothing.
zero_test : printk 8 blank_memory (37 ∷ 117 ∷ 0 ∷ []) (0 ∷ []) ≡ done []
unfolding printk format act action take_arg convert print_unsigned decimal_loop
zero_test = refl

-- "%10s" prints one character: the 0 starts the case of leading zeros.
abbrev letters : Memory
letters a = 97

width_test : printk 8 letters (37 ∷ 49 ∷ 48 ∷ 115 ∷ 0 ∷ []) (0x100 ∷ []) ≡ done (97 ∷ [])
unfolding printk format act action take_arg convert print_string chars_at
width_test = refl

-- In "%b" the digit behind the first one shows bit 31 too.
binary_test : print_binary 4 (2 ^ 31) ≡ done (49 ∷ 49 ∷ binary_loop 30 (2 ^ 62 - 2 ^ 29) (2 ^ 31))
unfolding print_binary binary_loop
binary_test = refl

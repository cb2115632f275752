-- ===== src/Print/Text.antt =====
-- `printk` on plain text and on text around a number (log/printk.c).
use mimik.Base.{
  ℕ, ◌^◌, ◌%◌, ◌<◌, ◌≡◌, ◌≢◌, refl, arith, List, [], ◌∷◌, ◌++◌, done, ◌==◌, false, ◌≤◌, ◌*◌, ◌-◌,
  length, max, subst, sym, ap, replicate,
}
use mimik.Memory.{Memory}
use mimik.Print.{Char, char_0, pad, print_unsigned}
use mimik.Print.Format.{text, action, convert, take_arg, act, format, printk}
use mimik.Print.Digits.{read_digits, decimal_digit, AllDecimal, print_unsigned-read}

unpadded : (cs : List Char) → pad 0 cs ≡ cs
unpadded cs =
    let none : 0 - length cs ≡ 0 = omega arith in ap (λ (k : ℕ). replicate k char_0 ++ cs) none

-- No NUL and no `%`.
abbrev pub IsPlain : List Char → Type 0
IsPlain [] = Unit {0}
IsPlain (c ∷ cs) = (c ≢ 0) × (c ≢ 37) × IsPlain cs

module _ (fuel : ℕ) (mem : Memory) where
  format-plain :
      (cs fmt : List Char) (args : List ℕ) (out : List Char)
      → IsPlain cs
      → format fuel mem fmt text args ≡ done out
      → format fuel mem (cs ++ fmt) text args ≡ done (cs ++ out)
  unfolding format
  format-plain [] fmt args out plain run = run
  format-plain (c ∷ cs) fmt args out plain run =
      let no_nul : (c == 0) ≡ false = ground (arith, plain.0) in
      let no_percent : (c == 37) ≡ false = ground (arith, plain.1) in
      rw (no_nul, no_percent, format-plain cs fmt args out plain.2 run) refl

  format-end : (cs : List Char) → IsPlain cs → format fuel mem (cs ++ (0 ∷ [])) text [] ≡ done cs
  unfolding format
  format-end [] plain = refl
  format-end (c ∷ cs) plain =
      let no_nul : (c == 0) ≡ false = ground (arith, plain.0) in
      let no_percent : (c == 37) ≡ false = ground (arith, plain.1) in
      rw (no_nul, no_percent, format-end cs plain.2) refl

  format-unsigned :
      (fmt : List Char) (n : ℕ) (args : List ℕ) (digits out : List Char)
      → n < 2 ^ 64
      → print_unsigned 0 n ≡ done digits
      → format fuel mem fmt text args ≡ done out
      → format fuel mem (37 ∷ 108 ∷ 117 ∷ fmt) text (n ∷ args) ≡ done (digits ++ out)
  unfolding format act action take_arg convert
  format-unsigned fmt n args digits out lt print run =
      let word : n % 2 ^ 64 ≡ n = omega arith in rw (word, print, run) refl

  -- The format "…%lu…", with plain text around the conversion, prints the text before it, decimal
  -- digits, and the text behind it. The digits read back as the argument, and there is no leading
  -- zero among them: `k` digits only where the argument is at least 10 ^ (k - 1), and no digit at
  -- all, not even a 0, where it is 0.
  pub printk-unsigned :
      (before after : List Char) (n : ℕ)
      → IsPlain before
      → IsPlain after
      → n < 2 ^ 64
      → (digits : List Char) × (printk fuel mem
            (before ++ (37 ∷ 108 ∷ 117 ∷ (after ++ (0 ∷ []))))
            (n ∷ [])
          ≡ done (before ++ (digits ++ after)))
        × AllDecimal digits
        × (read_digits decimal_digit 10 0 digits ≡ n)
        × (10 ^ length digits ≤ max 1 (10 * n))
  unfolding printk format
  printk-unsigned before after n p q lt =
      let (ds, print, all, value, short) = print_unsigned-read 0 n (omega arith) lt in
      (
        pad 0 ds,
        format-plain before (37 ∷ 108 ∷ 117 ∷ (after ++ (0 ∷ []))) (n ∷ []) (pad 0 ds ++ after) p (
            format-unsigned (after ++ (0 ∷ [])) n [] (pad 0 ds) after lt print
              (format-end after q)),
        all,
        value,
        subst (λ cs. 10 ^ length cs ≤ max 1 (10 * n)) (sym (unpadded ds)) short,
      )

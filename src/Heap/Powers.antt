-- ===== src/Heap/Powers.antt =====
-- `ceil_to_power_of_2` (mm/mm.c), and the class of a power of two.
use mimik.Base.{ℕ, suc, ◌+◌, ◌-◌, ◌*◌, ◌^◌, ◌<◌, ◌≤◌, ◌≡◌, ap, ◌∙◌, arith, Top, smear-Top, u64}
use native.Mathlib.Nat.{pow-suc, pow-le-pow_right}
use mimik.Heap.Sizes.{smear, ceil_to_power_of_2}

smear_lem : (w k x : ℕ) → Top w k x → Top w (k + k) (smear k x)
unfolding smear
smear_lem w k x top = smear-Top w k x top

-- Behind the six steps all bits are set, down from the highest one that was.
six_steps :
    (w x : ℕ)
    → w ≤ 64
    → Top w 1 x
    → smear 32 (smear 16 (smear 8 (smear 4 (smear 2 (smear 1 x))))) + 1 ≡ 2 ^ w
six_steps w x h top =
    let s1 = smear_lem w 1 x top in
    let s2 = smear_lem w 2 _ s1 in
    let s3 = smear_lem w 4 _ s2 in
    let s4 = smear_lem w 8 _ s3 in
    let s5 = smear_lem w 16 _ s4 in
    let s6 = smear_lem w 32 _ s5 in omega (arith, s6.0, s6.1, ap (λ (t : ℕ). 2 ^ t) (saturated w h))
  where
    saturated : (w : ℕ) → w ≤ 64 → w - 64 ≡ 0
    saturated w le = omega arith

-- For a size above `2 ^ k` and not above `2 ^ (k + 1)`, the result is `2 ^ (k + 1)`.
pub ceil_to_power_of_2_lem :
    (k sz : ℕ) → k < 63 → 2 ^ k < sz → sz ≤ 2 ^ (k + 1) → ceil_to_power_of_2 sz ≡ 2 ^ (k + 1)
unfolding ceil_to_power_of_2
ceil_to_power_of_2_lem k sz lt above below =
    let big : 2 ^ (k + 1) ≤ 2 ^ 63 =
      pow-le-pow_right {n = 2} (omega arith) {i = k + 1} {j = 63} (omega arith) in
    let double : 2 ^ (k + 1) ≡ 2 ^ k * 2 = ap (λ (t : ℕ). 2 ^ t) (next k) ∙ pow-suc 2 k in
    let whole =
      six_steps (k + 1) (sz - 1) (omega arith)
        (omega arith, omega (arith, ap (λ (t : ℕ). 2 ^ t) (back k))) in
    rw (wrapped sz (omega arith) (omega arith)) (omega (arith, whole, big))
  where
    next : (n : ℕ) → n + 1 ≡ suc n
    next n = omega arith

    back : (n : ℕ) → n + 1 - 1 ≡ n
    back n = omega arith

    wrapped : (s : ℕ) → 0 < s → s ≤ 2 ^ 63 → u64 (s + (2 ^ 64 - 1)) ≡ s - 1
    wrapped s pos le = omega arith

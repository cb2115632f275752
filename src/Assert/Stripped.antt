-- ===== src/Assert/Stripped.antt =====
-- Which part of a path assert.c prints.
use mimik.Base.{
  ℕ, zero, suc, ◌+◌, ◌-◌, ◌<◌, ◌≡◌, ◌≢◌, refl, arith, ◌∙◌, ap, subst, false, ◌==◌, if◌then◌else◌,
  List, [], ◌∷◌, ◌++◌, length, Option, none, some, done,
}
use mimik.Memory.{Ptr, Memory}
use mimik.Str.Length.{IsString}
use mimik.Assert.{slash, root_loop, printed_file}

-- What the loop makes of a string from `cur` on.
abbrev root_after : List ℕ → Ptr → Option Ptr → Option Ptr
root_after [] cur root = root
root_after (x ∷ xs) cur root = root_after xs (cur + 1) (if x == slash then some (cur + 1) else root)

root_loop-after :
    (fuel : ℕ) (mem : Memory) (cur : Ptr) (root : Option Ptr) (xs : List ℕ)
    → IsString mem cur xs
    → length xs < fuel
    → root_loop fuel mem cur root ≡ done (root_after xs cur root)
unfolding root_loop
root_loop-after zero mem cur root xs s lt = absurd (omega arith)
root_loop-after (suc fuel) mem cur root [] s lt = ground arith
root_loop-after (suc fuel) mem cur root (x ∷ xs) s lt =
    let there : (mem cur == 0) ≡ false = ground arith in
    rw (there, s.0) (root_loop-after fuel mem (cur + 1) _ xs s.2 (omega arith))

abbrev pub NoSlash : List ℕ → Type 0
NoSlash [] = Unit {0}
NoSlash (x ∷ xs) = (x ≢ slash) × NoSlash xs

root_after-name :
    (name : List ℕ) (cur : Ptr) (root : Option Ptr) → NoSlash name → root_after name cur root ≡ root
root_after-name [] cur root clean = refl
root_after-name (x ∷ name) cur root clean =
    let other : (x == slash) ≡ false = ground (arith, clean.0) in
    rw other (root_after-name name (cur + 1) root clean.1)

root_after-dir :
    (dir name : List ℕ) (cur at : Ptr) (root : Option Ptr)
    → NoSlash name
    → at ≡ cur + length dir + 1
    → root_after (dir ++ (slash ∷ name)) cur root ≡ some at
root_after-dir [] name cur at root clean e =
    let here : cur + 1 ≡ at = omega arith in
    root_after-name name (cur + 1) (some (cur + 1)) clean ∙ ap (λ (a : ℕ). some a) here
root_after-dir (x ∷ dir) name cur at root clean e =
    root_after-dir dir name (cur + 1) at _ clean (omega arith)

IsString-skip :
    (mem : Memory) (dir rest : List ℕ) (p q : Ptr)
    → IsString mem p (dir ++ (slash ∷ rest))
    → q ≡ p + length dir + 1
    → IsString mem q rest
IsString-skip mem [] rest p q s e =
    let here : p + 1 ≡ q = omega arith in subst (λ x. IsString mem x rest) here s.2
IsString-skip mem (x ∷ dir) rest p q s e = IsString-skip mem dir rest (p + 1) q s.2 (omega arith)

-- Where the path of assert.c and that of the failed assertion start with the same directory, the
-- file's path is printed from behind it, if the fuel exceeds the length of the first path, and the
-- name of assert.c has no slash.
pub printed_file-rest :
    (fuel : ℕ) (mem : Memory) (this_file file : Ptr) (dir name rest : List ℕ)
    → IsString mem this_file (dir ++ (slash ∷ name))
    → IsString mem file (dir ++ (slash ∷ rest))
    → NoSlash name
    → length (dir ++ (slash ∷ name)) < fuel
    → (p : Ptr) × (printed_file fuel mem this_file file ≡ done p) × IsString mem p rest
unfolding printed_file
printed_file-rest fuel mem this_file file dir name rest here there clean enough =
    let at = this_file + length dir + 1 in
    let found = root_after-dir dir name this_file at none clean refl in
    let run = root_loop-after fuel mem this_file none (dir ++ (slash ∷ name)) here enough in
    (
      file + (at - this_file),
      rw (run, found) refl,
      IsString-skip mem dir rest file (file + (at - this_file)) there (omega arith),
    )

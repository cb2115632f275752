-- ===== src/Vm/Access.antt =====
-- The access that the entries on a walk of the page tables grant together (arch/x86_64/mm/vm.c).
use mimik.Base.{
  ℕ, ◌+◌, ◌<◌, ◌≡◌, refl, Bool, true, false, Bool-cases, inl, inr, not, ◌&&◌, ◌==◌, arith, ◌∙◌, sym,
  subst, List, [], ◌∷◌, length, some,
}
use mimik.Vm.State.{
  Pte, pte_paddr, Table, put_entry, is_flag_set, flag_writable, flag_user, flag_executable,
}
use mimik.Vm.Lookup.{pt_last_level}
use mimik.Vm.Flag.{updated}
use mimik.Vm.Backing.{IsLevelled}
use mimik.Vm.Runs.{last_table, SameShape, path_updated, path_updated-SameShape}
use mimik.Vm.Standing.{last_table-step}
use mimik.Vm.Flagging.{HasRights}

pub record Access : Type 0 where
  pub write : Bool
  pub user : Bool
  pub execute : Bool

-- Every entry from table `f` on has to allow it.
abbrev pub access : (ℕ → Table) → ℕ → List ℕ → Access
access tables f [] = record { write = true; user = true; execute = true }
access tables f (i ∷ index) =
    let e = tables f i in
    let rest = access tables (pte_paddr e) index in
    record {
      write = e.writable && rest.write;
      user = e.user_accessible && rest.user;
      execute = not e.no_execute && rest.execute;
    }

-- What flags ask for.
abbrev pub granted : ℕ → Access
granted flags = record {
  write = is_flag_set flags flag_writable;
  user = is_flag_set flags flag_user;
  execute = is_flag_set flags flag_executable;
}

-- What entries above the last level and a last-level entry with these flags grant together.
abbrev pub both : (upper last : ℕ) → Access
both upper last = record {
  write = is_flag_set upper flag_writable && is_flag_set last flag_writable;
  user = is_flag_set upper flag_user && is_flag_set last flag_user;
  execute = is_flag_set last flag_executable;
}

-- The rights of an entry above the last level.
pub record IsUpper (flags : ℕ) (e : Pte) : Type 0 where
  pub writable : e.writable ≡ is_flag_set flags flag_writable
  pub user : e.user_accessible ≡ is_flag_set flags flag_user
  pub no_execute : e.no_execute ≡ false

-- Every entry on the way to the last level has these rights.
abbrev pub Grants : ℕ → (ℕ → Table) → ℕ → List ℕ → Type 0
Grants flags tables f [] = Unit {0}
Grants flags tables f (i ∷ []) = Unit {0}
Grants flags tables f (i ∷ j ∷ index) =
    IsUpper flags (tables f i) × Grants flags tables (pte_paddr (tables f i)) (j ∷ index)

updated-IsUpper : (flags : ℕ) (e : Pte) → IsUpper flags (updated e flags)
unfolding updated
updated-IsUpper flags e = record { writable = refl; user = refl; no_execute = refl }

put-IsUpper :
    (flags : ℕ) (tables : ℕ → Table) (h k f i : ℕ)
    → IsUpper flags (tables f i)
    → IsUpper flags (put_entry tables h k (updated (tables h k) flags) f i)
put-IsUpper flags tables h k f i up =
    let new = updated (tables h k) flags in
    elim (Bool-cases ((f == h) && (i == k))) [
      | inl there ↦
          let e : put_entry tables h k new f i ≡ new = ground (arith, there) in
          subst (IsUpper flags) (sym e) (updated-IsUpper flags (tables h k))
      | inr other ↦
          let e : put_entry tables h k new f i ≡ tables f i = ground (arith, other) in
          subst (IsUpper flags) (sym e) up
    ]

path_updated-IsUpper :
    (flags : ℕ) (tables : ℕ → Table) (h : ℕ) (index : List ℕ) (f i : ℕ)
    → IsUpper flags (tables f i)
    → IsUpper flags (path_updated flags tables h index f i)
path_updated-IsUpper flags tables h [] f i up = up
path_updated-IsUpper flags tables h (k ∷ []) f i up = up
path_updated-IsUpper flags tables h (k ∷ j ∷ index) f i up =
    path_updated-IsUpper flags (put_entry tables h k (updated (tables h k) flags))
      (pte_paddr (tables h k)) (j ∷ index) f i (put-IsUpper flags tables h k f i up)

pub path_updated-Grants :
    (flags : ℕ) (tables : ℕ → Table) (f i : ℕ) (index : List ℕ)
    → Grants flags (path_updated flags tables f (i ∷ index)) f (i ∷ index)
path_updated-Grants flags tables f i [] = tt
path_updated-Grants flags tables f i (j ∷ index) =
    let changed = put_entry tables f i (updated (tables f i) flags) in
    let a = pte_paddr (tables f i) in
    let all = path_updated flags changed a (j ∷ index) in
    let here : changed f i ≡ updated (tables f i) flags = ground arith in
    (
      path_updated-IsUpper flags changed a (j ∷ index) f i
          (subst (IsUpper flags) (sym here) (updated-IsUpper flags (tables f i))),
      subst (λ b. Grants flags all b (j ∷ index))
          (sym ((path_updated-SameShape flags tables f (i ∷ j ∷ index)).paddr f i))
          (path_updated-Grants flags changed a j index),
    )

-- A change to last-level tables only.
pub Grants-kept :
    {tables0 : ℕ → Table} {root : ℕ} (l : IsLevelled tables0 root) (flags : ℕ) (t1 t2 : ℕ → Table)
    (index : List ℕ) (i f g : ℕ)
    → SameShape tables0 t1
    → ((h j : ℕ) → l.level_of h < pt_last_level → t2 h j ≡ t1 h j)
    → l.level_of f + length index ≡ pt_last_level
    → last_table t1 f (i ∷ index) ≡ some g
    → Grants flags t1 f (i ∷ index)
    → Grants flags t2 f (i ∷ index)
Grants-kept l flags t1 t2 [] i f g same kept depth here grants = tt
Grants-kept l flags t1 t2 (j ∷ index) i f g same kept depth here grants =
    let step = last_table-step t1 f i j g index here in
    let upper : l.level_of f < pt_last_level = omega arith in
    let deeper : l.level_of (pte_paddr (t1 f i)) ≡ l.level_of f + 1 =
      rw (same.paddr f i) (l.down f i upper (sym (same.present f i) ∙ step.0)) in
    let e = kept f i upper in
    (
      subst (IsUpper flags) (sym e) grants.0,
      subst (λ p. Grants flags t2 (pte_paddr p) (j ∷ index)) (sym e)
          (Grants-kept l flags t1 t2 index j (pte_paddr (t1 f i)) g same kept (omega arith) step.1
            grants.1),
    )

all_three : (a b : Bool) → (a && (a && (a && (b && true)))) ≡ (a && b)
all_three true true = refl
all_three true false = refl
all_three false b = refl

double_negation : (b : Bool) → (true && (true && (true && (not (not b) && true)))) ≡ b
double_negation true = refl
double_negation false = refl

-- The access to a page: what the entries above the last level and the last-level entry both grant.
pub access-Grants :
    (upper last : ℕ) (tables : ℕ → Table) (f g i j k m : ℕ)
    → Grants upper tables f (i ∷ j ∷ k ∷ m ∷ [])
    → last_table tables f (i ∷ j ∷ k ∷ m ∷ []) ≡ some g
    → HasRights last (tables g m)
    → access tables f (i ∷ j ∷ k ∷ m ∷ []) ≡ both upper last
unfolding last_table
access-Grants upper last tables f g i j k m (u0, (u1, (u2, end))) here rights =
    let s0 = last_table-step tables f i j g (k ∷ m ∷ []) here in
    let f1 = pte_paddr (tables f i) in
    let s1 = last_table-step tables f1 j k g (m ∷ []) s0.1 in
    let f2 = pte_paddr (tables f1 j) in
    let s2 = last_table-step tables f2 k m g [] s1.1 in
    let table : pte_paddr (tables f2 k) ≡ g = ground (arith, s2.1) in
    let r = subst (λ x. HasRights last (tables x m)) (sym table) rights in
    rw
      (
        u0.writable,
        u0.user,
        u0.no_execute,
        u1.writable,
        u1.user,
        u1.no_execute,
        u2.writable,
        u2.user,
        u2.no_execute,
        r.writable,
        r.user,
        r.no_execute,
        all_three (is_flag_set upper flag_writable) (is_flag_set last flag_writable),
        all_three (is_flag_set upper flag_user) (is_flag_set last flag_user),
        double_negation (is_flag_set last flag_executable),
      )
      refl

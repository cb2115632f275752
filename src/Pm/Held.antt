-- ===== src/Pm/Held.antt =====
-- Lists of pages that are out (mm/pm.c): none twice, and all of them locked.
use mimik.Base.{
  ℕ, ◌+◌, ◌/◌, ◌%◌, ◌^◌, ◌<◌, ◌≡◌, ◌≢◌, Bool, true, false, List, [], ◌∷◌, ◌||◌, ◌==◌, if◌then◌else◌,
  u64, arith, done, halted, fault, out_of_fuel, Outcome, ap, sym, subst, ◌∙◌, inl, inr, Bool-cases,
}
use mimik.Bitmap.Access.{locked, free}
use mimik.Pm.State.{MemBitmap, Pm}
use mimik.Pm.Single.{Single, to_pm, page, bitmap0}
use mimik.Pm.Pages.{Changed}

-- The pages that are out, by address, the latest first.
abbrev pub Pages : Type 0
Pages = List ℕ

abbrev pub holds : ℕ → Pages → Bool
holds p [] = false
holds p (q ∷ h) = (p == q) || holds p h

abbrev pub without : ℕ → Pages → Pages
without p [] = []
without p (q ∷ h) = let rest = without p h in if p == q then h else q ∷ rest

abbrev pub NotIn : ℕ → Pages → Type 0
NotIn p [] = Unit {0}
NotIn p (q ∷ h) = (p ≢ q) × NotIn p h

abbrev pub Distinct : Pages → Type 0
Distinct [] = Unit {0}
Distinct (p ∷ h) = NotIn p h × Distinct h

-- Every page that is out is locked, and an address of a page of the first 128 MB.
abbrev pub AllLocked : Single → Pages → Type 0
AllLocked t [] = Unit {0}
AllLocked t (p ∷ h) = (page t (p / 4096) ≡ locked) × (p % 4096 ≡ 0) × (p < 2 ^ 27) × AllLocked t h

-- The bytes in the two accounts, as a word.
abbrev pub total : Single → ℕ
total t = u64 (t.used + t.unused)

-- The state back from what the allocator keeps.
abbrev from_pm : Single → Pm → Single
from_pm t s = record {
  memory = s.memory;
  used = s.used;
  unused = s.free;
  node = (first_of t s.mem_bitmaps).node;
  first_free = (first_of t s.mem_bitmaps).first_free;
  super = (first_of t s.mem_bitmaps).super;
  next_bitmap_page = s.next_bitmap_page;
}
  where
    first_of : Single → List MemBitmap → MemBitmap
    first_of t [] = bitmap0 t
    first_of t (b ∷ bs) = b

to_pm-injective : (t t' : Single) → to_pm t ≡ to_pm t' → t ≡ t'
to_pm-injective t t' e = ap (from_pm t) e

result_of : {A : Type 0} → A → Outcome (A × Pm) → A
result_of a (done (b, s)) = b
result_of a halted = a
result_of a fault = a
result_of a out_of_fuel = a

state_of : {A : Type 0} → Pm → Outcome (A × Pm) → Pm
state_of s0 (done (b, s)) = s
state_of s0 halted = s0
state_of s0 fault = s0
state_of s0 out_of_fuel = s0

-- Two accounts of one run agree.
pub agree :
    {A : Type 0} {m : Outcome (A × Pm)} (a b : A) (t u : Single)
    → m ≡ done (a, to_pm t)
    → m ≡ done (b, to_pm u)
    → (a ≡ b) × (t ≡ u)
unfolding result_of state_of
agree a b t u e f =
    let same = sym e ∙ f in
    (ap (result_of a) same, to_pm-injective t u (ap (state_of (to_pm t)) same))

pub NotIn-locked :
    (t : Single) (h : Pages) (p : ℕ) → page t (p / 4096) ≡ free → AllLocked t h → NotIn p h
NotIn-locked t [] p vacant all = tt
NotIn-locked t (q ∷ h) p vacant all = (λ e. ground arith, NotIn-locked t h p vacant all.3)

pub AllLocked-locked :
    (t t' : Single) (i : ℕ) (h : Pages) → Changed t i locked t' → AllLocked t h → AllLocked t' h
AllLocked-locked t t' i [] changed all = tt
AllLocked-locked t t' i (q ∷ h) changed all =
    (ground (arith, changed (q / 4096)), all.1, all.2, AllLocked-locked t t' i h changed all.3)

pub held_page :
    (t : Single) (p : ℕ) (h : Pages)
    → holds p h ≡ true
    → AllLocked t h
    → (page t (p / 4096) ≡ locked) × (p % 4096 ≡ 0) × (p < 2 ^ 27)
held_page t p [] there all = absurd (ground arith)
held_page t p (q ∷ h) there all = elim (Bool-cases (p == q)) [
  | inl same ↦ ground arith
  | inr other ↦ held_page t p h (ground arith) all.3
]

-- Other pages than the released one stay locked.
AllLocked-apart :
    (t t' : Single) (p : ℕ) (h : Pages)
    → p % 4096 ≡ 0
    → Changed t (p / 4096) free t'
    → NotIn p h
    → AllLocked t h
    → AllLocked t' h
AllLocked-apart t t' p [] aligned changed apart all = tt
AllLocked-apart t t' p (q ∷ h) aligned changed apart all =
    let other : (p / 4096 == q / 4096) ≡ false = ground arith in
    (
      ground (arith, changed (q / 4096)),
      all.1,
      all.2,
      AllLocked-apart t t' p h aligned changed apart.1 all.3,
    )

NotIn-without : (p q : ℕ) (h : Pages) → NotIn q h → NotIn q (without p h)
NotIn-without p q [] apart = tt
NotIn-without p q (r ∷ h) apart = elim (Bool-cases (p == r)) [
  | inl same ↦ rw same apart.1
  | inr other ↦ rw other (apart.0, NotIn-without p q h apart.1)
]

pub Distinct-without : (p : ℕ) (h : Pages) → Distinct h → Distinct (without p h)
Distinct-without p [] distinct = tt
Distinct-without p (r ∷ h) distinct = elim (Bool-cases (p == r)) [
  | inl same ↦ rw same distinct.1
  | inr other ↦ rw other (NotIn-without p r h distinct.0, Distinct-without p h distinct.1)
]

pub AllLocked-without :
    (t t' : Single) (p : ℕ) (h : Pages)
    → p % 4096 ≡ 0
    → Changed t (p / 4096) free t'
    → Distinct h
    → AllLocked t h
    → AllLocked t' (without p h)
AllLocked-without t t' p [] aligned changed distinct all = tt
AllLocked-without t t' p (r ∷ h) aligned changed distinct all = elim (Bool-cases (p == r)) [
  | inl same ↦
      let e : r ≡ p = ground arith in
      rw same (AllLocked-apart t t' p h aligned changed (subst (λ x. NotIn x h) e distinct.0) all.3)
  | inr other ↦
      let apart : (p / 4096 == r / 4096) ≡ false = ground arith in
      rw other (
        ground (arith, changed (r / 4096)),
        all.1,
        all.2,
        AllLocked-without t t' p h aligned changed distinct.1 all.3,
      )
]

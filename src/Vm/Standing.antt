-- ===== src/Vm/Standing.antt =====
-- Where a pointer to a table stands in the window (arch/x86_64/mm/vm.c), and how a walk goes on
-- below it.
use mimik.Base.{
  ℕ, suc, ◌≡◌, refl, true, arith, ◌∙◌, ap, Bool-cases, inl, inr, List, ◌∷◌, some, done,
}
use mimik.Vm.State.{
  Pte, pte_paddr, flag_writable, set_pte, TablePtr, direct, window, Vm, Table, frame_of,
}
use mimik.Vm.Bracket.{IsWindow, with_tables, mapped, mapped-frame}
use mimik.Vm.Walk.{pte_paddr-page}
use mimik.Vm.Runs.{last_table}

-- A table pointer stands for a page whatever is written to the tables.
abbrev pub Points : TablePtr → ℕ → Vm → Type 0
Points pt f s =
    (tables : ℕ → Table) → frame_of pt (with_tables s tables) ≡ done (f, with_tables s tables)

-- A table that has been mapped keeps its page, and so does the pointer that led there.
pub mapped-Points :
    {d : ℕ} {s : Vm} (w : IsWindow (suc d) s) (e : Pte)
    → Points (window s.first_free_tmp_index) (pte_paddr e) (mapped s (pte_paddr e) flag_writable)
mapped-Points {d} {s} w e tables =
    mapped-frame w (pte_paddr e) flag_writable tables
    ∙ ap (λ n. done (n, with_tables (mapped s (pte_paddr e) flag_writable) tables))
        (pte_paddr-page e)

-- A pointer other than the slot that is taken next keeps its page when a table is mapped.
pub record Standing (pt : TablePtr) (f : ℕ) (s : Vm) : Type 0 where
  pub points : Points pt f s
  pub stays : (a : ℕ) → Points pt f (mapped s a flag_writable)

pub mapped-Standing :
    {d : ℕ} {s : Vm} (w : IsWindow (suc d) s) (e : Pte)
    → Standing (window s.first_free_tmp_index) (pte_paddr e) (mapped s (pte_paddr e) flag_writable)
unfolding frame_of set_pte
mapped-Standing {d} {s} w e = record {
  points = mapped-Points w e;
  stays = λ a tables. ground (arith, pte_paddr-page e);
}

pub direct-Standing : (f : ℕ) (s : Vm) → Standing (direct f) f s
unfolding frame_of
direct-Standing f s = record { points = λ tables. refl; stays = λ a tables. refl }

-- The first step of the way to a last-level table.
pub last_table-step :
    (tables : ℕ → Table) (f i j g : ℕ) (index : List ℕ)
    → last_table tables f (i ∷ j ∷ index) ≡ some g
    → ((tables f i).present ≡ true)
      × (last_table tables (pte_paddr (tables f i)) (j ∷ index) ≡ some g)
unfolding last_table
last_table-step tables f i j g index h = elim (Bool-cases (tables f i).present) [
  | inl there ↦ (there, ground arith)
  | inr absent ↦ absurd (ground arith)
]

pub with_tables-IsWindow :
    {d : ℕ} {s : Vm} → IsWindow d s → (tables : ℕ → Table) → IsWindow d (with_tables s tables)
with_tables-IsWindow w tables = record { room = w.room; empty = w.empty }

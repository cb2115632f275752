-- ===== src/Vm/State.antt =====
-- Page-table entries, virtual addresses and the state of arch/x86_64/mm/vm.c. The tables are
-- addressed by the physical address of their page. Translation caches are not modelled, so
-- `invalidate_page` and `vm_flush_tlb` have no counterpart.
use mimik.Base.{
  ℕ, ◌*◌, ◌/◌, ◌%◌, ◌^◌, Bool, true, false, not, List, [], ◌∷◌, bit_and, ltb, ◌==◌, if◌then◌else◌,
  update, done, fault,
}
use mimik.Base.Commands as Base
pub use mimik.Base.Commands.{and_then, ◌>>=◌, ◌>>◌, pure, check}
use mimik.Pm.State.{Pm}

abbrev pub pt_length : ℕ
pt_length = 512

-- `union pte`; `reserved` are the 51 bits from 12 to 62.
pub record Pte : Type 0 where
  pub present : Bool
  pub writable : Bool
  pub user_accessible : Bool
  pub write_through : Bool
  pub cache_disable : Bool
  pub accessed : Bool
  pub dirty : Bool
  pub is_big : Bool
  pub global : Bool
  pub available : ℕ
  pub reserved : ℕ
  pub no_execute : Bool

-- The entry whose `bytes` are 0.
abbrev pub zero_pte : Pte
zero_pte = record {
  present = false;
  writable = false;
  user_accessible = false;
  write_through = false;
  cache_disable = false;
  accessed = false;
  dirty = false;
  is_big = false;
  global = false;
  available = 0;
  reserved = 0;
  no_execute = false;
}

-- The macro `PTEPADDR`: bits 12 to 51.
abbrev pub pte_paddr : Pte → ℕ
pte_paddr e = e.reserved % 2 ^ 40 * 4096

-- The `VM_FLAG_…` bits, and the macro `ISFLAGSET`.
abbrev pub flag_strict : ℕ
flag_strict = 1

abbrev pub flag_user : ℕ
flag_user = 2

abbrev pub flag_writable : ℕ
flag_writable = 4

abbrev pub flag_executable : ℕ
flag_executable = 8

unfoldable pub is_flag_set : ℕ → ℕ → Bool
is_flag_set flags flag = not (bit_and flags flag == 0)

-- What `set_pte` leaves in an entry, whatever was there.
unfoldable pub set_pte : ℕ → ℕ → Pte
set_pte addr flags = record zero_pte {
  present = true;
  writable = is_flag_set flags flag_writable;
  user_accessible = is_flag_set flags flag_user;
  reserved = addr / 4096 % 2 ^ 40;
  no_execute = not (is_flag_set flags flag_executable);
}

-- The indices of `union vaddr`, outermost first.
unfoldable pub indices_of : ℕ → List ℕ
indices_of vaddr =
    vaddr / 2 ^ 39 % 512 ∷ vaddr / 2 ^ 30 % 512 ∷ vaddr / 2 ^ 21 % 512 ∷ vaddr / 2 ^ 12 % 512 ∷ []

-- A `struct pt*`: the higher-half address of a physical page, or a page of the temporary window.
pub data TablePtr : Type 0 where
  direct : ℕ → TablePtr
  window : ℕ → TablePtr

abbrev pub Table : Type 0
Table = ℕ → Pte

-- `tables` are the page tables in physical memory, by page address; `tmp_pt` is the static table
-- that maps the window, and is none of them.
pub record Vm : Type 0 where
  pub pm : Pm
  pub tables : ℕ → Table
  pub tmp_pt : Table
  pub first_free_tmp_index : ℕ
  pub kpml4 : TablePtr

abbrev pub Command : Type 0 → Type 0
Command A = Base.Command Vm A

-- The physical page behind a table pointer.
unfoldable pub frame_of : TablePtr → Command ℕ
frame_of (direct f) s = done (f, s)
frame_of (window k) s = if (s.tmp_pt k).present then done (pte_paddr (s.tmp_pt k), s) else fault

-- `pt->entries[i]`, a read and a write; an index out of range is undefined.
unfoldable pub read_entry : TablePtr → ℕ → Command Pte
read_entry pt i s =
    if ltb i pt_length then and_then (frame_of pt s) (λ f s'. done (s'.tables f i, s')) else fault

abbrev pub put_entry : (ℕ → Table) → ℕ → ℕ → Pte → ℕ → Table
put_entry tables f i e = update tables f (update (tables f) i e)

unfoldable pub write_entry : TablePtr → ℕ → Pte → Command (Unit {0})
write_entry pt i e s =
    if ltb i pt_length
    then and_then (frame_of pt s)
        (λ f s'. done (tt, record s' { tables = put_entry s'.tables f i e }))
    else fault

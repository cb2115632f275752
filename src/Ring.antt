-- ===== src/Ring.antt =====
-- The intrusive circular lists of structs/list.c and include/structs/list.h. The links of all
-- nodes are two maps from addresses; a node is the address of its `struct list`.
pub mod Chain
pub mod Walk
pub mod Insert
pub mod Remove
pub mod Join
mod Examples
use mimik.Base.{
  ℕ, zero, suc, ◌+◌, Bool, not, ◌==◌, if◌then◌else◌, update, Outcome, done, fault, out_of_fuel,
  ◌>>=◌, ◌>>◌, assert,
}
use mimik.Memory.{Ptr, null}

pub record Links : Type 0 where
  pub prev : Ptr → Ptr
  pub next : Ptr → Ptr

abbrev pub set_prev : Links → Ptr → Ptr → Links
set_prev h p v = record { prev = update h.prev p v; next = h.next }

abbrev pub set_next : Links → Ptr → Ptr → Links
set_next h p v = record { prev = h.prev; next = update h.next p v }

-- A dereference of `NULL` is undefined.
abbrev pub deref : Ptr → Outcome (Unit {0})
deref p = if p == null then fault else done tt

-- The macro `list_is_empty`.
abbrev pub list_is_empty : Links → Ptr → Bool
list_is_empty h list = list == h.next list

unfoldable pub list_init : Ptr → Links → Outcome Links
list_init list h = do assert (not (list == null)); done (set_prev (set_next h list list) list list)

unfoldable pub list_insert : (list elem : Ptr) → Links → Outcome Links
list_insert list elem h = do
  assert (not (list == null))
  assert (not (elem == null))
  let h1 = set_prev h elem list
  let h2 = set_next h1 elem (h1.next list)
  let h3 = set_next h2 list elem
  deref (h3.next elem)
  done (set_prev h3 (h3.next elem) elem)

unfoldable pub list_remove : Ptr → Links → Outcome Links
list_remove elem h = do
  assert (not (elem == null))
  deref (h.prev elem)
  let h1 = set_next h (h.prev elem) (h.next elem)
  deref (h1.next elem)
  let h2 = set_prev h1 (h1.next elem) (h1.prev elem)
  done (set_next (set_prev h2 elem null) elem null)

-- `for (elem = list->next; elem != list; elem = elem->next) ++len`
unfoldable pub length_loop : ℕ → Links → (list elem : Ptr) → ℕ → Outcome ℕ
length_loop zero h list elem len = out_of_fuel
length_loop (suc fuel) h list elem len =
    let rest = deref elem >> length_loop fuel h list (h.next elem) (len + 1) in
    if elem == list then done len else rest

unfoldable pub list_length : ℕ → Links → Ptr → Outcome ℕ
list_length fuel h list = do assert (not (list == null)); length_loop fuel h list (h.next list) 0

unfoldable pub list_join : (list other : Ptr) → Links → Outcome Links
list_join list other h = do
  assert (not (list == null))
  assert (not (list == other))
  if list_is_empty h other then done h else do
    deref (h.next other)
    let h1 = set_prev h (h.next other) list
    deref (h1.prev other)
    let h2 = set_next h1 (h1.prev other) (h1.next list)
    deref (h2.next list)
    let h3 = set_prev h2 (h2.next list) (h2.prev other)
    done (set_next h3 list (h3.next other))

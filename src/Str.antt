-- ===== src/Str.antt =====
-- The string functions of mem/str.c. A `const char*` is an address in memory; a scan for the end
-- of a string has no bound in the source, and runs on fuel here.
pub mod Length
pub mod Equal
mod Examples
use mimik.Base.{
  ℕ, zero, suc, ◌+◌, ◌*◌, Bool, true, false, not, ◌&&◌, ltb, ◌==◌, if◌then◌else◌, Outcome, done,
  out_of_fuel, ◌>>=◌, ◌>>◌, assert,
}
use mimik.Memory.{Ptr, null, Memory}

-- `for (len = 0; *(str++) != '\0'; ++len)`
unfoldable pub length_loop : ℕ → Memory → Ptr → ℕ → Outcome ℕ
length_loop zero mem str len = out_of_fuel
length_loop (suc fuel) mem str len =
    let rest = length_loop fuel mem (str + 1) (len + 1) in if mem str == 0 then done len else rest

unfoldable pub str_length : ℕ → Memory → Ptr → Outcome ℕ
str_length fuel mem str = do assert (not (str == null)); length_loop fuel mem str 0

-- `for (len = 0; len < max_len && *(str++) != '\0'; ++len)`, on the rounds left to `max_len`.
unfoldable pub nlength_loop : ℕ → Memory → Ptr → ℕ → ℕ
nlength_loop zero mem str len = len
nlength_loop (suc left) mem str len =
    let rest = nlength_loop left mem (str + 1) (len + 1) in if mem str == 0 then len else rest

unfoldable pub str_nlength : Memory → Ptr → ℕ → Outcome Bool
str_nlength mem str max_len = do
  assert (not (str == null))
  done (nlength_loop max_len mem str 0 == max_len)

unfoldable pub nequal_loop : ℕ → Memory → (this other : Ptr) → Bool
nequal_loop zero mem this other = true
nequal_loop (suc n) mem this other =
    let rest = nequal_loop n mem (this + 1) (other + 1) in
    if mem this == mem other then rest else false

unfoldable pub str_nequal : Memory → (this other : Ptr) → ℕ → Outcome Bool
str_nequal mem this other n = do
  assert (ltb 0 n)
  assert (not (this == null))
  assert (not (other == null))
  done (nequal_loop n mem this other)

unfoldable pub str_equal : ℕ → Memory → (this other : Ptr) → Outcome Bool
str_equal fuel mem this other = do
  n1 ← str_length fuel mem this
  n2 ← str_length fuel mem other
  if n1 == n2 then str_nequal mem this other n1 else done false

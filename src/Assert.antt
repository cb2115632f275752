-- ===== src/Assert.antt =====
-- The path that a failed assertion prints (assert.c); printing and halting are the outcome `halted`
-- of every other part.
pub mod Stripped
use mimik.Base.{
  ℕ, zero, suc, ◌+◌, ◌-◌, ◌==◌, if◌then◌else◌, Outcome, done, halted, fault, out_of_fuel, Option,
  none, some,
}
use mimik.Memory.{Ptr, Memory}

abbrev pub slash : ℕ
slash = 47

-- The loop over `__FILE__`; `root` is `none` while the variable has no value.
unfoldable pub root_loop : ℕ → Memory → Ptr → Option Ptr → Outcome (Option Ptr)
root_loop zero mem cur root = out_of_fuel
root_loop (suc fuel) mem cur root =
    let next = root_loop fuel mem (cur + 1) (if mem cur == slash then some (cur + 1) else root) in
    if mem cur == 0 then done root else next

-- `file += (size_t)(root - this_file)`; the read of a variable without a value is undefined.
abbrev skip_root : Ptr → Ptr → Outcome (Option Ptr) → Outcome Ptr
skip_root file this_file (done none) = fault
skip_root file this_file (done (some root)) = done (file + (root - this_file))
skip_root file this_file out_of_fuel = out_of_fuel
skip_root file this_file fault = fault
skip_root file this_file halted = halted

-- The address that is passed to the message as the file's name.
unfoldable pub printed_file : ℕ → Memory → (this_file file : Ptr) → Outcome Ptr
printed_file fuel mem this_file file = skip_root file this_file (root_loop fuel mem this_file none)

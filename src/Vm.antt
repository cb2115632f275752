-- ===== src/Vm.antt =====
-- The page tables of arch/x86_64/mm/vm.c. `State` has the entries, the addresses and the state,
-- `Window` the temporary mappings through which tables are reached, `Lookup`, `Flag`, `Unmap` and
-- `Map` the recursive walks with their entry points; the other children prove what these do.
pub mod State
pub mod Window
pub mod Lookup
pub mod Flag
pub mod Unmap
pub mod Map
pub mod Bracket
pub mod Walk
pub mod Backing
pub mod Runs
pub mod Standing
pub mod Flagging
pub mod Effect
pub mod Access
pub mod Rights
pub mod Unmapping
pub mod Room
pub mod Mapping
pub mod Mapped
pub mod Init
pub mod Setup
pub mod Examples
mod RunExamples

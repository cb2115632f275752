-- ===== src/Heap.antt =====
-- The kernel heap of mm/mm.c: size classes (`Sizes`), mappings with fresh pages behind them
-- (`Mapping`), the slabs and the calls on them (`Slabs`). The other children prove what these do.
pub mod Sizes
pub mod Mapping
pub mod Slabs
pub mod Powers
pub mod Classes
pub mod Owner
pub mod Grow
pub mod Take
pub mod Start
pub mod Backed
mod Examples

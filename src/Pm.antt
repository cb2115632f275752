-- ===== src/Pm.antt =====
-- The physical page allocator of mm/pm.c. `State` has the data and the macros, `Search` the
-- functions that look for bitmaps and free pages, `Lock` those that lock, release and request
-- pages, `Init` the set-up; the other children prove what these do.
pub mod State
pub mod Search
pub mod Lock
pub mod Request
pub mod Init
pub mod Single
pub mod Seek
pub mod Locking
pub mod Pages
pub mod Ranges
pub mod Scan
pub mod Requests
pub mod Start
pub mod Held
pub mod Reach
pub mod Examples
mod ReachExamples

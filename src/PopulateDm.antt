-- ===== src/PopulateDm.antt =====
-- populate_dm_startup.c: filling the data model from the vendor module after startup.
mod Tasks
mod Defs
unfoldable pub use Tasks.*
unfoldable pub use Defs.*
pub mod Queries
pub mod Same
pub mod Timers
pub mod Shape
pub mod Children
pub mod Below
pub mod Drains

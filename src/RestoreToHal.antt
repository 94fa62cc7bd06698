-- ===== src/RestoreToHal.antt =====
-- restore_to_hal.c: the list of objects that are still to be enabled in the HAL.
mod Defs
pub mod Rounds
pub mod Invariant
pub mod Reach
unfoldable pub use Defs.*

-- ===== src/DmEvents.antt =====
-- dm_events.c, passwd_set_password of password.c, and handle_rth_tasks of restore_to_hal.c
-- together with the calls that it makes.
unfoldable pub use Defs.*
mod Defs
pub mod Enable
pub mod Password
pub mod Reached

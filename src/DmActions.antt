-- ===== src/DmActions.antt =====
-- dm_actions.c: reading, validating and destroying what is in the data model.
mod Defs
unfoldable pub use Defs.*
pub mod LastChange
pub mod Reading

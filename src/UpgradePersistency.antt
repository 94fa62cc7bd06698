-- ===== src/UpgradePersistency.antt =====
-- upgrade_persistency.c: PON passwords, in a folder that survives an upgrade if there is one.
mod Defs
pub mod RoundTrip
unfoldable pub use Defs.*

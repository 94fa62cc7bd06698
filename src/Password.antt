-- ===== src/Password.antt =====
-- password.c: the PON password of an ANI.
mod Check
pub mod Rules
pub mod Storage
unfoldable pub use Check.*

-- ===== src/DmInfo.antt =====
-- dm_info.c and dm_info.h: what is known at compile time about the objects of the data model.
mod Params
mod Table
mod Lookup
pub mod Paths
pub mod Instances
pub use Params.*
unfoldable pub use Table.*
unfoldable pub use Lookup.*
pub mod Depth

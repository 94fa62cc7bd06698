-- ===== src/Amxc.antt =====
-- What the component uses of libamxc, the container library it links against: operations on
-- strings, and variants with their keys and conversions. The library is not part of this
-- repository, so its functions are parameters; the laws are what its documentation says.
mod StringApi
mod VariantApi
pub use StringApi.*
pub use VariantApi.*

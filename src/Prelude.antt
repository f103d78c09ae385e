-- ===== src/Prelude.antt =====
-- The names that the other modules share: the libraries', and those of the children.
pub mod Base
pub mod Tests
pub mod Lists
pub mod Int
pub mod Text
pub mod Words
pub mod Bits
pub mod Order
pub mod OrderedMap
pub mod SortedMap
pub mod Dict
pub use Base.*
pub use Tests.*
pub use Lists.*
pub use Text.*
unfoldable pub use Base.{dec_lt, ℕ_discrete}

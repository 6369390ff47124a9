-- ===== src/Common.antt =====
-- The library that the services share: common/amundsen_common.
mod Patterns
mod Atlas
pub mod Matching
pub mod Keys
unfoldable pub use Patterns.*
unfoldable pub use Atlas.*

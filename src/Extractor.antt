-- ===== src/Extractor.antt =====
-- The extractors that make tables of the rows of a query: databuilder/databuilder/extractor.
mod Groups
mod Dialects
pub mod Runs
pub mod Tables
unfoldable pub use Groups.*
unfoldable pub use Dialects.*

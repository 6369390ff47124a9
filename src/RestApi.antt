-- ===== src/RestApi.antt =====
-- The joining of REST calls: databuilder/databuilder/rest_api.
mod SubRecords
mod Merger
mod Execution
mod Mode
pub mod Rows
pub mod Columns
pub mod Merged
pub mod Computed
mod Round
pub mod Joined
pub mod Paging
pub mod Retry
unfoldable pub use SubRecords.*
unfoldable pub use Merger.*
unfoldable pub use Execution.*
unfoldable pub use Mode.*

-- ===== src/Elastic.antt =====
-- The publishing of search documents to Elasticsearch behind an alias:
-- databuilder/databuilder/publisher/elasticsearch_publisher.py.
mod Connection
mod Bulk
mod Contract
mod Swap
mod Fill
pub mod Batches
pub mod Atomic
unfoldable pub use Connection.*
unfoldable pub use Bulk.*
unfoldable pub use Contract.*

-- ===== src/Loader.antt =====
-- databuilder/databuilder/loader/file_system_neo4j_csv_loader.py, and the rows that
-- databuilder/databuilder/serializers/neo4_serializer.py makes.
mod Rows
mod Files
pub mod Routing
pub mod RoundTrip
unfoldable pub use Rows.*
unfoldable pub use Files.*

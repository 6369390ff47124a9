-- ===== src/Staleness.antt =====
-- databuilder/databuilder/task/neo4j_staleness_removal_task.py: the removal of stale nodes and
-- relations from Neo4j, behind a safety check.
mod Setup
mod Statements
mod Run
mod Database
pub mod Safety
pub mod Cleans
unfoldable pub use Setup.*
unfoldable pub use Statements.*
unfoldable pub use Run.*
pub use Database.*

-- ===== src/Publisher.antt =====
-- databuilder/databuilder/publisher/neo4j_csv_publisher.py: the publishing of CSV files to Neo4j in
-- transactions.
mod Statements
mod Transactions
mod Publish
mod Sends
mod Files
pub mod Committed
pub mod Failures
unfoldable pub use Statements.*
unfoldable pub use Transactions.*
unfoldable pub use Publish.*
pub use Sends.{Sent, Accepting, NonZero}
pub use Files.{all_sent}

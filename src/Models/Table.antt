-- ===== src/Models/Table.antt =====
-- models/table_metadata.py: tags, columns and tables, and the nodes and relations of a table.
-- `schema/schema_constant.py` and `cluster/cluster_constants.py` hold some of its labels.
mod Defs
mod Nodes
mod Relations
mod Records
pub mod Integrity
mod Every
pub mod Valid
pub mod Shared
pub mod Ordered
unfoldable pub use Defs.*
unfoldable pub use Nodes.*
unfoldable pub use Records.*
unfoldable pub use Relations.*

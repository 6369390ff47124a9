-- ===== src/Models.antt =====
-- The metadata models of databuilder/databuilder/models that become graph nodes and relations.
pub mod Graph
pub mod Description
pub mod Badge
pub mod TypeMetadata
pub mod Serialized
pub mod Rds
pub mod Table
pub mod Complex

-- ===== src/Models/Table/Relations.antt =====
-- `_create_next_relation` of models/table_metadata.py and what it calls.
use amundsen_fork.Prelude.{String, Option, none, some, List, [], ◌∷◌, ◌++◌, map, triple_eq}
use amundsen_fork.Models.Graph.{GraphRelationship}
use amundsen_fork.Models.Description
use amundsen_fork.Models.Description.{DescriptionMetadata}
use amundsen_fork.Models.Badge.{get_badge_relations}
use amundsen_fork.Models.TypeMetadata
use amundsen_fork.Models.TypeMetadata.{TypeMetadata, column}
use amundsen_fork.Models.Serialized.{emit_new}
use amundsen_fork.Models.Table.Defs.{
  ColumnMetadata, TableMetadata, get_tag_key, get_table_key, get_table_description_key,
  get_database_key, get_cluster_key, get_schema_key, get_col_key, get_col_description_key,
}
use amundsen_fork.Models.Table.Nodes.{column_badges}

-- `(start_key, end_key, type)`
abbrev pub relation_key : GraphRelationship → String × String × String
relation_key r = (r.start_key, r.end_key, r.type)

module _ (t : TableMetadata) where
  abbrev pub schema_table_relationship : GraphRelationship
  schema_table_relationship = record {
    start_key = get_schema_key t;
    start_label = "Schema";
    end_key = get_table_key t;
    end_label = "Table";
    type = "TABLE";
    reverse_type = "TABLE_OF";
    attributes = [];
  }

  abbrev pub table_description_relations : Option DescriptionMetadata → List GraphRelationship
  table_description_relations none = []
  table_description_relations (some d) =
      Description.get_relation d "Table" (get_table_key t) (get_table_description_key t d) ∷ []

  abbrev pub tag_relationship : String → GraphRelationship
  tag_relationship tag = record {
    start_label = "Table";
    start_key = get_table_key t;
    end_label = "Tag";
    end_key = get_tag_key tag;
    type = "TAGGED_BY";
    reverse_type = "TAG";
    attributes = [];
  }

  abbrev pub column_relationship : ColumnMetadata → GraphRelationship
  column_relationship col = record {
    start_label = "Table";
    start_key = get_table_key t;
    end_label = "Column";
    end_key = get_col_key t col;
    type = "COLUMN";
    reverse_type = "COLUMN_OF";
    attributes = [];
  }

  abbrev pub column_description_relations :
      ColumnMetadata → Option DescriptionMetadata → List GraphRelationship
  column_description_relations col none = []
  column_description_relations col (some d) =
      Description.get_relation d "Column" (get_col_key t col) (get_col_description_key t col d) ∷ []

  abbrev pub type_relations : Option (String × TypeMetadata) → List GraphRelationship
  type_relations none = []
  type_relations (some (k, m)) = TypeMetadata.create_relation_iterator (column k) m

  unfoldable pub create_column_relations : ColumnMetadata → List GraphRelationship
  create_column_relations col =
      column_relationship col
      ∷ (column_description_relations col col.description
          ++ (get_badge_relations (column_badges t col) ++ type_relations col.parsed))

  unfoldable pub create_all_column_relations : List ColumnMetadata → List GraphRelationship
  create_all_column_relations [] = []
  create_all_column_relations (col ∷ cols) =
      create_column_relations col ++ create_all_column_relations cols

  -- The relations that every table yields.
  unfoldable pub table_relations : List GraphRelationship
  table_relations =
      schema_table_relationship
      ∷ (table_description_relations t.description
          ++ (map tag_relationship t.tags ++ create_all_column_relations t.columns))

  -- Those between database, cluster and schema, which tables share.
  unfoldable pub other_relations : List GraphRelationship
  other_relations =
      record {
        start_label = "Database";
        end_label = "Cluster";
        start_key = get_database_key t;
        end_key = get_cluster_key t;
        type = "CLUSTER";
        reverse_type = "CLUSTER_OF";
        attributes = [];
      }
      ∷ record {
        start_label = "Cluster";
        end_label = "Schema";
        start_key = get_cluster_key t;
        end_key = get_schema_key t;
        type = "SCHEMA";
        reverse_type = "SCHEMA_OF";
        attributes = [];
      }
      ∷ []

  -- All relations of the generator, and `serialized_rels_keys` when it has ended.
  unfoldable pub create_relations :
      List (String × String × String) → List GraphRelationship × List (String × String × String)
  create_relations keys =
      let (new, keys') = emit_new relation_key other_relations keys in
      (table_relations ++ new, keys')

-- ===== src/Models/Table/Nodes.antt =====
-- `_create_next_node` of models/table_metadata.py and what it calls.
use amundsen_fork.Prelude.{
  String, str_eq, Option, none, some, List, [], ◌∷◌, ◌++◌, map, ◌||◌, Bool, false, if◌then◌else◌,
  option_eq,
}
use amundsen_fork.Models.Graph.{str, int, bool, Value, GraphNode}
use amundsen_fork.Models.Description
use amundsen_fork.Models.Description.{DescriptionMetadata}
use amundsen_fork.Models.Badge.{BadgeMetadata, get_badge_nodes}
use amundsen_fork.Models.TypeMetadata
use amundsen_fork.Models.TypeMetadata.{TypeMetadata, column}
use amundsen_fork.Models.Serialized.{emit_new}
use amundsen_fork.Models.Table.Defs.{
  ColumnMetadata, TableMetadata, get_tag_key, get_table_key, get_table_description_key,
  get_database_key, get_cluster_key, get_schema_key, get_col_key, get_col_description_key,
}

-- `TagMetadata(tag).get_node()`
unfoldable pub tag_node : String → GraphNode
tag_node tag = record {
  key = some (get_tag_key tag);
  label = some "Tag";
  attributes = ("tag_type", str "default") ∷ [];
}

has_name : String → List (String × Value) → Bool
has_name k [] = false
has_name k ((j, v) ∷ attributes) = str_eq k j || has_name k attributes

-- Additional attributes do not replace those that are there.
add_attrs : List (String × Value) → List (String × Value) → List (String × Value)
unfolding has_name
add_attrs attributes [] = attributes
add_attrs attributes ((k, v) ∷ attrs) =
    add_attrs (if has_name k attributes then attributes else attributes ++ (k, v) ∷ []) attrs

unfoldable pub create_table_node : TableMetadata → GraphNode
unfolding add_attrs
create_table_node t = record {
  key = some (get_table_key t);
  label = some "Table";
  attributes = add_attrs (("name", str t.name) ∷ ("is_view", bool t.is_view) ∷ []) t.attrs;
}

module _ (t : TableMetadata) where
  abbrev pub table_description_nodes : Option DescriptionMetadata → List GraphNode
  table_description_nodes none = []
  table_description_nodes (some d) = Description.get_node d (get_table_description_key t d) ∷ []

  abbrev pub column_node : ColumnMetadata → GraphNode
  column_node col = record {
    key = some (get_col_key t col);
    label = some "Column";
    attributes =
        ("name", str col.name)
        ∷ ("col_type", str col.type)
        ∷ ("sort_order", int col.sort_order)
        ∷ [];
  }

  abbrev pub column_description_nodes : ColumnMetadata → Option DescriptionMetadata → List GraphNode
  column_description_nodes col none = []
  column_description_nodes col (some d) =
      Description.get_node d (get_col_description_key t col d) ∷ []

  -- The `BadgeMetadata` of a column. "Column" is one of the labels that it accepts.
  abbrev pub column_badges : ColumnMetadata → BadgeMetadata
  column_badges col = record {
    start_label = "Column";
    start_key = get_col_key t col;
    badges = col.badges;
  }

  -- No badges give no nodes, so the test on them is not needed.
  abbrev pub type_nodes : Option (String × TypeMetadata) → List GraphNode
  type_nodes none = []
  type_nodes (some (k, m)) = TypeMetadata.create_node_iterator (column k) m

  unfoldable pub create_column_nodes : ColumnMetadata → List GraphNode
  create_column_nodes col =
      column_node col
      ∷ (column_description_nodes col col.description
          ++ (get_badge_nodes (column_badges col) ++ type_nodes col.parsed))

  unfoldable pub create_all_column_nodes : List ColumnMetadata → List GraphNode
  create_all_column_nodes [] = []
  create_all_column_nodes (col ∷ cols) = create_column_nodes col ++ create_all_column_nodes cols

  -- The nodes that every table yields.
  unfoldable pub table_nodes : List GraphNode
  table_nodes =
      create_table_node t
      ∷ (table_description_nodes t.description
          ++ (map tag_node t.tags ++ create_all_column_nodes t.columns))

  abbrev named_node : String → String → String → GraphNode
  named_node key label name = record {
    key = some key;
    label = some label;
    attributes = ("name", str name) ∷ [];
  }

  -- Database, cluster and schema, which tables share.
  unfoldable pub other_nodes : List GraphNode
  other_nodes =
      named_node (get_database_key t) "Database" t.database
      ∷ named_node (get_cluster_key t) "Cluster" t.cluster
      ∷ named_node (get_schema_key t) "Schema" t.schema
      ∷ []

  -- All nodes of the generator, and `serialized_nodes_keys` when it has ended.
  unfoldable pub create_nodes : List (Option String) → List GraphNode × List (Option String)
  create_nodes keys =
      let (new, keys') = emit_new (λ n. n.key) other_nodes keys in (table_nodes ++ new, keys')

-- ===== src/Models/Table/Every.antt =====
-- What holds of each kind of node or relation holds of all that a table yields.
use amundsen_fork.Prelude.{String, Option, none, some, List, [], ◌∷◌, map, All, All-append}
use amundsen_fork.Models.Graph.{GraphNode, GraphRelationship}
use amundsen_fork.Models.Description.{DescriptionMetadata, get_node, get_relation}
use amundsen_fork.Models.Badge.{
  Badge, badge_node, badge_relation, get_badge_nodes, get_badge_relations,
}
use amundsen_fork.Models.TypeMetadata.{
  TypeMetadata, Parent, Fields, column, node_label, type_node, type_relation,
}
use amundsen_fork.Models.TypeMetadata.Every.{type_nodes-All, type_relations-All}
use amundsen_fork.Models.Table.Defs.{ColumnMetadata, TableMetadata}
use amundsen_fork.Models.Table.Nodes.{
  tag_node, create_table_node, table_description_nodes, column_node, column_description_nodes,
  column_badges, type_nodes, create_column_nodes, create_all_column_nodes, table_nodes,
}
use amundsen_fork.Models.Table.Relations.{
  schema_table_relationship, table_description_relations, tag_relationship, column_relationship,
  column_description_relations, type_relations, create_column_relations,
  create_all_column_relations, table_relations,
}

pub record EveryNode (P : GraphNode → Type 0) : Type 0 where
  pub table : (t : TableMetadata) → P (create_table_node t)
  pub description : (d : DescriptionMetadata) (k : String) → P (get_node d k)
  pub tag : (tag : String) → P (tag_node tag)
  pub column : (t : TableMetadata) (col : ColumnMetadata) → P (column_node t col)
  pub badge : (b : Badge) → P (badge_node b)
  pub type : (kind : String) (p : Parent) (f : Fields) → P (type_node kind p f)

map-All :
    {A B : Type 0} (P : B → Type 0) (f : A → B) (xs : List A)
    → ((x : A) → P (f x))
    → All P (map f xs)
map-All P f [] h = tt
map-All P f (x ∷ xs) h = (h x, map-All P f xs h)

module _ (P : GraphNode → Type 0) (every : EveryNode P) (t : TableMetadata) where
  table_description_nodes-All :
      (d : Option DescriptionMetadata) → All P (table_description_nodes t d)
  table_description_nodes-All none = tt
  table_description_nodes-All (some d) = (every.description d _, tt)

  column_description_nodes-All :
      (col : ColumnMetadata) (d : Option DescriptionMetadata)
      → All P (column_description_nodes t col d)
  column_description_nodes-All col none = tt
  column_description_nodes-All col (some d) = (every.description d _, tt)

  parsed_nodes-All : (o : Option (String × TypeMetadata)) → All P (type_nodes t o)
  parsed_nodes-All none = tt
  parsed_nodes-All (some (k, m)) = type_nodes-All P every.type every.description (column k) m

  one_column_nodes-All : (col : ColumnMetadata) → All P (create_column_nodes t col)
  unfolding create_column_nodes get_badge_nodes
  one_column_nodes-All col = (
    every.column t col,
    All-append P (column_description_nodes t col col.description) _
        (column_description_nodes-All col col.description)
        (All-append P (get_badge_nodes (column_badges t col)) _
          (map-All P badge_node col.badges every.badge) (parsed_nodes-All col.parsed)),
  )

  column_nodes-All : (cols : List ColumnMetadata) → All P (create_all_column_nodes t cols)
  unfolding create_all_column_nodes
  column_nodes-All [] = tt
  column_nodes-All (col ∷ cols) =
      All-append P (create_column_nodes t col) _ (one_column_nodes-All col) (column_nodes-All cols)

  pub table_nodes-All : All P (table_nodes t)
  unfolding table_nodes
  table_nodes-All = (
    every.table t,
    All-append P (table_description_nodes t t.description) _
        (table_description_nodes-All t.description)
        (All-append P (map tag_node t.tags) _ (map-All P tag_node t.tags every.tag)
          (column_nodes-All t.columns)),
  )

pub record EveryRelation (P : GraphRelationship → Type 0) : Type 0 where
  pub table : (t : TableMetadata) → P (schema_table_relationship t)
  pub table_description : (d : DescriptionMetadata) (k l : String) → P (get_relation d "Table" k l)
  pub column_description :
      (d : DescriptionMetadata) (k l : String) → P (get_relation d "Column" k l)
  pub type_description :
      (d : DescriptionMetadata) (k l : String) → P (get_relation d node_label k l)
  pub tag : (t : TableMetadata) (tag : String) → P (tag_relationship t tag)
  pub column : (t : TableMetadata) (col : ColumnMetadata) → P (column_relationship t col)
  pub badge :
      (t : TableMetadata) (col : ColumnMetadata) (b : Badge)
      → P (badge_relation (column_badges t col) b)
  pub type : (p : Parent) (f : Fields) → P (type_relation p f)

module _ (P : GraphRelationship → Type 0) (every : EveryRelation P) (t : TableMetadata) where
  table_description_relations-All :
      (d : Option DescriptionMetadata) → All P (table_description_relations t d)
  table_description_relations-All none = tt
  table_description_relations-All (some d) = (every.table_description d _ _, tt)

  column_description_relations-All :
      (col : ColumnMetadata) (d : Option DescriptionMetadata)
      → All P (column_description_relations t col d)
  column_description_relations-All col none = tt
  column_description_relations-All col (some d) = (every.column_description d _ _, tt)

  parsed_relations-All : (o : Option (String × TypeMetadata)) → All P (type_relations t o)
  parsed_relations-All none = tt
  parsed_relations-All (some (k, m)) =
      type_relations-All P every.type every.type_description (column k) m

  one_column_relations-All : (col : ColumnMetadata) → All P (create_column_relations t col)
  unfolding create_column_relations get_badge_relations
  one_column_relations-All col = (
    every.column t col,
    All-append P (column_description_relations t col col.description) _
        (column_description_relations-All col col.description)
        (All-append P (get_badge_relations (column_badges t col)) _
          (map-All P (badge_relation (column_badges t col)) col.badges (every.badge t col))
          (parsed_relations-All col.parsed)),
  )

  column_relations-All : (cols : List ColumnMetadata) → All P (create_all_column_relations t cols)
  unfolding create_all_column_relations
  column_relations-All [] = tt
  column_relations-All (col ∷ cols) =
      All-append P (create_column_relations t col) _ (one_column_relations-All col)
        (column_relations-All cols)

  pub table_relations-All : All P (table_relations t)
  unfolding table_relations
  table_relations-All = (
    every.table t,
    All-append P (table_description_relations t t.description) _
        (table_description_relations-All t.description)
        (All-append P (map (tag_relationship t) t.tags) _
          (map-All P (tag_relationship t) t.tags (every.tag t)) (column_relations-All t.columns)),
  )

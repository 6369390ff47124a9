-- ===== src/Models/Table/Defs.antt =====
-- The records of models/table_metadata.py, their constructors and their keys.
use amundsen_fork.Prelude.{ℕ, String, ◌<>◌, Bool, Option, none, List, [], ◌∷◌, map, if◌then◌else◌}
use amundsen_fork.Prelude.Ascii.{is_empty, lower, strip, split}
use amundsen_fork.Models.Graph.{Value}
use amundsen_fork.Models.Description.{
  DescriptionMetadata, get_description_id, create_description_metadata,
}
use amundsen_fork.Models.Badge.{Badge, badge}
use amundsen_fork.Models.TypeMetadata.{TypeMetadata}

-- `Union[List, str, None]`
pub data Tags : Type 0 where
  no_tags : Tags
  text : String → Tags
  tag_list : List String → Tags

-- `list(filter(None, …))`
non_empty : List String → List String
non_empty [] = []
non_empty (w ∷ ws) = if is_empty w then non_empty ws else w ∷ non_empty ws

abbrev as_list : Tags → List String
as_list no_tags = []
as_list (text s) = non_empty (split "," s)
as_list (tag_list ws) = ws

unfoldable pub format_as_list : Tags → List String
unfolding non_empty
format_as_list tags = map (λ tag. strip (lower tag)) (as_list tags)

-- The key that a column has been given, and its parsed type, are set together by
-- `ComplexTypeTransformer`.
pub record ColumnMetadata : Type 0 where
  pub name : String
  pub description : Option DescriptionMetadata
  pub type : String
  pub sort_order : ℕ
  pub badges : List Badge
  pub parsed : Option (String × TypeMetadata)

-- `ColumnMetadata.__init__`
unfoldable pub column_metadata : String → Option String → String → ℕ → Tags → ColumnMetadata
column_metadata name description col_type sort_order badges = record {
  name = name;
  description = create_description_metadata description none none none none;
  type = col_type;
  sort_order = sort_order;
  badges = map (λ b. badge b "column") (format_as_list badges);
  parsed = none;
}

pub record TableMetadata : Type 0 where
  pub database : String
  pub cluster : String
  pub schema : String
  pub name : String
  pub description : Option DescriptionMetadata
  pub columns : List ColumnMetadata
  pub is_view : Bool
  pub attrs : List (String × Value)
  pub tags : List String

-- `TableMetadata.__init__`; no keyword arguments leave no attributes.
unfoldable pub table_metadata :
    String
    → String
    → String
    → String
    → Option String
    → List ColumnMetadata
    → Bool
    → Tags
    → Option String
    → List (String × Value)
    → TableMetadata
table_metadata database cluster schema name description columns is_view tags source kwargs =
    record {
      database = database;
      cluster = cluster;
      schema = schema;
      name = name;
      description = create_description_metadata description source none none none;
      columns = columns;
      is_view = is_view;
      attrs = kwargs;
      tags = format_as_list tags;
    }

unfoldable pub get_tag_key : String → String
get_tag_key name = if is_empty name then "" else name

unfoldable pub get_table_key : TableMetadata → String
get_table_key t = t.database <> "://" <> t.cluster <> "." <> t.schema <> "/" <> t.name

unfoldable pub get_table_description_key : TableMetadata → DescriptionMetadata → String
get_table_description_key t d =
    t.database
    <> "://"
    <> t.cluster
    <> "."
    <> t.schema
    <> "/"
    <> t.name
    <> "/"
    <> get_description_id d

unfoldable pub get_database_key : TableMetadata → String
get_database_key t = "database://" <> t.database

unfoldable pub get_cluster_key : TableMetadata → String
get_cluster_key t = t.database <> "://" <> t.cluster

unfoldable pub get_schema_key : TableMetadata → String
get_schema_key t = t.database <> "://" <> t.cluster <> "." <> t.schema

unfoldable pub get_col_key : TableMetadata → ColumnMetadata → String
get_col_key t col =
    t.database <> "://" <> t.cluster <> "." <> t.schema <> "/" <> t.name <> "/" <> col.name

unfoldable pub get_col_description_key :
    TableMetadata → ColumnMetadata → DescriptionMetadata → String
get_col_description_key t col d =
    t.database
    <> "://"
    <> t.cluster
    <> "."
    <> t.schema
    <> "/"
    <> t.name
    <> "/"
    <> col.name
    <> "/"
    <> get_description_id d

-- ===== src/Models/Table/Records.antt =====
-- `_create_record_iterator` of models/table_metadata.py and models/badge.py, and what they call.
use amundsen_fork.Prelude.{
  String, str_eq, Option, none, some, List, [], ◌∷◌, ◌++◌, map, if◌then◌else◌, string_eq,
}
use amundsen_fork.Models.Description.{DescriptionMetadata, label, description_label}
use amundsen_fork.Models.Badge.{Badge, BadgeMetadata, get_badge_key}
use amundsen_fork.Models.Serialized.{emit_new}
use amundsen_fork.Models.Rds
use amundsen_fork.Models.Rds.{RdsModel}
use amundsen_fork.Models.Table.Defs.{
  ColumnMetadata, TableMetadata, get_tag_key, get_table_key, get_table_description_key,
  get_database_key, get_cluster_key, get_schema_key, get_col_key, get_col_description_key,
}
use amundsen_fork.Models.Table.Nodes.{}

-- `TagMetadata(tag).get_record()`
unfoldable pub tag_record : String → RdsModel
tag_record tag = Rds.tag (get_tag_key tag) "default"

abbrev pub badge_record : Badge → RdsModel
badge_record b = Rds.badge (get_badge_key b.name) b.category

-- `BadgeMetadata.get_badge_records`
unfoldable pub get_badge_records : BadgeMetadata → List RdsModel
get_badge_records m = map badge_record m.badges

module _ (t : TableMetadata) where
  -- Database, cluster and schema, with the `rk` that the set of serialized keys is asked for.
  unfoldable pub other_records : List (String × RdsModel)
  other_records =
      (get_database_key t, Rds.database (get_database_key t) t.database)
      ∷ (get_cluster_key t, Rds.cluster (get_cluster_key t) t.cluster (get_database_key t))
      ∷ (get_schema_key t, Rds.schema (get_schema_key t) t.schema (get_cluster_key t))
      ∷ []

  abbrev pub table_description_records : Option DescriptionMetadata → List RdsModel
  table_description_records none = []
  table_description_records (some d) =
      (if str_eq (label d) description_label
        then Rds.table_description (get_table_description_key t d) d.source d.text (get_table_key t)
        else Rds.table_programmatic_description (get_table_description_key t d) d.source d.text
            (get_table_key t))
      ∷ []

  unfoldable pub tag_records : List String → List RdsModel
  tag_records [] = []
  tag_records (tag ∷ tags) =
      tag_record tag ∷ Rds.table_tag (get_table_key t) (get_tag_key tag) ∷ tag_records tags

  abbrev pub column_record : ColumnMetadata → RdsModel
  column_record col =
      Rds.table_column (get_col_key t col) col.name col.type col.sort_order (get_table_key t)

  abbrev pub column_description_records :
      ColumnMetadata → Option DescriptionMetadata → List RdsModel
  column_description_records col none = []
  column_description_records col (some d) =
      Rds.column_description (get_col_description_key t col d) d.source d.text (get_col_key t col)
      ∷ []

  -- The loop over the badges of a column.
  unfoldable pub column_badge_records : String → List Badge → List RdsModel
  column_badge_records column_rk [] = []
  column_badge_records column_rk (b ∷ badges) =
      badge_record b
      ∷ Rds.column_badge column_rk (get_badge_key b.name)
      ∷ column_badge_records column_rk badges

  unfoldable pub column_records : List ColumnMetadata → List RdsModel
  column_records [] = []
  column_records (col ∷ cols) =
      column_record col
      ∷ (column_description_records col col.description
          ++ (column_badge_records (get_col_key t col) col.badges ++ column_records cols))

  -- The rows that every table yields.
  unfoldable pub table_records : List RdsModel
  table_records =
      Rds.table (get_table_key t) t.name t.is_view (get_schema_key t)
      ∷ (table_description_records t.description
          ++ (tag_records t.tags ++ column_records t.columns))

  -- All rows of the generator, and `serialized_records_keys` when it has ended.
  unfoldable pub create_records : List String → List RdsModel × List String
  create_records keys =
      let (new, keys') = emit_new (λ r. r.0) other_records keys in
      (map (λ r. r.1) new ++ table_records, keys')

-- The rows of tables, one table after the other, with the set that the class keeps between them.
unfoldable pub load_records : List TableMetadata → List String → List RdsModel
load_records [] keys = []
load_records (t ∷ ts) keys =
    let (records, keys') = create_records t keys in records ++ load_records ts keys'

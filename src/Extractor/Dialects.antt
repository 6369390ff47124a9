-- ===== src/Extractor/Dialects.antt =====
-- The columns and tables that each extractor makes of its rows.
use amundsen_fork.Prelude.{
  String, str_eq, Bool, false, ◌==◌, Option, none, some, List, [], ◌∷◌, if◌then◌else◌,
}
use amundsen_fork.Prelude.Ascii.{is_empty}
use amundsen_fork.Models.Graph.{Value, str, int}
use amundsen_fork.Models.Table.{
  ColumnMetadata, TableMetadata, no_tags, text, tag_list, column_metadata, table_metadata,
}
use amundsen_fork.Extractor.Groups.{Row, Dialect}

-- `== 1`, where `True` is 1 as well.
abbrev pub is_one : Value → Bool
is_one (int n) = n == 1
is_one (Value.bool b) = b
is_one _ = false

-- `== 'true'`
abbrev pub is_true_text : Value → Bool
is_true_text (str s) = str_eq s "true"
is_true_text _ = false

abbrev pub plain_column : Row → ColumnMetadata
plain_column row =
    column_metadata row.col_name row.col_description row.col_type row.col_sort_order no_tags

abbrev pub plain_table :
    String → String → Row → Option String → List ColumnMetadata → Bool → TableMetadata
plain_table database cluster row description columns is_view =
    table_metadata database cluster row.schema row.name description columns is_view no_tags none []

abbrev pub hive_column : Row → ColumnMetadata
hive_column row =
    if is_one row.is_partition_col
    then column_metadata row.col_name row.col_description row.col_type row.col_sort_order
        (tag_list ("partition column" ∷ []))
    else plain_column row

abbrev pub hive : String → Dialect
hive cluster = record {
  column_of = hive_column;
  table_of =
      λ row columns. plain_table "hive" cluster row row.description columns (is_one row.is_view);
}

abbrev pub base_postgres : String → Dialect
base_postgres database = record {
  column_of = plain_column;
  table_of = λ row columns. plain_table database row.cluster row row.description columns false;
}

abbrev pub db2 : String → Dialect
db2 database = record {
  column_of = plain_column;
  table_of = λ row columns. plain_table database row.cluster row row.description columns false;
}

abbrev pub oracle : String → Dialect
oracle database = record {
  column_of = plain_column;
  table_of = λ row columns. plain_table database row.cluster row row.description columns false;
}

-- Its query calls the cluster `td_cluster`.
abbrev pub base_teradata : String → Dialect
base_teradata database = record {
  column_of = plain_column;
  table_of = λ row columns. plain_table database row.cluster row row.description columns false;
}

abbrev pub dremio : Dialect
dremio = record {
  column_of = plain_column;
  table_of = λ row columns.
      plain_table row.database row.cluster row row.description columns (is_true_text row.is_view);
}

abbrev pub athena_column : Row → ColumnMetadata
athena_column row =
    column_metadata row.col_name (elim row.extras [ some e ↦ some e | none ↦ row.col_description ])
      row.col_type row.col_sort_order no_tags

abbrev pub athena : Dialect
athena = record {
  column_of = athena_column;
  table_of = λ row columns. plain_table "athena" row.cluster row (some "") columns false;
}

abbrev pub druid : String → Dialect
druid cluster = record {
  column_of = λ row. column_metadata row.col_name (some "") row.col_type row.col_sort_order no_tags;
  table_of = λ row columns. plain_table "druid" cluster row (some "") columns false;
}

abbrev pub mssql : String → Dialect
mssql database = record {
  column_of = plain_column;
  table_of = λ row columns.
      table_metadata database row.cluster row.schema row.name row.description columns false
        (text row.schema) none [];
}

-- `unidecode(text) if text else None`
abbrev pub decoded : (String → String) → Option String → Option String
decoded unidecode none = none
decoded unidecode (some s) = if is_empty s then none else some (unidecode s)

abbrev pub snowflake : (String → String) → String → Dialect
snowflake unidecode database = record {
  column_of = λ row.
      column_metadata row.col_name (decoded unidecode row.col_description) row.col_type
        row.col_sort_order no_tags;
  table_of = λ row columns.
      plain_table database row.cluster row (decoded unidecode row.description) columns
        (is_true_text row.is_view);
}

-- ===== src/Tests/Extracting.antt =====
-- The extractors of databuilder/databuilder/extractor on sample rows.
use amundsen_fork.Prelude.{ℕ, String, ◌≡◌, refl, none, some, [], ◌∷◌}
use amundsen_fork.Models.Graph.{int}
use amundsen_fork.Models.Table.{table_metadata}
use amundsen_fork.Extractor.{
  Row, table_of_run, get_extract_iter, extracted, is_one, hive, snowflake,
}
use amundsen_fork.Extractor.Tables.{extracted-tables, all_columns, get_extract_iter-columns}

abbrev row_of : String → String → ℕ → Row
row_of name col_name sort_order = record {
  database = "hive";
  cluster = "gold";
  schema = "core";
  name = name;
  description = some "A table";
  col_name = col_name;
  col_description = none;
  col_type = "bigint";
  col_sort_order = sort_order;
  extras = none;
  is_view = int 0;
  is_partition_col = int 1;
}

extracted-tables_example :
    extracted
      (hive "gold")
      3
      (row_of "orders" "id" 0 ∷ row_of "orders" "ds" 1 ∷ row_of "clients" "id" 0 ∷ [])
      none
    ≡ some (
        (hive "gold").table_of (row_of "orders" "ds" 1) (
          (hive "gold").column_of (row_of "orders" "id" 0)
          ∷ (hive "gold").column_of (row_of "orders" "ds" 1)
          ∷ []))
      ∷ some (
          (hive "gold").table_of
            (row_of "clients" "id" 0)
            ((hive "gold").column_of (row_of "clients" "id" 0) ∷ []))
      ∷ none
      ∷ []
unfolding amundsen_fork.Extractor.same_table
extracted-tables_example =
    extracted-tables (hive "gold")
      ((row_of "orders" "id" 0 ∷ [], row_of "orders" "ds" 1) ∷ ([], row_of "clients" "id" 0) ∷ [])
      ((refl, tt), refl, (tt, tt, tt))

get_extract_iter-columns_example :
    all_columns
      (hive "gold")
      (get_extract_iter (hive "gold") (row_of "orders" "id" 0 ∷ row_of "orders" "ds" 1 ∷ []))
    ≡ (hive "gold").column_of (row_of "orders" "id" 0)
      ∷ (hive "gold").column_of (row_of "orders" "ds" 1)
      ∷ []
unfolding table_metadata
get_extract_iter-columns_example =
    get_extract_iter-columns (hive "gold") (row_of "orders" "id" 0 ∷ row_of "orders" "ds" 1 ∷ [])
      (λ row columns. refl)

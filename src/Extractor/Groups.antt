-- ===== src/Extractor/Groups.antt =====
-- What the metadata extractors share: the grouping of rows by table, and the iteration over tables.
use amundsen_fork.Prelude.{
  ℕ, zero, suc, String, str_eq, Bool, ◌&&◌, Option, none, some, List, [], ◌∷◌, map, if◌then◌else◌,
}
use amundsen_fork.Models.Graph.{Value}
use amundsen_fork.Models.Table.{ColumnMetadata, TableMetadata}

-- A row by the names of its columns; each query has those that its extractor reads. The column of
-- SQL Server's query for the schema is called `schema_name`.
pub record Row : Type 0 where
  pub database : String
  pub cluster : String
  pub schema : String
  pub name : String
  pub description : Option String
  pub col_name : String
  pub col_description : Option String
  pub col_type : String
  pub col_sort_order : ℕ
  pub extras : Option String
  pub is_view : Value
  pub is_partition_col : Value

-- `_get_table_key`
abbrev pub table_key : Row → String × String
table_key row = (row.schema, row.name)

unfoldable pub same_table : Row → Row → Bool
same_table a b = str_eq a.schema b.schema && str_eq a.name b.name

-- The first row of a group, and the others.
abbrev pub Run : Type 0
Run = Row × List Row

unfoldable pub push : Row → List Run → List Run
push row [] = (row, []) ∷ []
push row ((first, rest) ∷ runs) =
    if same_table row first then (row, first ∷ rest) ∷ runs else (row, []) ∷ (first, rest) ∷ runs

-- `itertools.groupby` by the key of the table.
unfoldable pub groupby : List Row → List Run
groupby [] = []
groupby (row ∷ rows) = push row (groupby rows)

-- The column that an extractor makes of a row, and the table that it makes of the last row of a
-- group and of its columns.
pub record Dialect : Type 0 where
  pub column_of : Row → ColumnMetadata
  pub table_of : Row → List ColumnMetadata → TableMetadata

abbrev pub last_row : Row → List Row → Row
last_row first [] = first
last_row first (row ∷ rest) = last_row row rest

module _ (d : Dialect) where
  unfoldable pub table_of_run : Run → TableMetadata
  table_of_run (first, rest) = d.table_of (last_row first rest) (map d.column_of (first ∷ rest))

  -- `_get_extract_iter`
  unfoldable pub get_extract_iter : List Row → List TableMetadata
  get_extract_iter rows = map table_of_run (groupby rows)

  abbrev pub next : List TableMetadata → Option TableMetadata × Option (List TableMetadata)
  next [] = (none, some [])
  next (t ∷ ts) = (some t, some ts)

  -- `extract`, with the iterator, which is made at the first call.
  unfoldable pub extract :
      List Row → Option (List TableMetadata) → Option TableMetadata × Option (List TableMetadata)
  extract rows none = next (get_extract_iter rows)
  extract rows (some extract_iter) = next extract_iter

  -- What so many calls give.
  unfoldable pub extracted :
      ℕ → List Row → Option (List TableMetadata) → List (Option TableMetadata)
  extracted zero rows iter = []
  extracted (suc n) rows iter = let (t, iter') = extract rows iter in t ∷ extracted n rows iter'

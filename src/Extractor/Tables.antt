-- ===== src/Extractor/Tables.antt =====
-- The tables that an extractor gives, call by call.
use mathlib.Core.List.{map-append}
use amundsen_fork.Prelude.{
  ℕ, suc, ◌≡◌, refl, sym, ap, ◌∙◌, none, some, List, [], ◌∷◌, ◌++◌, map, length,
}
use amundsen_fork.Models.Table.{ColumnMetadata, TableMetadata}
use amundsen_fork.Extractor.Groups.{
  Row, Run, groupby, Dialect, last_row, table_of_run, get_extract_iter, extract, extracted,
}
use amundsen_fork.Extractor.Runs.{rows_of, Grouped, groupby-rows_of, rows_of-groupby}

module _ (d : Dialect) where
  extracted-iter :
      (ts : List TableMetadata) (rows : List Row)
      → extracted d (suc (length ts)) rows (some ts) ≡ map (λ t. some t) ts ++ none ∷ []
  unfolding extracted extract
  extracted-iter [] rows = refl
  extracted-iter (t ∷ ts) rows = ap (λ l. some t ∷ l) (extracted-iter ts rows)

  -- The first call makes the iterator.
  extracted-first :
      (n : ℕ) (rows : List Row)
      → extracted d (suc n) rows none ≡ extracted d (suc n) rows (some (get_extract_iter d rows))
  unfolding extracted extract
  extracted-first n rows = refl

  length-map : (runs : List Run) → length (map (table_of_run d) runs) ≡ length runs
  length-map [] = refl
  length-map (r ∷ runs) = ap suc (length-map runs)

  both :
      (runs : List Run)
      → map (λ t. some t) (map (table_of_run d) runs) ≡ map (λ run. some (table_of_run d run)) runs
  both [] = refl
  both (r ∷ runs) = ap (λ l. some (table_of_run d r) ∷ l) (both runs)

  extracted-runs :
      (runs : List Run)
      → Grouped runs
      → extracted d (suc (length runs)) (rows_of runs) none
        ≡ map (λ run. some (table_of_run d run)) runs ++ none ∷ []
  unfolding get_extract_iter
  extracted-runs runs h =
      let tables : get_extract_iter d (rows_of runs) ≡ map (table_of_run d) runs =
        ap (map (table_of_run d)) (groupby-rows_of runs h) in
      extracted-first (length runs) (rows_of runs)
      ∙ ap (λ ts. extracted d (suc (length runs)) (rows_of runs) (some ts)) tables
      ∙ rw (← length-map runs) (extracted-iter (map (table_of_run d) runs) (rows_of runs))
      ∙ ap (λ l. l ++ none ∷ []) (both runs)

  -- The rows of a table: those before the last one, and the last one.
  abbrev pub TableRows : Type 0
  TableRows = List Row × Row

  abbrev pub all_of : TableRows → List Row
  all_of (before, last) = before ++ last ∷ []

  abbrev pub run_of : TableRows → Run
  run_of ([], last) = (last, [])
  run_of (first ∷ before, last) = (first, before ++ last ∷ [])

  last_row-before :
      (first : Row) (before : List Row) (last : Row) → last_row first (before ++ last ∷ []) ≡ last
  last_row-before first [] last = refl
  last_row-before first (row ∷ before) last = last_row-before row before last

  abbrev pub expected_table : TableRows → TableMetadata
  expected_table g = d.table_of g.1 (map d.column_of (all_of g))

  table_of_run-expected : (g : TableRows) → table_of_run d (run_of g) ≡ expected_table g
  unfolding table_of_run
  table_of_run-expected ([], last) = refl
  table_of_run-expected (first ∷ before, last) =
      ap (λ row. d.table_of row (map d.column_of (first ∷ (before ++ last ∷ []))))
        (last_row-before first before last)

  tables-expected :
      (groups : List TableRows)
      → map (λ run. some (table_of_run d run)) (map run_of groups)
        ≡ map (λ g. some (expected_table g)) groups
  tables-expected [] = refl
  tables-expected (g ∷ groups) =
      ap (λ t. some t ∷ map (λ run. some (table_of_run d run)) (map run_of groups))
        (table_of_run-expected g)
      ∙ ap (λ l. some (expected_table g) ∷ l) (tables-expected groups)

  length-groups : (groups : List TableRows) → length (map run_of groups) ≡ length groups
  length-groups [] = refl
  length-groups (g ∷ groups) = ap suc (length-groups groups)

  abbrev pub rows_of_tables : List TableRows → List Row
  rows_of_tables [] = []
  rows_of_tables (g ∷ groups) = all_of g ++ rows_of_tables groups

  rows_of-run_of : (groups : List TableRows) → rows_of (map run_of groups) ≡ rows_of_tables groups
  rows_of-run_of [] = refl
  rows_of-run_of (([], last) ∷ groups) = ap (λ l. last ∷ l) (rows_of-run_of groups)
  rows_of-run_of ((first ∷ before, last) ∷ groups) =
      ap (λ l. (first ∷ (before ++ last ∷ [])) ++ l) (rows_of-run_of groups)

  -- Where the rows of each table are together, the calls give for each of the tables, in order, the
  -- one made of its last row and of the columns made of each of its rows, the last one included, in
  -- order; and then nothing.
  pub extracted-tables :
      (groups : List TableRows)
      → Grouped (map run_of groups)
      → extracted d (suc (length groups)) (rows_of_tables groups) none
        ≡ map (λ g. some (d.table_of g.1 (map d.column_of (g.0 ++ g.1 ∷ [])))) groups ++ none ∷ []
  extracted-tables groups h =
      rw (← length-groups groups, ← rows_of-run_of groups)
        (extracted-runs (map run_of groups) h ∙ ap (λ l. l ++ none ∷ []) (tables-expected groups))

  abbrev pub all_columns : List TableMetadata → List ColumnMetadata
  all_columns [] = []
  all_columns (t ∷ ts) = t.columns ++ all_columns ts

  -- For an extractor whose tables have the columns that it makes: whatever the order of the rows, the
  -- columns of its tables, one after the other, are those of the rows, in order.
  pub get_extract_iter-columns :
      (rows : List Row)
      → ((row : Row) (columns : List ColumnMetadata) → (d.table_of row columns).columns ≡ columns)
      → all_columns (get_extract_iter d rows) ≡ map d.column_of rows
  unfolding get_extract_iter table_of_run
  get_extract_iter-columns rows h = go (groupby rows) ∙ ap (map d.column_of) (rows_of-groupby rows)
    where
      go :
          (runs : List Run)
          → all_columns (map (table_of_run d) runs) ≡ map d.column_of (rows_of runs)
      go [] = refl
      go ((first, rest) ∷ runs) =
          let cs = map d.column_of (first ∷ rest) in
          ap (λ l. l ++ all_columns (map (table_of_run d) runs)) (h (last_row first rest) cs)
          ∙ ap (λ l. cs ++ l) (go runs)
          ∙ sym (map-append d.column_of (first ∷ rest) (rows_of runs))

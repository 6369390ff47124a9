-- ===== src/Mysql/Files.antt =====
-- `FSMySQLCSVLoader`: the files that its writers fill. The classes of `amundsen_rds` give a row its
-- table name, and the columns that `serialize_record` of serializers/mysql_serializer.py keeps.
use amundsen_fork.Prelude.{
  ℕ, String, Bool, ◌&&◌, ◌==◌, List, [], ◌∷◌, ◌++◌, map, if◌then◌else◌, str_eq,
}
use amundsen_fork.Loader.{make_key}
use amundsen_fork.Mysql.Names.{file_suffix}

-- A file, by the name without its directory and extension, and its rows.
pub record RecordFile (R : Type 0) : Type 0 where
  pub name : String
  pub rows : List R

-- `_record_file_mapping`: for each table name and number of a column set, the rows of the file.
abbrev pub Mapping : Type 0 → Type 0
Mapping R = List ((String × ℕ) × List R)

pub record Loader (R : Type 0) : Type 0 where
  pub keys : List (List String)
  pub record_file_mapping : Mapping R

abbrev pub same_file : String × ℕ → String × ℕ → Bool
same_file (a, n) (b, m) = str_eq a b && n == m

module _ {R : Type 0} where
  -- `_get_writer(...).writerow(record_dict)`
  unfoldable pub write_record : String × ℕ → R → Mapping R → Mapping R
  write_record key record_row [] = (key, record_row ∷ []) ∷ []
  write_record key record_row ((k, rows) ∷ mapping) =
      let more = write_record key record_row mapping in
      if same_file k key then (k, rows ++ record_row ∷ []) ∷ mapping else (k, rows) ∷ more

  -- The files that are on the disk after the loader is closed.
  unfoldable pub record_files : Mapping R → List (RecordFile R)
  record_files mapping = map (λ f. record { name = file_suffix f.0; rows = f.1 }) mapping

module _ {R : Type 0} (tablename : R → String) (columns : R → List String) where
  -- `load` of what yields these rows, one after the other.
  unfoldable pub load : List R → Loader R → Loader R
  load [] l = l
  load (r ∷ rs) l =
      let (number, keys) = make_key (columns r) l.keys in
      load rs (record {
        keys = keys;
        record_file_mapping = write_record (tablename r, number) r l.record_file_mapping;
      })

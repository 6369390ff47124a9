-- ===== src/Mysql/Publish.antt =====
-- `MySQLCSVPublisher`: `_sort_record_files`, and `publish_impl` with what it calls.
use amundsen_fork.Prelude.{
  ℕ, suc, ◌+◌, ◌%◌, String, str_eq, ◌&&◌, ◌==◌, ltb, leb, List, [], ◌∷◌, map, Option, none, some,
  if◌then◌else◌, contains, string_eq,
}
use amundsen_fork.Prelude.Effects.{Result, return, raise, Action, pure, throw, finally, ◌>>=◌, ◌>>◌}
use amundsen_fork.Mysql.Names.{get_table_name_from_file}
use amundsen_fork.Mysql.Files.{RecordFile}

pub data Failure (E : Type 0) : Type 0 where
  value_error : String → Failure E
  no_model : String → Failure E
  zero_division : Failure E
  failed : E → Failure E

-- `list.index`
unfoldable pub index_of_name : String → List String → Option ℕ
index_of_name name [] = none
index_of_name name (n ∷ names) =
    let rest : Option ℕ = elim (index_of_name name names) [ none ↦ none | some i ↦ some (suc i) ] in
    if str_eq n name then some 0 else rest

module _ {E : Type 0} (sorted_table_names : List String) where
  unfoldable pub index_or_error : String → Option ℕ → Result (Failure E) ℕ
  index_or_error name none = raise (value_error name)
  index_or_error name (some i) = return i

  unfoldable pub index_of_result : Result String String → Result (Failure E) ℕ
  index_of_result (raise e) = raise (value_error e)
  index_of_result (return table_name) =
      index_or_error table_name (index_of_name table_name sorted_table_names)

  -- The key that a file is sorted by.
  unfoldable pub sort_key : String → Result (Failure E) ℕ
  sort_key file = index_of_result (get_table_name_from_file file)

module _ {A : Type 0} where
  -- `sorted` by a key: an item goes before the first one of a greater key, the later ones first.
  unfoldable pub insert_by : ℕ → A → List (ℕ × A) → List (ℕ × A)
  insert_by k a [] = (k, a) ∷ []
  insert_by k a ((j, b) ∷ rest) =
      let more = insert_by k a rest in if leb k j then (k, a) ∷ (j, b) ∷ rest else (j, b) ∷ more

  unfoldable pub insertion_sort : List (ℕ × A) → List (ℕ × A)
  insertion_sort [] = []
  insertion_sort ((k, a) ∷ rest) = insert_by k a (insertion_sort rest)

module _ {R E : Type 0} (sorted_table_names : List String) where
  unfoldable pub add_key :
      RecordFile R
      → Result (Failure E) ℕ
      → Result (Failure E) (List (ℕ × RecordFile R))
      → Result (Failure E) (List (ℕ × RecordFile R))
  add_key file (raise e) rest = raise e
  add_key file (return i) (raise e) = raise e
  add_key file (return i) (return rest) = return ((i, file) ∷ rest)

  unfoldable pub with_keys : List (RecordFile R) → Result (Failure E) (List (ℕ × RecordFile R))
  with_keys [] = return []
  with_keys (file ∷ files) = add_key file (sort_key sorted_table_names file.name) (with_keys files)

  unfoldable pub sorted_files :
      Result (Failure E) (List (ℕ × RecordFile R)) → Result (Failure E) (List (RecordFile R))
  sorted_files (raise e) = raise e
  sorted_files (return keyed) = return (map (λ f. f.1) (insertion_sort keyed))

  unfoldable pub sort_record_files : List (RecordFile R) → Result (Failure E) (List (RecordFile R))
  sort_record_files files = sorted_files (with_keys files)

-- The calls of a session of SQLAlchemy. A merge takes a row with its published tag and the time.
pub record Session (W R E : Type 0) : Type 0 where
  pub merge : R → String → ℕ → Action W (Failure E) (Unit {0})
  pub commit : Action W (Failure E) (Unit {0})
  pub rollback : Action W (Failure E) (Unit {0})
  pub close : Action W (Failure E) (Unit {0})
  -- `int(time.time() * 1000)`
  pub time_ms : W → ℕ

pub record MySqlCsvPublisher : Type 0 where
  pub models : List String
  pub publish_tag : String
  pub transaction_size : ℕ
  pub progress_report_frequency : ℕ

module _ {W R E : Type 0} (s : Session W R E) (p : MySqlCsvPublisher) where
  -- `self._count % self._progress_report_frequency`, for the message of progress.
  unfoldable pub report_progress : ℕ → Action W (Failure E) ℕ
  report_progress count =
      if ltb 1 count && p.progress_report_frequency == 0 then throw zero_division else pure count

  -- `self._count % self._transaction_size` decides on the commit.
  unfoldable pub commit_transaction : ℕ → Action W (Failure E) ℕ
  commit_transaction count =
      if p.transaction_size == 0
      then throw zero_division
      else if count % p.transaction_size == 0
      then s.commit >> report_progress count
      else report_progress count

  -- `_execute`, which counts, and gives the new count.
  unfoldable pub execute : ℕ → Action W (Failure E) ℕ
  execute count =
      let counted = count + 1 in
      if ltb 1 counted then commit_transaction counted else report_progress counted

  unfoldable pub publish_rows : List R → ℕ → Action W (Failure E) ℕ
  publish_rows [] count = pure count
  publish_rows (record_row ∷ rows) count =
      (λ w. s.merge record_row p.publish_tag (s.time_ms w) w)
      >> (execute count >>= λ counted. publish_rows rows counted)

  -- `_publish` of a file whose table is known.
  unfoldable pub publish_table : String → List R → ℕ → Action W (Failure E) ℕ
  publish_table table_name rows count =
      if contains table_name p.models
      then (publish_rows rows count >>= λ counted. s.commit >> pure counted)
      else throw (no_model table_name)

  unfoldable pub publish_file : Result String String → List R → ℕ → Action W (Failure E) ℕ
  publish_file (raise e) rows count = throw (value_error e)
  publish_file (return table_name) rows count = publish_table table_name rows count

  unfoldable pub publish_files : List (RecordFile R) → ℕ → Action W (Failure E) ℕ
  publish_files [] count = pure count
  publish_files (file ∷ files) count =
      publish_file (get_table_name_from_file file.name) file.rows count >>= λ counted.
      publish_files files counted

  -- `except Exception`: roll back, and raise again.
  unfoldable pub rolled_back : Result (Failure E) ℕ → Action W (Failure E) ℕ
  rolled_back (return count) w = (return count, w)
  rolled_back (raise e) w = (s.rollback >> throw e) w

  unfoldable pub publish_or_roll_back : List (RecordFile R) → Action W (Failure E) ℕ
  publish_or_roll_back files w = let out = publish_files files 0 w in rolled_back out.0 out.1

  unfoldable pub publish_impl : List (RecordFile R) → Action W (Failure E) ℕ
  publish_impl sorted_record_files = finally (publish_or_roll_back sorted_record_files) s.close

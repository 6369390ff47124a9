-- ===== src/Tests/Storing.antt =====
-- The rows of sample tables on their way into a store that accepts every call.
use mathlib.Core.List.Permᴰ
use mathlib.Core.List.{mem-cons, not-mem-nil}
use mathlib.Core.Logic.Or
use native.Mathlib.Bridge.{le_prop}
use amundsen_fork.Prelude.{
  ℕ, ◌<◌, String, ◌≡◌, refl, sym, List, [], ◌∷◌, ◌++◌, Mem, All, some, arith,
}
use amundsen_fork.Prelude.Effects.{return, raise_return}
use amundsen_fork.Models.Rds.{RdsModel, Referred, Key, own, parents}
use amundsen_fork.Models.Rds
use amundsen_fork.Models.Table.{load_records}
use amundsen_fork.Models.Table.Ordered.{load_records-ParentsFirst}
use amundsen_fork.Mysql.Files.{Mapping, record_files, load}
use amundsen_fork.Mysql.Publish.{index_of_name, sort_record_files, Session, MySqlCsvPublisher}
use amundsen_fork.Mysql.Merged.{Log}
use amundsen_fork.Tests.Records.{orders, clients, no_clash}
use amundsen_fork.Mysql.Dependencies.{PublishedInOrder, load-PublishedInOrder}

abbrev table_of : RdsModel → String
table_of (Rds.database _ _) = "database_metadata"
table_of (Rds.cluster _ _ _) = "cluster_metadata"
table_of (Rds.schema _ _ _) = "schema_metadata"
table_of (Rds.table _ _ _ _) = "table_metadata"
table_of (Rds.table_description _ _ _ _) = "table_description"
table_of (Rds.table_programmatic_description _ _ _ _) = "table_programmatic_description"
table_of (Rds.tag _ _) = "tag"
table_of (Rds.table_tag _ _) = "table_tag"
table_of (Rds.table_column _ _ _ _ _) = "column_metadata"
table_of (Rds.column_description _ _ _ _) = "column_description"
table_of (Rds.badge _ _) = "badge"
table_of (Rds.column_badge _ _) = "column_badge"

abbrev table_names : List String
table_names =
    "database_metadata" ∷ "tag" ∷ "badge" ∷ "cluster_metadata" ∷ "schema_metadata"
    ∷ "table_metadata" ∷ "table_description" ∷ "table_programmatic_description" ∷ "table_tag"
    ∷ "column_metadata" ∷ "column_description" ∷ "column_badge" ∷ []

abbrev place : RdsModel → ℕ
place (Rds.database _ _) = 0
place (Rds.tag _ _) = 1
place (Rds.badge _ _) = 2
place (Rds.cluster _ _ _) = 3
place (Rds.schema _ _ _) = 4
place (Rds.table _ _ _ _) = 5
place (Rds.table_description _ _ _ _) = 6
place (Rds.table_programmatic_description _ _ _ _) = 7
place (Rds.table_tag _ _) = 8
place (Rds.table_column _ _ _ _ _) = 9
place (Rds.column_description _ _ _ _) = 10
place (Rds.column_badge _ _) = 11

abbrev key_place : Referred → ℕ
key_place Rds.databases = 0
key_place Rds.tags = 1
key_place Rds.badges = 2
key_place Rds.clusters = 3
key_place Rds.schemas = 4
key_place Rds.tables = 5
key_place Rds.columns = 9

indexed : (r : RdsModel) → index_of_name (table_of r) table_names ≡ some (place r)
unfolding index_of_name
indexed (Rds.database _ _) = refl
indexed (Rds.tag _ _) = refl
indexed (Rds.badge _ _) = refl
indexed (Rds.cluster _ _ _) = refl
indexed (Rds.schema _ _ _) = refl
indexed (Rds.table _ _ _ _) = refl
indexed (Rds.table_description _ _ _ _) = refl
indexed (Rds.table_programmatic_description _ _ _ _) = refl
indexed (Rds.table_tag _ _) = refl
indexed (Rds.table_column _ _ _ _ _) = refl
indexed (Rds.column_description _ _ _ _) = refl
indexed (Rds.column_badge _ _) = refl

own_places : (r : RdsModel) → All (λ (k : Key). key_place k.0 ≡ place r) (own r)
unfolding own
own_places (Rds.database _ _) = (refl, tt)
own_places (Rds.tag _ _) = (refl, tt)
own_places (Rds.badge _ _) = (refl, tt)
own_places (Rds.cluster _ _ _) = (refl, tt)
own_places (Rds.schema _ _ _) = (refl, tt)
own_places (Rds.table _ _ _ _) = (refl, tt)
own_places (Rds.table_description _ _ _ _) = tt
own_places (Rds.table_programmatic_description _ _ _ _) = tt
own_places (Rds.table_tag _ _) = tt
own_places (Rds.table_column _ _ _ _ _) = (refl, tt)
own_places (Rds.column_description _ _ _ _) = tt
own_places (Rds.column_badge _ _) = tt

parent_places : (r : RdsModel) → All (λ (k : Key). key_place k.0 < place r) (parents r)
unfolding parents
parent_places (Rds.database _ _) = tt
parent_places (Rds.tag _ _) = tt
parent_places (Rds.badge _ _) = tt
parent_places (Rds.cluster _ _ _) = (omega arith, tt)
parent_places (Rds.schema _ _ _) = (omega arith, tt)
parent_places (Rds.table _ _ _ _) = (omega arith, tt)
parent_places (Rds.table_description _ _ _ _) = (omega arith, tt)
parent_places (Rds.table_programmatic_description _ _ _ _) = (omega arith, tt)
parent_places (Rds.table_tag _ _) = (omega arith, (omega arith, tt))
parent_places (Rds.table_column _ _ _ _ _) = (omega arith, tt)
parent_places (Rds.column_description _ _ _ _) = (omega arith, tt)
parent_places (Rds.column_badge _ _) = (omega arith, (omega arith, tt))

own_at :
    (n : ℕ) (ks : List Key) (k : Key)
    → All (λ (j : Key). key_place j.0 ≡ n) ks
    → Mem k ks
    → key_place k.0 ≡ n
own_at n [] k h m = absurd (not-mem-nil m)
own_at n (j ∷ ks) k h m = Or.elim (hlevel) (mem-cons.0 m) (λ p. rw p h.0) (λ q. own_at n ks k h.1 q)

parent_at :
    (n : ℕ) (ks : List Key) (k : Key)
    → All (λ (j : Key). key_place j.0 < n) ks
    → Mem k ks
    → key_place k.0 < n
parent_at n [] k h m = absurd (not-mem-nil m)
parent_at n (j ∷ ks) k h m =
    Or.elim (le_prop) (mem-cons.0 m) (λ p. rw p h.0) (λ q. parent_at n ks k h.1 q)

earlier :
    (r parent : RdsModel) (k : Key)
    → Mem k (parents r)
    → Mem k (own parent)
    → place parent < place r
earlier r parent k m n = omega (
  arith,
  parent_at (place r) (parents r) k (parent_places r) m,
  own_at (place parent) (own parent) k (own_places parent) n,
)

abbrev no_columns : RdsModel → List String
no_columns r = []

abbrev accepting : Session (List RdsModel) RdsModel String
accepting = record {
  merge = λ r tag ms w. (return tt, w ++ r ∷ []);
  commit = λ w. (return tt, w);
  rollback = λ w. (return tt, w);
  close = λ w. (return tt, w);
  time_ms = λ w. 7;
}

abbrev kept_log : Log accepting
kept_log = record {
  merged = λ w. w;
  merge_merges = λ r tag ms w h. refl;
  merge_raises = λ r tag ms e w h. absurd (raise_return (sym h));
  commit_keeps = λ w. refl;
  rollback_keeps = λ w. refl;
  close_keeps = λ w. refl;
}

abbrev publisher : MySqlCsvPublisher
publisher = record {
  models = table_names;
  publish_tag = "today";
  transaction_size = 2;
  progress_report_frequency = 500;
}

abbrev sample_rows : List RdsModel
sample_rows = load_records (orders ∷ clients ∷ []) []

abbrev sample_files : Mapping RdsModel
sample_files =
    (load table_of no_columns sample_rows
      (record { keys = []; record_file_mapping = [] })).record_file_mapping

load-PublishedInOrder_example :
    PublishedInOrder table_of no_columns table_names place accepting publisher kept_log sample_rows
      []
      (sort_record_files table_names (record_files sample_files))
load-PublishedInOrder_example =
    load-PublishedInOrder table_of no_columns table_names place accepting publisher kept_log
      sample_rows sample_files [] (Permᴰ.refl sample_files) indexed earlier
      (load_records-ParentsFirst (orders ∷ clients ∷ []) no_clash) refl

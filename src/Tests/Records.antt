-- ===== src/Tests/Records.antt =====
-- The rows of sample tables.
use amundsen_fork.Prelude.{String, str_eq, str_eq_iff, ◌≡◌, false, none, some, [], ◌∷◌, refl, arith}
use amundsen_fork.Models.Table.{
  TableMetadata, no_tags, text, table_metadata, column_metadata, get_database_key, get_cluster_key,
  get_schema_key, load_records,
}
use amundsen_fork.Models.Rds.Order.{ParentsFirst}
use amundsen_fork.Models.Table.Ordered.{IsApart, NoClash, load_records-ParentsFirst}

abbrev pub orders : TableMetadata
orders =
    table_metadata "hive" "gold" "core" "orders" (some "All orders")
      (column_metadata "id" none "bigint" 1 no_tags ∷ []) false (text "Tier1") none []

abbrev pub clients : TableMetadata
clients = table_metadata "hive" "gold" "sales" "clients" none [] false no_tags none []

differ : (a b : String) → str_eq a b ≡ false → ¬ (a ≡ b)
differ a b h p = ground (arith, (str_eq_iff a b).1 p)

apart :
    (t u : TableMetadata)
    → str_eq (get_database_key t) (get_cluster_key u) ≡ false
    → str_eq (get_database_key t) (get_schema_key u) ≡ false
    → str_eq (get_cluster_key t) (get_schema_key u) ≡ false
    → IsApart t u
apart t u a b c = (differ _ _ a, differ _ _ b, differ _ _ c)

pub no_clash : NoClash (orders ∷ clients ∷ [])
unfolding get_database_key get_cluster_key get_schema_key table_metadata
no_clash = (
  (apart orders orders refl refl refl, (apart orders clients refl refl refl, tt)),
  ((apart clients orders refl refl refl, (apart clients clients refl refl refl, tt)), tt),
)

load_records-ParentsFirst_example : ParentsFirst [] (load_records (orders ∷ clients ∷ []) [])
load_records-ParentsFirst_example = load_records-ParentsFirst (orders ∷ clients ∷ []) no_clash

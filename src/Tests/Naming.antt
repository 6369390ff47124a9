-- ===== src/Tests/Naming.antt =====
-- The keys of common/amundsen_common/utils/atlas.py on sample names.
use amundsen_fork.Prelude.{◌≡◌, refl, none, some}
use amundsen_fork.Prelude.Effects.{return}
use amundsen_fork.Common.{qualified_name, amundsen_key, entity_type}
use amundsen_fork.Common.Matching.{avoids}
use amundsen_fork.Common.Keys.{qualified_name-amundsen_key}

qualified_name-amundsen_key_example :
    (amundsen_key (record { raw_identifier = "core.orders@gold.eu"; database = some "hive_table" })
      ≡ return "hive_table://gold.eu.core/orders")
    × (qualified_name
          (record { raw_identifier = "hive_table://gold.eu.core/orders"; database = none })
        ≡ return "core.orders@gold.eu")
    × (entity_type (record { raw_identifier = "core.orders@gold.eu"; database = some "hive_table" })
        ≡ return "hive_table")
    × (entity_type (record { raw_identifier = "hive_table://gold.eu.core/orders"; database = none })
        ≡ return "hive_table")
unfolding avoids
qualified_name-amundsen_key_example =
    qualified_name-amundsen_key "core" "orders" "gold.eu" none (record {
      schema_dot = refl;
      schema_slash = refl;
      schema_at = refl;
      table_dot = refl;
      table_at = refl;
      cluster_at = refl;
    })

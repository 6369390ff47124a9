-- ===== src/Models/Rds.antt =====
-- The rows of the relational store, as the constructors of `amundsen_rds.models` that the models of
-- databuilder/databuilder/models call, with the columns that they set.
pub mod Order
use amundsen_fork.Prelude.{ℕ, String, Bool, List, [], ◌∷◌}

pub data RdsModel : Type 0 where
  database : (rk name : String) → RdsModel
  cluster : (rk name database_rk : String) → RdsModel
  schema : (rk name cluster_rk : String) → RdsModel
  table : (rk name : String) (is_view : Bool) (schema_rk : String) → RdsModel
  table_description : (rk description_source description table_rk : String) → RdsModel
  table_programmatic_description : (rk description_source description table_rk : String) → RdsModel
  tag : (rk tag_type : String) → RdsModel
  table_tag : (table_rk tag_rk : String) → RdsModel
  table_column : (rk name type : String) (sort_order : ℕ) (table_rk : String) → RdsModel
  column_description : (rk description_source description column_rk : String) → RdsModel
  badge : (rk category : String) → RdsModel
  column_badge : (column_rk badge_rk : String) → RdsModel

-- The tables whose keys other rows refer to.
pub data Referred : Type 0 where
  databases clusters schemas tables tags columns badges : Referred

abbrev pub Key : Type 0
Key = Referred × String

-- The key that a row adds for others.
unfoldable pub own : RdsModel → List Key
own (database rk _) = (databases, rk) ∷ []
own (cluster rk _ _) = (clusters, rk) ∷ []
own (schema rk _ _) = (schemas, rk) ∷ []
own (table rk _ _ _) = (tables, rk) ∷ []
own (tag rk _) = (tags, rk) ∷ []
own (table_column rk _ _ _ _) = (columns, rk) ∷ []
own (badge rk _) = (badges, rk) ∷ []
own _ = []

-- The keys that a row refers to.
unfoldable pub parents : RdsModel → List Key
parents (cluster _ _ d) = (databases, d) ∷ []
parents (schema _ _ c) = (clusters, c) ∷ []
parents (table _ _ _ s) = (schemas, s) ∷ []
parents (table_description _ _ _ t) = (tables, t) ∷ []
parents (table_programmatic_description _ _ _ t) = (tables, t) ∷ []
parents (table_tag t g) = (tables, t) ∷ (tags, g) ∷ []
parents (table_column _ _ _ _ t) = (tables, t) ∷ []
parents (column_description _ _ _ c) = (columns, c) ∷ []
parents (column_badge c b) = (columns, c) ∷ (badges, b) ∷ []
parents _ = []

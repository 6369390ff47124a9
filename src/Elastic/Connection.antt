-- ===== src/Elastic/Connection.antt =====
-- The calls that the code makes of the Elasticsearch client.
use amundsen_fork.Prelude.{String, Bool, Option, List}
use amundsen_fork.Prelude.Effects.{Action}
use amundsen_fork.Publisher.{Record}

-- An entry of the `actions` of `update_aliases`.
pub data AliasAction : Type 0 where
  add : (index alias : String) → AliasAction
  remove_index : String → AliasAction

pub record Client (W E : Type 0) : Type 0 where
  pub create : String → Action W E (Unit {0})
  -- Each document with the index of its index row. The response says whether there were errors.
  pub bulk : List (String × Record) → Action W E Bool
  -- The indices of an alias; `none` is a `NotFoundError`.
  pub get_alias : String → Action W E (Option (List String))
  pub update_aliases : List AliasAction → Action W E (Unit {0})

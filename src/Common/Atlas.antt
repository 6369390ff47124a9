-- ===== src/Common/Atlas.antt =====
-- `AtlasKey`, `AtlasTableKey` and `AtlasColumnKey` of utils/atlas.py.
use amundsen_fork.Prelude.{
  String, ◌<>◌, str_eq, Bool, Option, none, some, List, [], ◌∷◌, is_some, if◌then◌else◌,
}
use amundsen_fork.Prelude.Effects.{Result, return, raise}
use amundsen_fork.Common.Patterns.{Token, lit, lazy, greedy, match_tokens}

pub record AtlasKey : Type 0 where
  pub raw_identifier : String
  pub database : Option String

-- `ValueError`
pub data KeyError : Type 0 where
  invalid_key : KeyError

-- How an f-string shows the optional database.
abbrev pub shown : Option String → String
shown none = "None"
shown (some s) = s

-- `^(?P<schema>.*?)\.(?P<table>.*)@(?P<cluster>.*?)$`
abbrev pub table_qualified_name_regex : List Token
table_qualified_name_regex = lazy ∷ lit "." ∷ greedy ∷ lit "@" ∷ lazy ∷ []

-- `^(?P<database>.*?)://(?P<cluster>.*)\.(?P<schema>.*?)\/(?P<table>.*?)$`
abbrev pub table_key_regex : List Token
table_key_regex = lazy ∷ lit ":" ∷ lit "/" ∷ lit "/" ∷ greedy ∷ lit "." ∷ lazy ∷ lit "/" ∷ lazy ∷ []

-- `is_qualified_name` and `is_amundsen_key` of a table key.
abbrev pub is_qualified_name : AtlasKey → Bool
is_qualified_name k = is_some (match_tokens table_qualified_name_regex k.raw_identifier)

abbrev pub is_amundsen_key : AtlasKey → Bool
is_amundsen_key k = is_some (match_tokens table_key_regex k.raw_identifier)

-- `native_atlas_entity_types`
abbrev pub is_native : String → Bool
is_native database = str_eq database "hive_table"

-- The groups of the qualified name, and of the key of Amundsen; other numbers of groups do not match.
abbrev pub name_of : String → List String → Result KeyError String
name_of raw (database ∷ cluster ∷ schema ∷ table ∷ []) =
    if is_native database then return (schema <> "." <> table <> "@" <> cluster) else return raw
name_of raw _ = raise invalid_key

abbrev pub key_of : Option String → List String → Result KeyError String
key_of database (schema ∷ table ∷ cluster ∷ []) =
    return (shown database <> "://" <> cluster <> "." <> schema <> "/" <> table)
key_of database _ = raise invalid_key

-- `AtlasTableKey.qualified_name`
unfoldable pub qualified_name : AtlasKey → Result KeyError String
qualified_name k = elim (match_tokens table_qualified_name_regex k.raw_identifier) [
  | some _ ↦ return k.raw_identifier
  | none ↦ elim (match_tokens table_key_regex k.raw_identifier) [
    | some groups ↦ name_of k.raw_identifier groups
    | none ↦ raise invalid_key
  ]
]

-- `AtlasTableKey.amundsen_key`
unfoldable pub amundsen_key : AtlasKey → Result KeyError String
amundsen_key k = elim (match_tokens table_qualified_name_regex k.raw_identifier) [
  | some groups ↦ key_of k.database groups
  | none ↦ if is_amundsen_key k then return k.raw_identifier else raise invalid_key
]

abbrev pub type_of : List String → Result KeyError String
type_of [] = raise invalid_key
type_of (database ∷ _) = return (if is_native database then database else "Table")

-- `entity_type`, with `self._database or ''`.
unfoldable pub entity_type : AtlasKey → Result KeyError String
entity_type k = elim (match_tokens table_qualified_name_regex k.raw_identifier) [
  | some _ ↦ return (elim k.database [ none ↦ "" | some s ↦ s ])
  | none ↦ elim (match_tokens table_key_regex k.raw_identifier) [
    | some groups ↦ type_of groups
    | none ↦ raise invalid_key
  ]
]

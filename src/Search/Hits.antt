-- ===== src/Search/Hits.antt =====
-- What Elasticsearch holds and answers: documents, and the responses of elasticsearch_dsl to
-- searches. `J` is the type of the JSON values that are neither null, text, a list nor an object.
use amundsen_fork.Prelude.{ℕ, String, Bool, List}
use amundsen_fork.Prelude.Effects.{Action}
use amundsen_fork.RestApi.{Dict}

pub data Item (J : Type 0) : Type 0 where
  null : Item J
  text : String → Item J
  other : J → Item J

-- A field of a document, as `AttrDict` gives it.
pub data Value (J : Type 0) : Type 0 where
  item : Item J → Value J
  attr_list : List (Item J) → Value J
  attr_dict : Dict (Item J) → Value J

pub record Hit (J : Type 0) : Type 0 where
  pub id : String
  pub score : Item J
  pub source : Dict (Value J)

pub record Response (J : Type 0) : Type 0 where
  pub success : Bool
  pub failures : String
  pub hits : List (Hit J)
  pub total : ℕ

-- `Search(index=index).query(query)[start:stop]`
pub record IndexSearch (Q : Type 0) : Type 0 where
  pub index : String
  pub query : Q
  pub start : ℕ
  pub stop : ℕ

-- What a field is changed to: a value, or a list of values.
pub data NewValue (J : Type 0) : Type 0 where
  single : Value J → NewValue J
  listed : List (Value J) → NewValue J

-- The calls of the client: a multi-search of some searches, and the update of one field of the
-- document of an index and an id.
pub record Elasticsearch (W Q J E : Type 0) : Type 0 where
  pub execute : List (IndexSearch Q) → Action W E (List (Response J))
  pub update : String → String → String → NewValue J → Action W E (Unit {0})

-- ===== src/Models/Graph.antt =====
-- models/graph_node.py, models/graph_relationship.py and the checks of models/graph_serializable.py.
pub mod Linked
use amundsen_fork.Prelude.{ℕ, String, Bool, Option, none, some, List, if◌then◌else◌, not}
use amundsen_fork.Prelude.Effects.{Result, return, raise}
use amundsen_fork.Prelude.Ascii.{is_upper, is_title}

-- The values that the models put in attributes.
pub data Value : Type 0 where
  str : String → Value
  int : ℕ → Value
  bool : Bool → Value
  null : Value

-- The tuple's key and label may be `None`, which `_validate_node` looks for.
pub record GraphNode : Type 0 where
  pub key : Option String
  pub label : Option String
  pub attributes : List (String × Value)

pub record GraphRelationship : Type 0 where
  pub start_label : String
  pub end_label : String
  pub start_key : String
  pub end_key : String
  pub type : String
  pub reverse_type : String
  pub attributes : List (String × Value)

-- `RuntimeError`, one for each message.
pub data SerializeError : Type 0 where
  missing_id missing_label : SerializeError
  type_not_upper label_not_title : String → SerializeError

module _ {A B : Type 0} where
  infixl 5 ◌>>=◌ ◌>>◌
  abbrev pub ◌>>=◌ :
      Result SerializeError A → (A → Result SerializeError B) → Result SerializeError B
  return a >>= f = f a
  raise e >>= f = raise e

  abbrev pub ◌>>◌ : Result SerializeError A → Result SerializeError B → Result SerializeError B
  m >> n = m >>= λ _. n

unfoldable pub validate_label_value : String → Result SerializeError (Unit {0})
validate_label_value value =
    if not (is_title value) then raise (label_not_title value) else return tt

unfoldable pub validate_relation_type_value : String → Result SerializeError (Unit {0})
validate_relation_type_value value =
    if not (is_upper value) then raise (type_not_upper value) else return tt

unfoldable pub validate_node : GraphNode → Result SerializeError (Unit {0})
validate_node node = elim node.key [
  | none ↦ raise missing_id
  | some _ ↦ elim node.label [
    | none ↦ raise missing_label
    | some node_label ↦ validate_label_value node_label
  ]
]

unfoldable pub validate_relation : GraphRelationship → Result SerializeError (Unit {0})
validate_relation relation = do
  validate_label_value relation.start_label
  validate_label_value relation.end_label
  validate_relation_type_value relation.type
  validate_relation_type_value relation.reverse_type

-- `next_node`, on what `create_next_node` gives.
unfoldable pub next_node : Option GraphNode → Result SerializeError (Option GraphNode)
next_node none = return none
next_node (some node) = do validate_node node; return (some node)

-- `next_relation`, on what `create_next_relation` gives.
unfoldable pub next_relation :
    Option GraphRelationship → Result SerializeError (Option GraphRelationship)
next_relation none = return none
next_relation (some relation) = do validate_relation relation; return (some relation)

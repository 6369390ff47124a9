-- ===== src/Publisher/Statements.antt =====
-- The Cypher statements of `Neo4jCsvPublisher`, with what their templates are given.
use Prim.Native.String.{[], ◌∷◌}
use amundsen_fork.Prelude.{
  suc, String, ◌<>◌, str_eq, Bool, true, false, not, Option, none, some, List, ◌++◌, if◌then◌else◌,
  contains, string_eq,
}
use amundsen_fork.Prelude.Ascii.{}
use amundsen_fork.Models.Graph.{Value, str, int, bool, null}
use amundsen_fork.Mysql.Names.{decimal}

-- One row of a CSV file, by its header.
abbrev pub Record : Type 0
Record = List (String × Value)

-- `record_dict.get(key)`
unfoldable pub value_of : String → Record → Option Value
value_of key List.[] = none
value_of key (List.◌∷◌ (k, v) rest) =
    let other = value_of key rest in if str_eq k key then some v else other

-- The first of the columns that the record lacks: indexing by it raises a `KeyError`.
unfoldable pub missing : List String → Record → Option String
missing List.[] entries = none
missing (List.◌∷◌ key keys) entries =
    let others = missing keys entries in
    elim (value_of key entries) [ none ↦ some key | some _ ↦ others ]

-- How a template renders a value.
unfoldable pub rendered : Value → String
rendered (str v) = v
rendered (int n) = decimal (suc n) n
rendered (bool true) = "True"
rendered (bool false) = "False"
rendered null = "None"

-- `node_record[key]` in a template, for a column that the record has.
unfoldable pub field : String → Record → String
field key entries = elim (value_of key entries) [ none ↦ "" | some v ↦ rendered v ]

-- `record_dict[key] in names`, for a column that the record has and names that are texts.
unfoldable pub is_among : String → Record → List String → Bool
is_among key entries names = elim (value_of key entries) [
  | some (str v) ↦ contains v names
  | some (int _) ↦ false
  | some (bool _) ↦ false
  | some null ↦ false
  | none ↦ false
]

-- `params[key] = value`
unfoldable pub put : String → Value → Record → Record
put key value List.[] = List.◌∷◌ (key, value) List.[]
put key value (List.◌∷◌ (k, v) rest) =
    let more = put key value rest in
    if str_eq k key then List.◌∷◌ (k, value) rest else List.◌∷◌ (k, v) more

-- The header without the suffix `:UNQUOTED`, if it ends with it.
unfoldable pub unquoted : String → String
unquoted [] = []
unquoted (c ∷ s) = let rest = unquoted s in if str_eq (c ∷ s) ":UNQUOTED" then [] else c ∷ rest

unfoldable pub props_param_into : Record → Record → Record
props_param_into params List.[] = params
props_param_into params (List.◌∷◌ (k, v) rest) = props_param_into (put (unquoted k) v params) rest

unfoldable pub create_props_param : Record → Record
unfolding props_param_into
create_props_param record_dict = props_param_into List.[] record_dict

abbrev pub node_required_keys : List String
node_required_keys = List.◌∷◌ "LABEL" (List.◌∷◌ "KEY" List.[])

abbrev pub relation_required_keys : List String
relation_required_keys = List.◌∷◌ "START_LABEL" (
    List.◌∷◌ "START_KEY" (
      List.◌∷◌ "END_LABEL"
        (List.◌∷◌ "END_KEY" (List.◌∷◌ "TYPE" (List.◌∷◌ "REVERSE_TYPE" List.[])))))

-- The columns that the code indexes: for a node, for the preprocessing of a relation, and for the
-- statement of a relation, in the order of its evaluation.
abbrev pub node_columns : List String
node_columns = List.◌∷◌ "LABEL" List.[]

abbrev pub preprocess_columns : List String
preprocess_columns = List.◌∷◌ "START_LABEL" (
    List.◌∷◌ "END_LABEL" (
      List.◌∷◌ "START_KEY"
        (List.◌∷◌ "END_KEY" (List.◌∷◌ "TYPE" (List.◌∷◌ "REVERSE_TYPE" List.[])))))

abbrev pub relation_columns : List String
relation_columns =
    List.◌∷◌ "START_LABEL"
      (List.◌∷◌ "END_LABEL" (List.◌∷◌ "TYPE" (List.◌∷◌ "REVERSE_TYPE" List.[])))

unfoldable pub join : String → List String → String
join separator List.[] = ""
join separator (List.◌∷◌ s List.[]) = s
join separator (List.◌∷◌ s rest) = s <> separator <> join separator rest

-- What the statements depend on of the publisher's configuration.
pub record Options : Type 0 where
  pub create_only_nodes : List String
  pub publish_tag : String
  pub add_publisher_metadata : Bool

pub data Statement : Type 0 where
  merge_node : (label prop_body : String) (update : Bool) → Statement
  merge_relation :
      (start_label end_label type reverse_type : String) (update_prop_body prop_body : String)
      → Statement
  preprocess : String → Statement

record_props : List String → String → Record → List String
record_props excludes identifier List.[] = List.[]
record_props excludes identifier (List.◌∷◌ (k, v) rest) =
    let more = record_props excludes identifier rest in
    if contains k excludes
    then more
    else List.◌∷◌ (identifier <> "." <> unquoted k <> " = $" <> unquoted k) more

module _ (o : Options) where
  publisher_props : String → List String
  publisher_props identifier =
      if o.add_publisher_metadata
      then List.◌∷◌ (identifier <> ".published_tag = '" <> o.publish_tag <> "'")
          (List.◌∷◌ (identifier <> ".publisher_last_updated_epoch_ms = timestamp()") List.[])
      else List.[]

  unfoldable pub create_props_body : Record → List String → String → String
  unfolding record_props publisher_props
  create_props_body record_dict excludes identifier =
      join ", " (record_props excludes identifier record_dict ++ publisher_props identifier)

  -- With no configured labels, `is_among` is false, as the code's `else` says.
  unfoldable pub is_create_only_node : Record → Bool
  is_create_only_node node_record = is_among "LABEL" node_record o.create_only_nodes

  unfoldable pub create_node_merge_statement : Record → Statement
  create_node_merge_statement node_record =
      merge_node (field "LABEL" node_record)
        (create_props_body node_record node_required_keys "node")
        (not (is_create_only_node node_record))

  unfoldable pub create_relationship_merge_statement : Record → Statement
  create_relationship_merge_statement rel_record =
      let prop_body_r1 = create_props_body rel_record relation_required_keys "r1" in
      let prop_body_r2 = create_props_body rel_record relation_required_keys "r2" in
      merge_relation (field "START_LABEL" rel_record) (field "END_LABEL" rel_record)
        (field "TYPE" rel_record) (field "REVERSE_TYPE" rel_record) prop_body_r1
        (prop_body_r1 <> " , " <> prop_body_r2)

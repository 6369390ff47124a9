-- ===== src/Models/Table/Valid.antt =====
-- Every node and relation of a table passes the checks of models/graph_serializable.py, so
-- `next_node` and `next_relation` never raise on a table.
use amundsen_fork.Prelude.{
  String, ◌≡◌, refl, Option, some, List, All, All-append, Bool-cases, option_eq, triple_eq, inl,
  inr, str_eq,
}
use amundsen_fork.Prelude.Effects.{return}
use amundsen_fork.Prelude.Ascii.{is_title, is_upper}
use amundsen_fork.Models.Graph.{
  GraphNode, GraphRelationship, validate_node, validate_relation, validate_label_value,
  validate_relation_type_value, next_node, next_relation,
}
use amundsen_fork.Models.Description.{DescriptionMetadata, label, get_node, get_relation}
use amundsen_fork.Models.TypeMetadata.{
  column, subtype, parent_label, relation_type, inverse_relation_type, Parent, Fields, node_label,
  type_relation,
}
use amundsen_fork.Models.Serialized.{emit_new-All}
use amundsen_fork.Models.Table.Defs.{TableMetadata}
use amundsen_fork.Models.Table.Nodes.{
  tag_node, create_table_node, other_nodes, create_nodes, table_nodes,
}
use amundsen_fork.Models.Table.Relations.{
  other_relations, create_relations, table_relations, relation_key,
}
use amundsen_fork.Models.Table.Every.{
  EveryNode, table_nodes-All, EveryRelation, table_relations-All,
}

abbrev pub IsValidNode : GraphNode → Type 0
IsValidNode n = next_node (some n) ≡ return (some n)

abbrev pub IsValidRelation : GraphRelationship → Type 0
IsValidRelation r = next_relation (some r) ≡ return (some r)

description-IsValid : (d : DescriptionMetadata) (k : String) → IsValidNode (get_node d k)
unfolding next_node validate_node validate_label_value get_node label is_title
description-IsValid d k = elim (Bool-cases (str_eq d.source "description")) [
  | inl e ↦ rw e
  | inr e ↦ rw e
]

every_node : EveryNode IsValidNode
unfolding next_node validate_node validate_label_value create_table_node tag_node is_title
every_node = record {
  table = λ t. refl;
  description = description-IsValid;
  tag = λ tag. refl;
  column = λ t col. refl;
  badge = λ b. refl;
  type = λ kind p f. refl;
}

description_relation-IsValid :
    (d : DescriptionMetadata) (start k l : String)
    → validate_label_value start ≡ return tt
    → IsValidRelation (get_relation d start k l)
unfolding next_relation validate_relation validate_label_value validate_relation_type_value
    get_relation label is_title is_upper
description_relation-IsValid d start k l h = elim (Bool-cases (str_eq d.source "description")) [
  | inl e ↦ rw e (rw h)
  | inr e ↦ rw e (rw h)
]

type_relation-IsValid : (p : Parent) (f : Fields) → IsValidRelation (type_relation p f)
unfolding next_relation validate_relation validate_label_value validate_relation_type_value
    parent_label relation_type inverse_relation_type is_title is_upper
type_relation-IsValid (column k) f = refl
type_relation-IsValid (subtype k) f = refl

every_relation : EveryRelation IsValidRelation
unfolding next_relation validate_relation validate_label_value validate_relation_type_value is_title
    is_upper
every_relation = record {
  table = λ t. refl;
  table_description = λ d k l. description_relation-IsValid d "Table" k l refl;
  column_description = λ d k l. description_relation-IsValid d "Column" k l refl;
  type_description = λ d k l. description_relation-IsValid d node_label k l refl;
  tag = λ t tag. refl;
  column = λ t col. refl;
  badge = λ t col b. refl;
  type = type_relation-IsValid;
}

others-IsValid :
    (t : TableMetadata) → All IsValidNode (other_nodes t) × All IsValidRelation (other_relations t)
unfolding other_nodes other_relations next_node validate_node next_relation validate_relation
    validate_label_value validate_relation_type_value is_title is_upper
others-IsValid t = ((refl, (refl, (refl, tt))), (refl, (refl, tt)))

-- Whatever keys are recorded already, each node that a table yields passes `next_node`, and each
-- relation passes `next_relation`.
pub create-IsValid :
    (t : TableMetadata) (nodes_keys : List (Option String))
    (rels_keys : List (String × String × String))
    → All IsValidNode (create_nodes t nodes_keys).0
      × All IsValidRelation (create_relations t rels_keys).0
unfolding create_nodes create_relations
create-IsValid t nodes_keys rels_keys = (
  All-append IsValidNode (table_nodes t) _ (table_nodes-All IsValidNode every_node t)
      (emit_new-All (λ n. n.key) IsValidNode (other_nodes t) nodes_keys (others-IsValid t).0),
  All-append IsValidRelation (table_relations t) _
      (table_relations-All IsValidRelation every_relation t)
      (emit_new-All relation_key IsValidRelation (other_relations t) rels_keys
        (others-IsValid t).1),
)

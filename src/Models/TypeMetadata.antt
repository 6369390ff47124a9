-- ===== src/Models/TypeMetadata.antt =====
-- models/type_metadata.py: the type of a column as a tree, and the nodes and relations of it.
pub mod Closed
pub mod Every
use amundsen_fork.Prelude.{ℕ, String, ◌<>◌, Option, none, some, List, [], ◌∷◌, ◌++◌}
use amundsen_fork.Models.Graph.{str, int, Value, GraphNode, GraphRelationship}
use amundsen_fork.Models.Description.{
  DescriptionMetadata, get_description_id, get_node, get_relation,
}

-- The attributes that `TypeMetadata.__init__` sets, but for the parent.
pub record Fields : Type 0 where
  pub name : String
  pub type_str : String
  pub description : Option DescriptionMetadata
  pub sort_order : Option ℕ

-- One constructor for each class; two where the inner types may be unset. Only these hold children.
mutual
  pub data TypeMetadata : Type 0 where
    array_type : Fields → TypeMetadata
    array_of : Fields → TypeMetadata → TypeMetadata
    map_type : Fields → TypeMetadata
    map_of : Fields → TypeMetadata → TypeMetadata → TypeMetadata
    scalar_type : Fields → TypeMetadata
    struct_type : Fields → StructItems → TypeMetadata

  pub data StructItems : Type 0 where
    nil : StructItems
    cons : String → TypeMetadata → StructItems → StructItems

-- The parent, which is a column or another type, with its key.
pub data Parent : Type 0 where
  column : String → Parent
  subtype : String → Parent

abbrev pub node_label : String
node_label = "Type_Metadata"

unfoldable pub parent_key : Parent → String
parent_key (column k) = k
parent_key (subtype k) = k

unfoldable pub key : Parent → Fields → String
key (column k) f = k <> "/type/" <> f.name
key (subtype k) f = k <> "/" <> f.name

unfoldable pub parent_label : Parent → String
parent_label (column _) = "Column"
parent_label (subtype _) = node_label

unfoldable pub relation_type : Parent → String
relation_type (column _) = "TYPE_METADATA"
relation_type (subtype _) = "SUBTYPE"

unfoldable pub inverse_relation_type : Parent → String
inverse_relation_type (column _) = "TYPE_METADATA_OF"
inverse_relation_type (subtype _) = "SUBTYPE_OF"

abbrev description_key : Parent → Fields → DescriptionMetadata → String
description_key p f d = key p f <> "/" <> get_description_id d

abbrev sort_order_attribute : Option ℕ → List (String × Value)
sort_order_attribute none = []
sort_order_attribute (some n) = ("sort_order", int n) ∷ []

abbrev pub type_node : String → Parent → Fields → GraphNode
type_node kind p f = record {
  key = some (key p f);
  label = some node_label;
  attributes =
      ("kind", str kind)
      ∷ ("name", str f.name)
      ∷ ("data_type", str f.type_str)
      ∷ sort_order_attribute f.sort_order;
}

abbrev description_nodes : Parent → Fields → Option DescriptionMetadata → List GraphNode
description_nodes p f none = []
description_nodes p f (some d) = get_node d (description_key p f d) ∷ []

-- The node of the type itself and that of its description.
own_nodes : String → Parent → Fields → List GraphNode
own_nodes kind p f = type_node kind p f ∷ description_nodes p f f.description

abbrev pub type_relation : Parent → Fields → GraphRelationship
type_relation p f = record {
  start_label = parent_label p;
  end_label = node_label;
  start_key = parent_key p;
  end_key = key p f;
  type = relation_type p;
  reverse_type = inverse_relation_type p;
  attributes = [];
}

abbrev description_relations : Parent → Fields → Option DescriptionMetadata → List GraphRelationship
description_relations p f none = []
description_relations p f (some d) =
    get_relation d node_label (key p f) (description_key p f d) ∷ []

own_relations : Parent → Fields → List GraphRelationship
own_relations p f = type_relation p f ∷ description_relations p f f.description

unfoldable mutual
  unfolding own_nodes

  pub create_node_iterator : Parent → TypeMetadata → List GraphNode
  create_node_iterator p (array_type f) = own_nodes "array" p f
  create_node_iterator p (array_of f t) =
      own_nodes "array" p f ++ create_node_iterator (subtype (key p f)) t
  create_node_iterator p (map_type f) = own_nodes "map" p f
  create_node_iterator p (map_of f k v) =
      own_nodes "map" p f
      ++ (create_node_iterator (subtype (key p f)) k ++ create_node_iterator (subtype (key p f)) v)
  create_node_iterator p (scalar_type f) = own_nodes "scalar" p f
  create_node_iterator p (struct_type f items) =
      own_nodes "struct" p f ++ items_nodes (subtype (key p f)) items

  pub items_nodes : Parent → StructItems → List GraphNode
  items_nodes p nil = []
  items_nodes p (cons name t items) = create_node_iterator p t ++ items_nodes p items

unfoldable mutual
  unfolding own_relations

  pub create_relation_iterator : Parent → TypeMetadata → List GraphRelationship
  create_relation_iterator p (array_type f) = own_relations p f
  create_relation_iterator p (array_of f t) =
      own_relations p f ++ create_relation_iterator (subtype (key p f)) t
  create_relation_iterator p (map_type f) = own_relations p f
  create_relation_iterator p (map_of f k v) =
      own_relations p f
      ++ (create_relation_iterator (subtype (key p f)) k
          ++ create_relation_iterator (subtype (key p f)) v)
  create_relation_iterator p (scalar_type f) = own_relations p f
  create_relation_iterator p (struct_type f items) =
      own_relations p f ++ items_relations (subtype (key p f)) items

  pub items_relations : Parent → StructItems → List GraphRelationship
  items_relations p nil = []
  items_relations p (cons name t items) = create_relation_iterator p t ++ items_relations p items

-- ===== src/Models/TypeMetadata/Every.antt =====
-- What holds of each node and relation of one type and its description holds of the whole tree.
use amundsen_fork.Prelude.{String, Option, none, some, All, All-append}
use amundsen_fork.Models.Graph.{GraphNode, GraphRelationship}
use amundsen_fork.Models.Description.{DescriptionMetadata, get_node, get_relation}
use amundsen_fork.Models.TypeMetadata.{
  Fields, TypeMetadata, StructItems, array_type, array_of, map_type, map_of, scalar_type,
  struct_type, nil, cons, Parent, subtype, key, node_label, type_node, type_relation, own_nodes,
  own_relations, description_nodes, description_relations, create_node_iterator, items_nodes,
  create_relation_iterator, items_relations,
}

module _ (P : GraphNode → Type 0)
    (type_P : (kind : String) (p : Parent) (f : Fields) → P (type_node kind p f))
    (description_P : (d : DescriptionMetadata) (k : String) → P (get_node d k)) where
  description_nodes-All :
      (p : Parent) (f : Fields) (d : Option DescriptionMetadata) → All P (description_nodes p f d)
  description_nodes-All p f none = tt
  description_nodes-All p f (some d) = (description_P d _, tt)

  own_nodes-All : (kind : String) (p : Parent) (f : Fields) → All P (own_nodes kind p f)
  unfolding own_nodes
  own_nodes-All kind p f = (type_P kind p f, description_nodes-All p f f.description)

  mutual
    unfolding create_node_iterator

    tree_nodes-All : (p : Parent) (t : TypeMetadata) → All P (create_node_iterator p t)
    tree_nodes-All p (array_type f) = own_nodes-All "array" p f
    tree_nodes-All p (array_of f t) =
        All-append P (own_nodes "array" p f) _ (own_nodes-All "array" p f)
          (tree_nodes-All (subtype (key p f)) t)
    tree_nodes-All p (map_type f) = own_nodes-All "map" p f
    tree_nodes-All p (map_of f k v) =
        All-append P (own_nodes "map" p f) _ (own_nodes-All "map" p f) (
          All-append P (create_node_iterator (subtype (key p f)) k) _
            (tree_nodes-All (subtype (key p f)) k) (tree_nodes-All (subtype (key p f)) v))
    tree_nodes-All p (scalar_type f) = own_nodes-All "scalar" p f
    tree_nodes-All p (struct_type f items) =
        All-append P (own_nodes "struct" p f) _ (own_nodes-All "struct" p f)
          (items_nodes-All (subtype (key p f)) items)

    items_nodes-All : (p : Parent) (items : StructItems) → All P (items_nodes p items)
    items_nodes-All p nil = tt
    items_nodes-All p (cons name t items) =
        All-append P (create_node_iterator p t) _ (tree_nodes-All p t) (items_nodes-All p items)

  pub type_nodes-All : (p : Parent) (t : TypeMetadata) → All P (create_node_iterator p t)
  type_nodes-All p t = tree_nodes-All p t

module _ (P : GraphRelationship → Type 0)
    (type_P : (p : Parent) (f : Fields) → P (type_relation p f))
    (description_P : (d : DescriptionMetadata) (k l : String)
      → P (get_relation d node_label k l)) where
  description_relations-All :
      (p : Parent) (f : Fields) (d : Option DescriptionMetadata)
      → All P (description_relations p f d)
  description_relations-All p f none = tt
  description_relations-All p f (some d) = (description_P d _ _, tt)

  own_relations-All : (p : Parent) (f : Fields) → All P (own_relations p f)
  unfolding own_relations
  own_relations-All p f = (type_P p f, description_relations-All p f f.description)

  mutual
    unfolding create_relation_iterator

    tree_relations-All : (p : Parent) (t : TypeMetadata) → All P (create_relation_iterator p t)
    tree_relations-All p (array_type f) = own_relations-All p f
    tree_relations-All p (array_of f t) =
        All-append P (own_relations p f) _ (own_relations-All p f)
          (tree_relations-All (subtype (key p f)) t)
    tree_relations-All p (map_type f) = own_relations-All p f
    tree_relations-All p (map_of f k v) =
        All-append P (own_relations p f) _ (own_relations-All p f) (
          All-append P (create_relation_iterator (subtype (key p f)) k) _
            (tree_relations-All (subtype (key p f)) k) (tree_relations-All (subtype (key p f)) v))
    tree_relations-All p (scalar_type f) = own_relations-All p f
    tree_relations-All p (struct_type f items) =
        All-append P (own_relations p f) _ (own_relations-All p f)
          (items_relations-All (subtype (key p f)) items)

    items_relations-All : (p : Parent) (items : StructItems) → All P (items_relations p items)
    items_relations-All p nil = tt
    items_relations-All p (cons name t items) =
        All-append P (create_relation_iterator p t) _ (tree_relations-All p t)
          (items_relations-All p items)

  pub type_relations-All : (p : Parent) (t : TypeMetadata) → All P (create_relation_iterator p t)
  type_relations-All p t = tree_relations-All p t

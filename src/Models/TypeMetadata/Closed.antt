-- ===== src/Models/TypeMetadata/Closed.antt =====
-- The relations of a type tree join nodes of that tree, or its root to the parent.
use amundsen_fork.Prelude.{
  String, Option, none, some, List, Mem, All, All-append, All-append_left, All-append_right,
}
use amundsen_fork.Models.Graph.Linked.{Linked, Covers}
use amundsen_fork.Models.Description.{DescriptionMetadata, get_node, get_relation}
use amundsen_fork.Models.TypeMetadata.{
  Fields, TypeMetadata, StructItems, array_type, array_of, map_type, map_of, scalar_type,
  struct_type, nil, cons, Parent, subtype, parent_key, key, own_nodes, own_relations,
  description_nodes, description_relations, create_node_iterator, items_nodes,
  create_relation_iterator, items_relations,
}

module _ (ks : List (Option String)) where
  description_relations-Linked :
      (p : Parent) (f : Fields) (d : Option DescriptionMetadata)
      → Mem (some (key p f)) ks
      → Covers ks (description_nodes p f d)
      → All (Linked ks) (description_relations p f d)
  unfolding get_node get_relation
  description_relations-Linked p f none k h = tt
  description_relations-Linked p f (some d) k h = ((k, h.0), tt)

  own_relations-Linked :
      (kind : String) (p : Parent) (f : Fields)
      → Mem (some (parent_key p)) ks
      → Covers ks (own_nodes kind p f)
      → All (Linked ks) (own_relations p f)
  unfolding own_nodes own_relations
  own_relations-Linked kind p f m h =
      ((m, h.0), description_relations-Linked p f f.description h.0 h.1)

  own_key-Mem :
      (kind : String) (p : Parent) (f : Fields)
      → Covers ks (own_nodes kind p f)
      → Mem (some (parent_key (subtype (key p f)))) ks
  unfolding own_nodes parent_key
  own_key-Mem kind p f h = h.0

-- The part of a tree below its own nodes: children with the key of the type as parent.
module _ (ks : List (Option String)) where
  mutual
    unfolding create_node_iterator create_relation_iterator

    tree-Linked :
        (p : Parent) (t : TypeMetadata)
        → Mem (some (parent_key p)) ks
        → Covers ks (create_node_iterator p t)
        → All (Linked ks) (create_relation_iterator p t)
    tree-Linked p (array_type f) m h = own_relations-Linked ks "array" p f m h
    tree-Linked p (array_of f t) m h =
        let own = All-append_left _ (own_nodes "array" p f) _ h in
        let inner = All-append_right _ (own_nodes "array" p f) _ h in
        All-append (Linked ks) (own_relations p f) _ (own_relations-Linked ks "array" p f m own)
          (tree-Linked (subtype (key p f)) t (own_key-Mem ks "array" p f own) inner)
    tree-Linked p (map_type f) m h = own_relations-Linked ks "map" p f m h
    tree-Linked p (map_of f k v) m h =
        let own = All-append_left _ (own_nodes "map" p f) _ h in
        let inner = All-append_right _ (own_nodes "map" p f) _ h in
        let up = own_key-Mem ks "map" p f own in
        All-append (Linked ks) (own_relations p f) _ (own_relations-Linked ks "map" p f m own) (
          All-append (Linked ks) (create_relation_iterator (subtype (key p f)) k) _
            (tree-Linked (subtype (key p f)) k up
              (All-append_left _ (create_node_iterator (subtype (key p f)) k) _ inner))
            (tree-Linked (subtype (key p f)) v up
              (All-append_right _ (create_node_iterator (subtype (key p f)) k) _ inner)))
    tree-Linked p (scalar_type f) m h = own_relations-Linked ks "scalar" p f m h
    tree-Linked p (struct_type f items) m h =
        let own = All-append_left _ (own_nodes "struct" p f) _ h in
        let inner = All-append_right _ (own_nodes "struct" p f) _ h in
        All-append (Linked ks) (own_relations p f) _ (own_relations-Linked ks "struct" p f m own)
          (items-Linked (subtype (key p f)) items (own_key-Mem ks "struct" p f own) inner)

    items-Linked :
        (p : Parent) (items : StructItems)
        → Mem (some (parent_key p)) ks
        → Covers ks (items_nodes p items)
        → All (Linked ks) (items_relations p items)
    items-Linked p nil m h = tt
    items-Linked p (cons name t items) m h =
        All-append (Linked ks) (create_relation_iterator p t) _
          (tree-Linked p t m (All-append_left _ (create_node_iterator p t) _ h))
          (items-Linked p items m (All-append_right _ (create_node_iterator p t) _ h))

  -- Where the given keys hold the parent's key and the keys of all nodes that a type yields, they hold
  -- both ends of every relation that it yields, at any depth of nesting.
  pub type-Linked :
      (p : Parent) (t : TypeMetadata)
      → Mem (some (parent_key p)) ks
      → Covers ks (create_node_iterator p t)
      → All (Linked ks) (create_relation_iterator p t)
  type-Linked p t m h = tree-Linked p t m h

-- ===== src/Models/Table/Integrity.antt =====
-- The graph of any run of tables is closed: the nodes of a table and those that earlier tables
-- have emitted hold both ends of each of its relations.
use amundsen_fork.Prelude.{
  String, ◌≡◌, Option, none, some, List, [], ◌∷◌, ◌++◌, map, Mem, All, All-append, All-append_left,
  All-append_right, option_eq, triple_eq,
}
use amundsen_fork.Models.Graph.{GraphNode, GraphRelationship}
use amundsen_fork.Models.Graph.Linked.{Linked, Covers, keys, keys-Covers}
use amundsen_fork.Models.Description.{DescriptionMetadata, get_node, get_relation}
use amundsen_fork.Models.Badge.{
  Badge, BadgeMetadata, badge_node, badge_relation, get_badge_nodes, get_badge_relations,
}
use amundsen_fork.Models.TypeMetadata.{TypeMetadata, column, parent_key}
use amundsen_fork.Models.TypeMetadata.Closed.{type-Linked}
use amundsen_fork.Models.Serialized.{emit_new, emit_new-Mem, emit_new-All}
use amundsen_fork.Models.Table.Defs.{
  ColumnMetadata, TableMetadata, get_table_key, get_schema_key, get_col_key,
}
use amundsen_fork.Models.Table.Nodes.{
  tag_node, create_table_node, table_description_nodes, column_description_nodes, column_badges,
  type_nodes, create_column_nodes, create_all_column_nodes, table_nodes, other_nodes, create_nodes,
}
use amundsen_fork.Models.Table.Relations.{
  table_description_relations, tag_relationship, column_description_relations, type_relations,
  create_column_relations, create_all_column_relations, table_relations, other_relations,
  create_relations, relation_key,
}

-- A parsed type hangs under the key of its own column.
abbrev pub IsKeyedBy : String → Option (String × TypeMetadata) → Type 0
IsKeyedBy k none = Unit
IsKeyedBy k (some (j, m)) = j ≡ k

abbrev pub IsKeyed : TableMetadata → Type 0
IsKeyed t = All (λ col. IsKeyedBy (get_col_key t col) col.parsed) t.columns

module _ (ks : List (Option String)) where
  badge_relations-Linked :
      (b : BadgeMetadata) (badges : List Badge)
      → Mem (some b.start_key) ks
      → Covers ks (map badge_node badges)
      → All (Linked ks) (map (badge_relation b) badges)
  badge_relations-Linked b [] m h = tt
  badge_relations-Linked b (x ∷ badges) m h = ((m, h.0), badge_relations-Linked b badges m h.1)

  module _ (t : TableMetadata) where
    description-Linked :
        (d : Option DescriptionMetadata)
        → Mem (some (get_table_key t)) ks
        → Covers ks (table_description_nodes t d)
        → All (Linked ks) (table_description_relations t d)
    unfolding get_node get_relation
    description-Linked none m h = tt
    description-Linked (some d) m h = ((m, h.0), tt)

    column_description-Linked :
        (col : ColumnMetadata) (d : Option DescriptionMetadata)
        → Mem (some (get_col_key t col)) ks
        → Covers ks (column_description_nodes t col d)
        → All (Linked ks) (column_description_relations t col d)
    unfolding get_node get_relation
    column_description-Linked col none m h = tt
    column_description-Linked col (some d) m h = ((m, h.0), tt)

    tags-Linked :
        (tags : List String)
        → Mem (some (get_table_key t)) ks
        → Covers ks (map tag_node tags)
        → All (Linked ks) (map (tag_relationship t) tags)
    unfolding tag_node
    tags-Linked [] m h = tt
    tags-Linked (tag ∷ tags) m h = ((m, h.0), tags-Linked tags m h.1)

    type-Linked_opt :
        (col : ColumnMetadata) (o : Option (String × TypeMetadata))
        → IsKeyedBy (get_col_key t col) o
        → Mem (some (get_col_key t col)) ks
        → Covers ks (type_nodes t o)
        → All (Linked ks) (type_relations t o)
    unfolding parent_key
    type-Linked_opt col none e m h = tt
    type-Linked_opt col (some (j, s)) e m h = type-Linked ks (column j) s (rw e m) h

    column-Linked :
        (col : ColumnMetadata)
        → IsKeyedBy (get_col_key t col) col.parsed
        → Mem (some (get_table_key t)) ks
        → Covers ks (create_column_nodes t col)
        → All (Linked ks) (create_column_relations t col)
    unfolding create_column_nodes create_column_relations get_badge_nodes get_badge_relations
    column-Linked col e m h =
        let rest = All-append_right _ (column_description_nodes t col col.description) _ h.1 in
        (
          (m, h.0),
          All-append (Linked ks) (column_description_relations t col col.description) _
              (column_description-Linked col col.description h.0
                (All-append_left _ (column_description_nodes t col col.description) _ h.1))
              (All-append (Linked ks) (get_badge_relations (column_badges t col)) _
                (badge_relations-Linked (column_badges t col) col.badges h.0
                  (All-append_left _ (get_badge_nodes (column_badges t col)) _ rest))
                (type-Linked_opt col col.parsed e h.0
                  (All-append_right _ (get_badge_nodes (column_badges t col)) _ rest))),
        )

    columns-Linked :
        (cols : List ColumnMetadata)
        → All (λ col. IsKeyedBy (get_col_key t col) col.parsed) cols
        → Mem (some (get_table_key t)) ks
        → Covers ks (create_all_column_nodes t cols)
        → All (Linked ks) (create_all_column_relations t cols)
    unfolding create_all_column_nodes create_all_column_relations
    columns-Linked [] e m h = tt
    columns-Linked (col ∷ cols) e m h =
        All-append (Linked ks) (create_column_relations t col) _
          (column-Linked col e.0 m (All-append_left _ (create_column_nodes t col) _ h))
          (columns-Linked cols e.1 m (All-append_right _ (create_column_nodes t col) _ h))

    table-Linked :
        IsKeyed t
        → Mem (some (get_schema_key t)) ks
        → Covers ks (table_nodes t)
        → All (Linked ks) (table_relations t)
    unfolding table_nodes table_relations create_table_node
    table-Linked e m h =
        let rest = All-append_right _ (table_description_nodes t t.description) _ h.1 in
        (
          (m, h.0),
          All-append (Linked ks) (table_description_relations t t.description) _
              (description-Linked t.description h.0
                (All-append_left _ (table_description_nodes t t.description) _ h.1))
              (All-append (Linked ks) (map (tag_relationship t) t.tags) _
                (tags-Linked t.tags h.0 (All-append_left _ (map tag_node t.tags) _ rest))
                (columns-Linked t.columns e h.0 (All-append_right _ (map tag_node t.tags) _ rest))),
        )

    others-Linked : Covers ks (other_nodes t) → All (Linked ks) (other_relations t)
    unfolding other_nodes other_relations
    others-Linked h = ((h.0, h.1.0), ((h.1.0, h.1.1.0), tt))

    schema-Mem : Covers ks (other_nodes t) → Mem (some (get_schema_key t)) ks
    unfolding other_nodes
    schema-Mem h = h.1.1.0

-- The nodes and relations that the loader drains from tables, one table after the other, with the
-- two sets that the class keeps between them.
unfoldable pub load_tables :
    List TableMetadata
    → List (Option String)
    → List (String × String × String)
    → List GraphNode × List GraphRelationship
load_tables [] nodes_keys rels_keys = ([], [])
load_tables (t ∷ ts) nodes_keys rels_keys =
    let (nodes, nodes_keys') = create_nodes t nodes_keys in
    let (relations, rels_keys') = create_relations t rels_keys in
    let (more_nodes, more_relations) = load_tables ts nodes_keys' rels_keys' in
    (nodes ++ more_nodes, relations ++ more_relations)

module _ (ks : List (Option String)) where
  load-Linked :
      (ts : List TableMetadata) (nodes_keys : List (Option String))
      (rels_keys : List (String × String × String))
      → All IsKeyed ts
      → All (λ k. Mem k ks) nodes_keys
      → Covers ks (load_tables ts nodes_keys rels_keys).0
      → All (Linked ks) (load_tables ts nodes_keys rels_keys).1
  unfolding load_tables create_nodes create_relations
  load-Linked [] nodes_keys rels_keys e old h = tt
  load-Linked (t ∷ ts) nodes_keys rels_keys e old h =
      let (new, nodes_keys') = emit_new (λ n. n.key) (other_nodes t) nodes_keys in
      let mine = All-append_left _ (table_nodes t ++ new) _ h in
      let (others, old') =
        emit_new-Mem (λ n. n.key) ks (other_nodes t) nodes_keys old
          (All-append_right _ (table_nodes t) _ mine) in
      All-append (Linked ks) (create_relations t rels_keys).0 _
        (All-append (Linked ks) (table_relations t) _
          (table-Linked ks t e.0 (schema-Mem ks t others)
            (All-append_left _ (table_nodes t) _ mine))
          (emit_new-All relation_key (Linked ks) (other_relations t) rels_keys
            (others-Linked ks t others)))
        (load-Linked ts nodes_keys' _ e.1 old' (All-append_right _ (table_nodes t ++ new) _ h))

-- Whatever tables are loaded, in whatever order, from the start of the program (no key recorded):
-- if the parsed types of each table hang under its own columns' keys, then both ends of every
-- relation that is emitted are keys of nodes that are emitted.
pub load_tables-Linked :
    (ts : List TableMetadata)
    → All IsKeyed ts
    → All (Linked (keys (load_tables ts [] []).0)) (load_tables ts [] []).1
load_tables-Linked ts e = load-Linked _ ts [] [] e tt (keys-Covers (load_tables ts [] []).0)

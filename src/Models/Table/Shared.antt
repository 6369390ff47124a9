-- ===== src/Models/Table/Shared.antt =====
-- Database, cluster and schema nodes are emitted once in a run of tables.
use mathlib.Core.List.{Nodup}
use amundsen_fork.Prelude.{
  String, ◌≡◌, refl, ap, sym, ◌∙◌, Bool, true, false, Option, none, some, List, [], ◌∷◌, ◌++◌, All,
  Bool-cases, option_eq, inl, inr, str_eq, ◌||◌, if◌then◌else◌,
}
use amundsen_fork.Models.Graph.{GraphNode}
use amundsen_fork.Models.Graph.Linked.{keys}
use amundsen_fork.Models.Description.{DescriptionMetadata, label, get_node}
use amundsen_fork.Models.Serialized.{emit_new, emit_new-All, emit_new-append, emit_new-Nodup}
use amundsen_fork.Models.Table.Defs.{TableMetadata}
use amundsen_fork.Models.Table.Nodes.{
  tag_node, create_table_node, other_nodes, create_nodes, table_nodes,
}
use amundsen_fork.Models.Table.Relations.{create_relations}
use amundsen_fork.Models.Table.Integrity.{load_tables}
use amundsen_fork.Models.Table.Every.{EveryNode, table_nodes-All}

abbrev is_shared_label : Option String → Bool
is_shared_label none = false
is_shared_label (some l) = str_eq l "Database" || (str_eq l "Cluster" || str_eq l "Schema")

-- The nodes whose label is Database, Cluster or Schema.
unfoldable pub shared : List GraphNode → List GraphNode
shared [] = []
shared (n ∷ ns) = let rest = shared ns in if is_shared_label n.label then n ∷ rest else rest

abbrev IsOwn : GraphNode → Type 0
IsOwn n = is_shared_label n.label ≡ false

abbrev IsShared : GraphNode → Type 0
IsShared n = is_shared_label n.label ≡ true

shared-append : (xs ys : List GraphNode) → shared (xs ++ ys) ≡ shared xs ++ shared ys
unfolding shared
shared-append [] ys = refl
shared-append (x ∷ xs) ys = elim (Bool-cases (is_shared_label x.label)) [
  | inl e ↦ rw e (ap (λ r. x ∷ r) (shared-append xs ys))
  | inr e ↦ rw e (shared-append xs ys)
]

shared_none : (xs : List GraphNode) → All IsOwn xs → shared xs ≡ []
unfolding shared
shared_none [] h = refl
shared_none (x ∷ xs) h = rw (h.0) (shared_none xs h.1)

shared-All : (xs : List GraphNode) → All IsShared xs → shared xs ≡ xs
unfolding shared
shared-All [] h = refl
shared-All (x ∷ xs) h = rw (h.0) (ap (λ r. x ∷ r) (shared-All xs h.1))

description-IsOwn : (d : DescriptionMetadata) (k : String) → IsOwn (get_node d k)
unfolding get_node label
description-IsOwn d k = elim (Bool-cases (str_eq d.source "description")) [
  | inl e ↦ rw e
  | inr e ↦ rw e
]

every-IsOwn : EveryNode IsOwn
unfolding create_table_node tag_node
every-IsOwn = record {
  table = λ t. refl;
  description = description-IsOwn;
  tag = λ tag. refl;
  column = λ t col. refl;
  badge = λ b. refl;
  type = λ kind p f. refl;
}

others-IsShared : (t : TableMetadata) → All IsShared (other_nodes t)
unfolding other_nodes
others-IsShared t = (refl, (refl, (refl, tt)))

-- The shared nodes of one table are those that its loop emits.
shared-create :
    (t : TableMetadata) (ks : List (Option String))
    → shared (create_nodes t ks).0 ≡ (emit_new (λ n. n.key) (other_nodes t) ks).0
unfolding create_nodes
shared-create t ks =
    shared-append (table_nodes t) _
    ∙ ap (λ r. r ++ shared (emit_new (λ n. n.key) (other_nodes t) ks).0)
        (shared_none (table_nodes t) (table_nodes-All IsOwn every-IsOwn t))
    ∙ shared-All _ (emit_new-All (λ n. n.key) IsShared (other_nodes t) ks (others-IsShared t))

all_others : List TableMetadata → List GraphNode
all_others [] = []
all_others (t ∷ ts) = other_nodes t ++ all_others ts

-- One loop over the shared nodes of all tables, in order.
shared-load :
    (ts : List TableMetadata) (ks : List (Option String)) (rs : List (String × String × String))
    → shared (load_tables ts ks rs).0 ≡ (emit_new (λ n. n.key) (all_others ts) ks).0
unfolding load_tables all_others
shared-load [] ks rs = unfold shared emit_new in refl
shared-load (t ∷ ts) ks rs =
    let key : GraphNode → Option String = λ n. n.key in
    let ks' = (create_nodes t ks).1 in
    let rs' = (create_relations t rs).1 in
    shared-append (create_nodes t ks).0 (load_tables ts ks' rs').0
    ∙ ap (λ r. r ++ shared (load_tables ts ks' rs').0) (shared-create t ks)
    ∙ ap (λ r. (emit_new key (other_nodes t) ks).0 ++ r) (shared-load ts ks' rs')
    ∙ unfold create_nodes in
      sym (ap (λ r. r.0) (emit_new-append key (other_nodes t) (all_others ts) ks))

-- Whatever tables are loaded from the start of the program, in whatever order, no two of the
-- Database, Cluster and Schema nodes that are emitted have the same key.
pub load_tables-Nodup : (ts : List TableMetadata) → Nodup (keys (shared (load_tables ts [] []).0))
load_tables-Nodup ts =
    rw (shared-load ts [] []) ((emit_new-Nodup (λ n. n.key) (all_others ts) []).1)

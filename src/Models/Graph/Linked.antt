-- ===== src/Models/Graph/Linked.antt =====
-- Relations whose ends are among given node keys.
use mathlib.Core.List.{mem-cons_self, mem-cons_of_mem}
use amundsen_fork.Prelude.{String, Option, some, List, [], ◌∷◌, map, Mem, All, All-mono}
use amundsen_fork.Models.Graph.{GraphNode, GraphRelationship}

abbrev pub keys : List GraphNode → List (Option String)
keys nodes = map (λ n. n.key) nodes

-- Both ends of the relation are among the keys.
abbrev pub Linked : List (Option String) → GraphRelationship → Type 0
Linked ks r = Mem (some r.start_key) ks × Mem (some r.end_key) ks

-- The keys of the nodes are among the keys.
abbrev pub Covers : List (Option String) → List GraphNode → Type 0
Covers ks nodes = All (λ n. Mem n.key ks) nodes

pub keys-Covers : (nodes : List GraphNode) → Covers (keys nodes) nodes
keys-Covers [] = tt
keys-Covers (n ∷ nodes) = (
  mem-cons_self,
  All-mono (λ m. Mem m.key (keys nodes)) _ nodes (λ m h. mem-cons_of_mem n.key h)
      (keys-Covers nodes),
)

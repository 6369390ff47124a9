-- ===== src/Loader/Files.antt =====
-- The writers of `FsNeo4jCSVLoader`, each with the name of the file that it opens and the rows that
-- it is given. Writers of relations that differ in their columns only open the same file.
use amundsen_fork.Prelude.{
  ℕ, suc, String, ◌<>◌, Bool, true, ◌&&◌, ◌==◌, Option, none, some, List, [], ◌∷◌, ◌++◌, map,
  length, if◌then◌else◌, contains, string_eq, option_eq, triple_eq, Eq,
}
use amundsen_fork.Models.Graph.{GraphNode, GraphRelationship}
use amundsen_fork.Mysql.Names.{file_suffix}
use amundsen_fork.Publisher.{Record}
use amundsen_fork.Loader.Rows.{serialize_node, serialize_relationship}

abbrev pub names : Record → List String
names dict = map (λ entry. entry.0) dict

-- `==` of two frozen sets, given by their members.
abbrev pub subset : List String → List String → Bool
subset [] ys = true
subset (x ∷ xs) ys = contains x ys && subset xs ys

unfoldable pub same_set : List String → List String → Bool
same_set xs ys = subset xs ys && subset ys xs

-- The number of a set in `_keys`, whose numbers are 0, 1, … in order of insertion.
unfoldable pub index_of : List String → List (List String) → Option ℕ
index_of xs [] = none
index_of xs (k ∷ keys) =
    let rest : Option ℕ = elim (index_of xs keys) [ none ↦ none | some n ↦ some (suc n) ] in
    if same_set xs k then some 0 else rest

-- `_make_key`: `setdefault` with the number of keys.
unfoldable pub make_key : List String → List (List String) → ℕ × List (List String)
make_key xs keys = elim (index_of xs keys) [
  | some n ↦ (n, keys)
  | none ↦ (length keys, keys ++ xs ∷ [])
]

-- `csv.DictWriter`, with the suffix of its file's name.
pub record Writer : Type 0 where
  pub file_suffix : String
  pub header : List String
  pub rows : List Record

module _ {K : Type 0} ⦃e : Eq K⦄ where
  abbrev pub same_key : K × ℕ → K × ℕ → Bool
  same_key (a, n) (b, m) = e.beq a b && n == m

  -- `_get_writer(...).writerow(dict)`: a new key gets a writer, whose header is the dict's keys.
  unfoldable pub write_row :
      String → K × ℕ → Record → List ((K × ℕ) × Writer) → List ((K × ℕ) × Writer)
  write_row suffix key dict [] =
      (key, record { file_suffix = suffix; header = names dict; rows = dict ∷ [] }) ∷ []
  write_row suffix key dict ((k, f) ∷ mapping) =
      let more = write_row suffix key dict mapping in
      if same_key key k
      then (k, record f { rows = f.rows ++ dict ∷ [] }) ∷ mapping
      else (k, f) ∷ more

  -- One of the two loops of `load`, over what is to be written and the label part of its key, with
  -- how the file is named for a key.
  unfoldable pub write_all :
      (K × ℕ → String)
      → List (K × Record)
      → List (List String)
      → List ((K × ℕ) × Writer)
      → List (List String) × List ((K × ℕ) × Writer)
  write_all suffix_of [] keys mapping = (keys, mapping)
  write_all suffix_of ((label, dict) ∷ rest) keys mapping =
      let (n, keys') = make_key (names dict) keys in
      write_all suffix_of rest keys' (write_row (suffix_of (label, n)) (label, n) dict mapping)

pub record Loader : Type 0 where
  pub keys : List (List String)
  pub node_file_mapping : List ((Option String × ℕ) × Writer)
  pub relation_file_mapping : List (((String × String × String) × ℕ) × Writer)

abbrev pub node_rows : List GraphNode → List (Option String × Record)
node_rows nodes = map (λ n. (n.label, serialize_node n)) nodes

abbrev pub relation_rows : List GraphRelationship → List ((String × String × String) × Record)
relation_rows relations =
    map (λ r. ((r.start_label, r.end_label, r.type), serialize_relationship r)) relations

-- `'{}_{}'.format(*key)`
unfoldable pub node_suffix : Option String × ℕ → String
unfolding file_suffix
node_suffix (none, n) = file_suffix ("None", n)
node_suffix (some label, n) = file_suffix (label, n)

-- `f'{key2[0]}_{key2[1]}_{key2[2]}'`, without the number of the columns.
unfoldable pub relation_suffix : (String × String × String) × ℕ → String
relation_suffix ((start_label, end_label, type), n) = start_label <> "_" <> end_label <> "_" <> type

-- `load` of a model that yields these nodes and relations.
unfoldable pub load : List GraphNode → List GraphRelationship → Loader → Loader
load nodes relations l =
    let (keys', node_files) = write_all node_suffix (node_rows nodes) l.keys l.node_file_mapping in
    let (keys'', relation_files) =
      write_all relation_suffix (relation_rows relations) keys' l.relation_file_mapping in
    record { keys = keys''; node_file_mapping = node_files; relation_file_mapping = relation_files }

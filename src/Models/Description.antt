-- ===== src/Models/Description.antt =====
-- models/description_metadata.py
use amundsen_fork.Prelude.{String, ◌<>◌, str_eq, Option, none, some, [], ◌∷◌, if◌then◌else◌}
use amundsen_fork.Prelude.Ascii.{is_empty}
use amundsen_fork.Prelude.Effects.{Result, return, raise}
use amundsen_fork.Models.Graph.{str, GraphNode, GraphRelationship}

abbrev pub description_label : String
description_label = "Description"

abbrev pub programmatic_description_label : String
programmatic_description_label = "Programmatic_Description"

abbrev default_source : String
default_source = "description"

-- A text that is neither `None` nor empty.
abbrev or_none : Option String → Option String
or_none none = none
or_none (some s) = if is_empty s then none else some s

pub record DescriptionMetadata : Type 0 where
  pub source : String
  pub text : String
  pub start_label : Option String
  pub start_key : Option String
  pub description_key : Option String

-- `self.label`, which `__init__` sets from the source for good.
unfoldable pub label : DescriptionMetadata → String
label d =
    if str_eq d.source default_source then description_label else programmatic_description_label

abbrev source_id : String → String
source_id source =
    if str_eq source default_source then "_description" else "_" <> source <> "_description"

unfoldable pub get_description_id : DescriptionMetadata → String
get_description_id d = source_id d.source

abbrev description_default_key : String → Option String → Option String
description_default_key source start_key = elim (or_none start_key) [
  | none ↦ none
  | some k ↦ some (k <> "/" <> source_id source)
]

-- `__init__`
unfoldable pub init :
    String → String → Option String → Option String → Option String → DescriptionMetadata
init text source description_key start_label start_key = record {
  source = source;
  text = text;
  start_label = start_label;
  start_key = start_key;
  description_key = elim (or_none description_key) [
    | some k ↦ some k
    | none ↦ description_default_key source start_key
  ];
}

-- The static method: no text, no description; no source, the editable one.
unfoldable pub create_description_metadata :
    Option String
    → Option String
    → Option String
    → Option String
    → Option String
    → Option DescriptionMetadata
unfolding init
create_description_metadata none source key start_label start_key = none
create_description_metadata (some text) source key start_label start_key =
    let source' : String = elim (or_none source) [ none ↦ default_source | some s ↦ s ] in
    some (init text source' key start_label start_key)

unfoldable pub get_node : DescriptionMetadata → String → GraphNode
get_node d node_key = record {
  key = some node_key;
  label = some (label d);
  attributes = ("description_source", str d.source) ∷ ("description", str d.text) ∷ [];
}

unfoldable pub get_relation : DescriptionMetadata → String → String → String → GraphRelationship
get_relation d start_node start_key end_key = record {
  start_label = start_node;
  end_label = label d;
  start_key = start_key;
  end_key = end_key;
  type = "DESCRIPTION";
  reverse_type = "DESCRIPTION_OF";
  attributes = [];
}

pub data DescriptionError : Type 0 where
  no_node_key no_start_label no_start_key no_end_key : DescriptionError

-- `_create_node_iterator`: its one node, or the exception.
unfoldable pub create_node_iterator : DescriptionMetadata → Result DescriptionError GraphNode
create_node_iterator d = elim (or_none d.description_key) [
  | none ↦ raise no_node_key
  | some k ↦ return (get_node d k)
]

-- `_create_relation_iterator`: its one relation, or the exception.
unfoldable pub create_relation_iterator :
    DescriptionMetadata → Result DescriptionError GraphRelationship
create_relation_iterator d = elim (or_none d.start_label) [
  | none ↦ raise no_start_label
  | some label ↦ elim (or_none d.start_key) [
    | none ↦ raise no_start_key
    | some start ↦ elim (or_none d.description_key) [
      | none ↦ raise no_end_key
      | some end ↦ return (get_relation d label start end)
    ]
  ]
]

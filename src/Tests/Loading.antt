-- ===== src/Tests/Loading.antt =====
-- The loader of databuilder/databuilder/loader on a concrete model.
use amundsen_fork.Prelude.{
  false, str_eq, str_eq_iff, arith, true, String, ◌≡◌, refl, some, [], ◌∷◌, option_eq, triple_eq,
}
use amundsen_fork.Models.Graph.{Value, str, bool, null, GraphNode, GraphRelationship}
use amundsen_fork.Publisher.{put, unquoted, create_props_param}
use amundsen_fork.Loader.{
  Loader, names, load, serialize_node, add_attributes, get_neo4j_suffix_value,
}
use amundsen_fork.Loader.RoundTrip.{
  Fits, label_and_key, read_row, create_props_param-serialize_node,
}

abbrev view_node : GraphNode
view_node = record {
  key = some "hive://gold.core/v";
  label = some "Table";
  attributes = ("name", str "v") ∷ ("is_view", bool true) ∷ [];
}

abbrev bare_node : GraphNode
bare_node = record { key = some "hive://gold.core/t"; label = some "Table"; attributes = [] }

abbrev table_of : GraphRelationship
table_of = record {
  start_label = "Schema";
  end_label = "Table";
  start_key = "hive://gold.core";
  end_key = "hive://gold.core/v";
  type = "TABLE";
  reverse_type = "TABLE_OF";
  attributes = [];
}

abbrev empty : Loader
empty = record { keys = []; node_file_mapping = []; relation_file_mapping = [] }

view_node_runs :
    names (serialize_node view_node) ≡ "LABEL" ∷ "KEY" ∷ "name" ∷ "is_view:UNQUOTED" ∷ []
unfolding serialize_node add_attributes put get_neo4j_suffix_value
view_node_runs = refl

abbrev loaded : Loader
loaded = load (view_node ∷ bare_node ∷ []) (table_of ∷ []) empty

differ : (s t : String) → str_eq s t ≡ false → ¬ (s ≡ t)
differ s t h p = ground (arith, (str_eq_iff s t).1 p)

abbrev null_node : GraphNode
null_node = record view_node { attributes = ("name", null) ∷ ("is_view", bool true) ∷ [] }

null_node-Fits : Fits (label_and_key null_node) null_node.attributes
unfolding unquoted
null_node-Fits = (
  (differ "LABEL" "name" refl, (differ "KEY" "name" refl, tt)),
  refl,
  (
    (
      differ "LABEL" "is_view" refl,
      (differ "KEY" "is_view" refl, (differ "name" "is_view" refl, tt)),
    ),
    refl,
    tt,
  ),
)

-- As pandas reads a truth value, and a text as the text that it is.
abbrev read_bool : String → Value → Value
read_bool column (bool b) = bool b
read_bool column null = str ""
read_bool column value = value

create_props_param-serialize_node_example :
    create_props_param (read_row read_bool (serialize_node null_node))
    ≡ ("LABEL", str "Table")
      ∷ ("KEY", str "hive://gold.core/v")
      ∷ ("name", str "")
      ∷ ("is_view", bool true)
      ∷ []
create_props_param-serialize_node_example =
    create_props_param-serialize_node read_bool null_node null_node-Fits

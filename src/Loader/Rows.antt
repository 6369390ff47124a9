-- ===== src/Loader/Rows.antt =====
-- databuilder/databuilder/serializers/neo4_serializer.py
use amundsen_fork.Prelude.{String, ◌<>◌, Option, none, some, List, [], ◌∷◌}
use amundsen_fork.Models.Graph.{Value, str, int, bool, null, GraphNode, GraphRelationship}
use amundsen_fork.Publisher.{Record, put}

-- `isinstance(value, int)` holds for a `bool` too.
unfoldable pub get_neo4j_suffix_value : Value → String
get_neo4j_suffix_value (int _) = ":UNQUOTED"
get_neo4j_suffix_value (bool _) = ":UNQUOTED"
get_neo4j_suffix_value (str _) = ""
get_neo4j_suffix_value null = ""

-- The loop over the attributes.
unfoldable pub add_attributes : Record → List (String × Value) → Record
add_attributes dict [] = dict
add_attributes dict ((key, value) ∷ attributes) =
    add_attributes (put (key <> get_neo4j_suffix_value value) value dict) attributes

abbrev pub or_null : Option String → Value
or_null none = null
or_null (some s) = str s

unfoldable pub serialize_node : GraphNode → Record
serialize_node node =
    add_attributes (("LABEL", or_null node.label) ∷ ("KEY", or_null node.key) ∷ []) node.attributes

unfoldable pub serialize_relationship : GraphRelationship → Record
serialize_relationship r =
    add_attributes
      (("START_KEY", str r.start_key)
        ∷ ("START_LABEL", str r.start_label)
        ∷ ("END_KEY", str r.end_key)
        ∷ ("END_LABEL", str r.end_label)
        ∷ ("TYPE", str r.type)
        ∷ ("REVERSE_TYPE", str r.reverse_type)
        ∷ [])
      r.attributes

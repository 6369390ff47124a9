-- ===== src/Tests/Tables.antt =====
-- Tables of databuilder/databuilder/models/table_metadata.py on concrete inputs.
use mathlib.Core.List.{Nodup, mem-cons_self, mem-cons_of_mem}
use amundsen_fork.Prelude.{
  map, str_eq, true, ◌+◌, String, ◌≡◌, false, none, some, [], ◌∷◌, All, length,
}
use amundsen_fork.Models.Graph.Linked.{keys, Linked}
use amundsen_fork.Models.TypeMetadata.{
  TypeMetadata, scalar_type, array_of, column, parent_key, create_node_iterator,
  create_relation_iterator,
}
use amundsen_fork.Models.TypeMetadata.Closed.{type-Linked}
use amundsen_fork.Models.Table.{
  no_tags, text, ColumnMetadata, TableMetadata, column_metadata, table_metadata, create_nodes,
  create_relations,
}
use amundsen_fork.Models.Table.Integrity.{IsKeyed, load_tables, load_tables-Linked}
use amundsen_fork.Models.Table.Valid.{IsValidNode, IsValidRelation, create-IsValid}
use amundsen_fork.Models.Table.Shared.{shared, load_tables-Nodup}
use amundsen_fork.Models.Complex.{Parser, Counts, expected_column, transform, transform-IsKeyed}

abbrev id_column : ColumnMetadata
id_column = column_metadata "id" (some "The id") "bigint" 1 (text "pk, Primary")

abbrev tags_column : ColumnMetadata
tags_column = column_metadata "tags" none "array<string>" 2 no_tags

abbrev events : TableMetadata
events =
    table_metadata "hive" "gold" "core" "events" (some "All events") (id_column ∷ tags_column ∷ [])
      false (text "Tier1, core") none []

abbrev users : TableMetadata
users = table_metadata "hive" "gold" "core" "users" none (id_column ∷ []) false no_tags none []

abbrev no_counts : Counts
no_counts = record { success_count = 0; failure_count = 0 }

abbrev string_scalar : String → TypeMetadata
string_scalar name =
    scalar_type (record { name = name; type_str = "string"; description = none; sort_order = none })

abbrev string_array : TypeMetadata
string_array =
    array_of
      (record { name = "tags"; type_str = "array<string>"; description = none; sort_order = none })
      (string_scalar "_inner_")

-- It parses the array of the second column alone.
abbrev parse_array : Parser
parse_array type name = elim (str_eq type "array<string>") [
  | true ↦ some string_array
  | false ↦ none
]

abbrev typed_events : TableMetadata
typed_events = (transform parse_array events no_counts).0

transform-IsKeyed_example :
    IsKeyed (transform parse_array events no_counts).0
    × ((transform parse_array events no_counts).0
        ≡ record events { columns = map (expected_column parse_array events) events.columns })
    × ((transform parse_array events no_counts).1.success_count ≡ 0 + 1)
    × ((transform parse_array events no_counts).1.success_count
          + (transform parse_array events no_counts).1.failure_count
        ≡ 0 + 0 + length events.columns)
unfolding table_metadata column_metadata
transform-IsKeyed_example = transform-IsKeyed parse_array events no_counts

load_tables-Linked_example :
    All
      (Linked (keys (load_tables (typed_events ∷ users ∷ []) [] []).0))
      (load_tables (typed_events ∷ users ∷ []) [] []).1
unfolding table_metadata column_metadata
load_tables-Linked_example =
    load_tables-Linked (typed_events ∷ users ∷ [])
      ((transform-IsKeyed parse_array events no_counts).0, ((tt, tt), tt))

create-IsValid_example :
    All IsValidNode (create_nodes typed_events (some "database://hive" ∷ [])).0
    × All IsValidRelation (create_relations typed_events []).0
create-IsValid_example = create-IsValid typed_events (some "database://hive" ∷ []) []

load_tables-Nodup_example : Nodup (keys (shared (load_tables (typed_events ∷ users ∷ []) [] []).0))
load_tables-Nodup_example = load_tables-Nodup (typed_events ∷ users ∷ [])

type-Linked_example :
    All
      (Linked (some "c" ∷ keys (create_node_iterator (column "c") string_array)))
      (create_relation_iterator (column "c") string_array)
unfolding create_node_iterator parent_key
type-Linked_example =
    type-Linked (some "c" ∷ keys (create_node_iterator (column "c") string_array)) (column "c")
      string_array mem-cons_self
      (mem-cons_of_mem _ mem-cons_self, (mem-cons_of_mem _ (mem-cons_of_mem _ mem-cons_self), tt))

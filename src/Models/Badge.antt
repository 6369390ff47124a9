-- ===== src/Models/Badge.antt =====
-- models/badge.py: badges, and the nodes and relations that attach them to an entity.
use amundsen_fork.Prelude.{
  String, ◌≡◌, refl, some, List, [], ◌∷◌, map, contains, if◌then◌else◌, string_eq,
}
use amundsen_fork.Prelude.Ascii.{is_empty, lower}
use amundsen_fork.Prelude.Effects.{Result, return, raise}
use amundsen_fork.Models.Graph.{str, GraphNode, GraphRelationship}

pub record Badge : Type 0 where
  pub name : String
  pub category : String

-- `Badge.__init__`
unfoldable pub badge : String → String → Badge
badge name category = record { name = lower name; category = lower category }

pub record BadgeMetadata : Type 0 where
  pub start_label : String
  pub start_key : String
  pub badges : List Badge

abbrev labels_permitted_to_have_badge : List String
labels_permitted_to_have_badge = "Table" ∷ "Dashboard" ∷ "Column" ∷ "Feature" ∷ []

-- `badges for {start_label} are not supported`
pub data BadgeError : Type 0 where
  not_supported : String → BadgeError

-- `BadgeMetadata.__init__`
unfoldable pub init : String → String → List Badge → Result BadgeError BadgeMetadata
init start_label start_key badges =
    if contains start_label labels_permitted_to_have_badge
    then return (record { start_label = start_label; start_key = start_key; badges = badges })
    else raise (not_supported start_label)

unfoldable pub get_badge_key : String → String
get_badge_key name = if is_empty name then "" else name

abbrev pub badge_node : Badge → GraphNode
badge_node b = record {
  key = some (get_badge_key b.name);
  label = some "Badge";
  attributes = ("category", str b.category) ∷ [];
}

-- A `Badge` is always true, so the test on it skips none.
unfoldable pub get_badge_nodes : BadgeMetadata → List GraphNode
get_badge_nodes m = map badge_node m.badges

abbrev pub badge_relation : BadgeMetadata → Badge → GraphRelationship
badge_relation m b = record {
  start_label = m.start_label;
  end_label = "Badge";
  start_key = m.start_key;
  end_key = get_badge_key b.name;
  type = "HAS_BADGE";
  reverse_type = "BADGE_FOR";
  attributes = [];
}

unfoldable pub get_badge_relations : BadgeMetadata → List GraphRelationship
get_badge_relations m = map (badge_relation m) m.badges

init_column :
    (k : String) (bs : List Badge)
    → init "Column" k bs ≡ return (record { start_label = "Column"; start_key = k; badges = bs })
unfolding init contains
init_column k bs = refl

-- ===== src/Search/Resources.antt =====
-- The kinds of resources of proxy/es_proxy_utils.py, and the field tables of
-- `ElasticsearchProxyV2`.
use amundsen_fork.Prelude.{String, ◌<>◌, Bool, true, false, List, [], ◌∷◌, none, some, ◌≡◌, refl}
use amundsen_fork.Prelude.Ascii.{lower}
use amundsen_fork.RestApi.{Dict, get}

pub data Resource : Type 0 where
  table : Resource
  dashboard : Resource
  feature : Resource
  user : Resource

abbrev pub same_resource : Resource → Resource → Bool
same_resource table table = true
same_resource dashboard dashboard = true
same_resource feature feature = true
same_resource user user = true
same_resource _ _ = false

-- `Resource.name`
abbrev resource_name : Resource → String
resource_name table = "TABLE"
resource_name dashboard = "DASHBOARD"
resource_name feature = "FEATURE"
resource_name user = "USER"

-- `resource.name.lower()`
unfoldable pub resource_str : Resource → String
unfolding lower
resource_str resource = lower (resource_name resource)

unfoldable pub get_index_alias_for_resource : Resource → String
get_index_alias_for_resource resource_type = resource_str resource_type <> "_search_index"

-- `RESOURCE_STR_MAPPING`
abbrev pub resource_str_mapping : Dict Resource
resource_str_mapping =
    ("table", table) ∷ ("dashboard", dashboard) ∷ ("feature", feature) ∷ ("user", user) ∷ []

-- The members of the enumeration by their names, `Resource[name]`.
abbrev pub resource_members : Dict Resource
resource_members =
    ("TABLE", table) ∷ ("DASHBOARD", dashboard) ∷ ("FEATURE", feature) ∷ ("USER", user) ∷ []

abbrev pub primary_entities : List Resource
primary_entities = table ∷ dashboard ∷ feature ∷ user ∷ []

abbrev table_mapping : Dict String
table_mapping =
    ("key", "key")
    ∷ ("badges", "badges")
    ∷ ("tag", "tags")
    ∷ ("schema", "schema.raw")
    ∷ ("table", "name.raw")
    ∷ ("column", "column_names.raw")
    ∷ ("database", "database.raw")
    ∷ ("cluster", "cluster.raw")
    ∷ ("description", "description")
    ∷ ("resource_type", "resource_type")
    ∷ []

abbrev dashboard_mapping : Dict String
dashboard_mapping =
    ("group_name", "group_name.raw")
    ∷ ("group_url", "group_url")
    ∷ ("url", "url")
    ∷ ("uri", "uri")
    ∷ ("name", "name.raw")
    ∷ ("product", "product")
    ∷ ("tag", "tags")
    ∷ ("description", "description")
    ∷ ("last_successful_run_timestamp", "last_successful_run_timestamp")
    ∷ ("resource_type", "resource_type")
    ∷ []

abbrev feature_mapping : Dict String
feature_mapping =
    ("key", "key")
    ∷ ("feature_group", "feature_group.raw")
    ∷ ("feature_name", "feature_name.raw")
    ∷ ("entity", "entity")
    ∷ ("status", "status")
    ∷ ("version", "version")
    ∷ ("availability", "availability.raw")
    ∷ ("tags", "tags")
    ∷ ("badges", "badges")
    ∷ ("description", "description")
    ∷ ("resource_type", "resource_type")
    ∷ []

abbrev user_mapping : Dict String
user_mapping =
    ("full_name", "full_name")
    ∷ ("first_name", "first_name")
    ∷ ("last_name", "last_name")
    ∷ ("email", "email")
    ∷ ("resource_type", "resource_type")
    ∷ []

-- `RESOUCE_TO_MAPPING`
unfoldable pub resource_to_mapping : Resource → Dict String
resource_to_mapping table = table_mapping
resource_to_mapping dashboard = dashboard_mapping
resource_to_mapping feature = feature_mapping
resource_to_mapping user = user_mapping

abbrev must_fields_table : List String
must_fields_table =
    "name^3" ∷ "name.raw^3" ∷ "schema^2" ∷ "description" ∷ "column_names" ∷ "badges" ∷ []

abbrev must_fields_dashboard : List String
must_fields_dashboard =
    "name.raw^75" ∷ "name^7" ∷ "group_name.raw^15" ∷ "group_name^7" ∷ "description^3"
    ∷ "query_names^3" ∷ "chart_names^2" ∷ []

abbrev must_fields_feature : List String
must_fields_feature =
    "feature_name.raw^25" ∷ "feature_name^7" ∷ "feature_group.raw^15" ∷ "feature_group^7"
    ∷ "version^7" ∷ "description^3" ∷ "status" ∷ "entity" ∷ "tags" ∷ "badges" ∷ []

abbrev must_fields_user : List String
must_fields_user =
    "full_name.raw^30" ∷ "full_name^5" ∷ "first_name.raw^5" ∷ "last_name.raw^5" ∷ "first_name^3"
    ∷ "last_name^3" ∷ "email^3" ∷ []

-- `_get_must_fields`, which has an entry for each resource.
unfoldable pub get_must_fields : Resource → List String
get_must_fields table = must_fields_table
get_must_fields dashboard = must_fields_dashboard
get_must_fields feature = must_fields_feature
get_must_fields user = must_fields_user

alias_runs : get_index_alias_for_resource dashboard ≡ "dashboard_search_index"
unfolding get_index_alias_for_resource resource_str lower
alias_runs = refl

mapping_runs : get "tag" (resource_to_mapping table) ≡ some "tags"
unfolding get resource_to_mapping
mapping_runs = refl

members_runs : get "OTHER" resource_members ≡ none
unfolding get
members_runs = refl

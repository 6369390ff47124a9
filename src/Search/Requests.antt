-- ===== src/Search/Requests.antt =====
-- The request that the frontend makes of a search: `_transform_filters` of api/search/v1.py and
-- `generate_query_request` of api/utils/search_utils.py.
use amundsen_fork.Prelude.{
  ℕ, String, List, [], ◌∷◌, ◌++◌, Option, none, some, if◌then◌else◌, contains, string_eq,
}
use amundsen_fork.Prelude.Ascii.{is_empty, split, strip}
use amundsen_fork.RestApi.{Dict, get}
use amundsen_fork.Search.Queries.{Filter}

-- `value` is missing or null where it is `none`, and `filterOperation` is missing.
pub record FieldFilters : Type 0 where
  pub value : Option String
  pub filter_operation : Option String

pub record SearchRequest : Type 0 where
  pub query_term : String
  pub resource_types : List String
  pub page_index : ℕ
  pub results_per_page : ℕ
  pub filters : List Filter

abbrev pub default_filter_operation : String
default_filter_operation = "OR"

-- `[str.strip() for str in value_str.split(',') if str != '']`
unfoldable pub stripped : List String → List String
stripped [] = []
stripped (str ∷ strs) = let rest = stripped strs in if is_empty str then rest else strip str ∷ rest

unfoldable pub operation_or_default : Option String → String
operation_or_default none = default_filter_operation
operation_or_default (some operation) = operation

-- A field without a value keeps no values and the default operation.
unfoldable pub value_filter : String → Option String → Option String → Filter
value_filter field none filter_operation = record {
  name = field;
  values = [];
  operation = default_filter_operation;
}
value_filter field (some value_str) filter_operation = record {
  name = field;
  values = stripped (split "," value_str);
  operation = operation_or_default filter_operation;
}

-- The filter of one field.
unfoldable pub field_filter : String → Option FieldFilters → Filter
field_filter field none = value_filter field none none
field_filter field (some field_filters) =
    value_filter field field_filters.value field_filters.filter_operation

unfoldable pub filters_of_fields : Dict (Option FieldFilters) → List Filter
filters_of_fields [] = []
filters_of_fields ((field, field_filters) ∷ resource_filters) =
    field_filter field field_filters ∷ filters_of_fields resource_filters

-- The filters of the request, by resource and field.
abbrev pub Filters : Type 0
Filters = Dict (Dict (Option FieldFilters))

-- `set(filters.keys()).intersection(resources)`, in the order of the dict.
unfoldable pub searched_resources_with_filters : Filters → List String → List String
searched_resources_with_filters [] resources = []
searched_resources_with_filters ((resource, resource_filters) ∷ filters) resources =
    let rest = searched_resources_with_filters filters resources in
    if contains resource resources then resource ∷ rest else rest

unfoldable pub filters_or_none : Option (Dict (Option FieldFilters)) → List Filter
filters_or_none none = []
filters_or_none (some resource_filters) = filters_of_fields resource_filters

unfoldable pub filters_of : Filters → List String → List Filter
filters_of filters [] = []
filters_of filters (resource ∷ resources) =
    filters_or_none (get resource filters) ++ filters_of filters resources

-- `set_order` is the order in which Python goes through a set.
unfoldable pub transform_filters : (List String → List String) → Filters → List String → List Filter
transform_filters set_order filters resources =
    filters_of filters (set_order (searched_resources_with_filters filters resources))

unfoldable pub generate_query_request : List Filter → List String → ℕ → ℕ → String → SearchRequest
generate_query_request filters resources page_index results_per_page search_term = record {
  query_term = search_term;
  resource_types = resources;
  page_index = page_index;
  results_per_page = results_per_page;
  filters = filters;
}

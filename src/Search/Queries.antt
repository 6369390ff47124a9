-- ===== src/Search/Queries.antt =====
-- `_build_must_query`, `_build_filters` and `_build_elasticsearch_query` of
-- `ElasticsearchProxyV2`. The queries of elasticsearch_dsl are of a type `Q` with its constructors.
use amundsen_fork.Prelude.{
  ℕ, String, str_eq, List, [], ◌∷◌, ◌++◌, map, Option, none, some, if◌then◌else◌,
}
use amundsen_fork.Prelude.Ascii.{is_empty}
use amundsen_fork.Prelude.Effects.{Result, return, raise}
use amundsen_fork.RestApi.{get}
use amundsen_fork.Search.Resources.{Resource, resource_to_mapping, get_must_fields}

-- The constructors of elasticsearch_dsl that the proxy calls. A Boolean query takes the lists of
-- `must`, `should` and `filter`, and `minimum_should_match` where it is given.
pub record Dsl (Q : Type 0) : Type 0 where
  pub multi_match : String → List String → String → Q
  pub wildcard : String → String → Q
  pub term : String → String → Q
  pub bool_query : List Q → List Q → List Q → Option ℕ → Q

pub record Filter : Type 0 where
  pub name : String
  pub values : List String
  pub operation : String

-- The exceptions of the proxy's own code; `failed` is one of the client.
pub data Failure (E : Type 0) : Type 0 where
  invalid_operation : Filter → Failure E
  request_failed : String → Failure E
  no_response : Failure E
  not_unique : Failure E
  not_found : String → Failure E
  key_error : String → Failure E
  attribute_error : String → Failure E
  value_error : Failure E
  index_error : Failure E
  failed : E → Failure E

module _ {Q : Type 0} (dsl : Dsl Q) (resource : Resource) where
  unfoldable pub build_must_query : String → List Q
  build_must_query query_term =
      if is_empty query_term
      then []
      else dsl.multi_match query_term (get_must_fields resource) "cross_fields" ∷ []

  unfoldable pub build_should_query : String → List Q
  build_should_query query_term = []

module _ {Q E : Type 0} (dsl : Dsl Q) (resource : Resource) where
  -- One round of the loop of `_build_filters`, for the field that the filter has for the resource:
  -- a filter is only applied where there is one.
  unfoldable pub filter_queries : Option String → Filter → Result (Failure E) (List Q)
  filter_queries none filter = return []
  filter_queries (some filter_name) filter =
      let queries_per_term = map (dsl.wildcard filter_name) filter.values in
      if str_eq filter.operation "OR"
      then return (dsl.bool_query [] queries_per_term [] (some 1) ∷ [])
      else if str_eq filter.operation "AND"
      then return queries_per_term
      else raise (invalid_operation filter)

  -- The queries of one round and of those after it; the first exception ends the loop.
  unfoldable pub extended :
      Result (Failure E) (List Q) → Result (Failure E) (List Q) → Result (Failure E) (List Q)
  extended (raise e) rest = raise e
  extended (return queries) (raise e) = raise e
  extended (return queries) (return more) = return (queries ++ more)

  unfoldable pub build_filters : List Filter → Result (Failure E) (List Q)
  build_filters [] = return []
  build_filters (filter ∷ filters) =
      extended (filter_queries (get filter.name (resource_to_mapping resource)) filter)
        (build_filters filters)

  unfoldable pub with_filters : String → Result (Failure E) (List Q) → Result (Failure E) Q
  with_filters query_term (raise e) = raise e
  with_filters query_term (return filters) = return (
      dsl.bool_query (build_must_query dsl resource query_term)
        (build_should_query dsl resource query_term) filters none)

  unfoldable pub build_elasticsearch_query : String → List Filter → Result (Failure E) Q
  build_elasticsearch_query query_term filters = with_filters query_term (build_filters filters)

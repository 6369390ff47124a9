-- ===== src/Search/Response.antt =====
-- `ElasticsearchProxyV2._format_response` and `search`.
use amundsen_fork.Prelude.{ℕ, String, List, [], ◌∷◌, map, Option, none, some, if◌then◌else◌}
use amundsen_fork.Prelude.Ascii.{upper, split}
use amundsen_fork.Prelude.Effects.{Action, Result, return, raise}
use amundsen_fork.RestApi.{Dict, get, set}
use amundsen_fork.Search.Resources.{
  Resource, resource_str, resource_members, resource_to_mapping, primary_entities,
}
use amundsen_fork.Search.Queries.{
  Dsl, Filter, Failure, request_failed, key_error, attribute_error, build_elasticsearch_query,
}
use amundsen_fork.Search.Hits.{text, Value, item, Hit, Response, Elasticsearch}
use amundsen_fork.Search.Execution.{Queries, set_query, execute_queries}

pub record ResourceResults (J : Type 0) : Type 0 where
  pub results : List (Dict (Value J))
  pub total_results : ℕ

pub record SearchResponse (J : Type 0) : Type 0 where
  pub msg : String
  pub page_index : ℕ
  pub results_per_page : ℕ
  pub results : Dict (ResourceResults J)
  pub status_code : ℕ

abbrev pub no_results_for_resource : {J : Type 0} → ResourceResults J
no_results_for_resource = record { results = []; total_results = 0 }

-- `field.split('.')[0]`
unfoldable pub before_dot : List String → String
before_dot [] = ""
before_dot (part ∷ parts) = part

module _ {J : Type 0} where
  -- The fields of the mapping that the document has, under their names for clients. An `AttrList`
  -- becomes a list, and an `AttrDict` a dict.
  unfoldable pub add_fields : Dict String → Dict (Value J) → Dict (Value J) → Dict (Value J)
  add_fields [] source result = result
  add_fields ((f, field) ∷ fields) source result =
      elim (get (before_dot (split "." field)) source) [
        | none ↦ add_fields fields source result
        | some result_for_field ↦ add_fields fields source (set f result_for_field result)
      ]

  unfoldable pub result_of : Resource → Hit J → Dict (Value J)
  result_of resource search_result =
      set "search_score" (item search_result.score)
        (add_fields (resource_to_mapping resource) search_result.source [])

module _ {E : Type 0} where
  -- `Resource[resource_type.upper()]`
  unfoldable pub resource_of : String → Result (Failure E) (String × Resource)
  resource_of resource_type = elim (get (upper resource_type) resource_members) [
    | none ↦ raise (key_error (upper resource_type))
    | some resource ↦ return (resource_type, resource)
  ]

abbrev pub Results : Type 0 → Type 0
Results J = Dict (ResourceResults J)

module _ {J E : Type 0} where
  -- `hits[0]._source['resource_type']`, of which `upper` is called.
  unfoldable pub resource_type_of : Option (Value J) → Result (Failure E) (String × Resource)
  resource_type_of none = raise (key_error "resource_type")
  resource_type_of (some (item (text resource_type))) = resource_of resource_type
  resource_type_of (some value) = raise (attribute_error "upper")

  unfoldable pub replace_results :
      Response J
      → Result (Failure E) (String × Resource)
      → Results J
      → Result (Failure E) (Results J)
  replace_results r (raise e) results_per_resource = raise e
  replace_results r (return (resource_type, resource)) results_per_resource = return (
      set resource_type
        (record { results = map (result_of resource) r.hits; total_results = r.total })
        results_per_resource)

  -- A response that succeeded, by its hits.
  unfoldable pub add_hits : Response J → List (Hit J) → Results J → Result (Failure E) (Results J)
  add_hits r [] results_per_resource = return results_per_resource
  add_hits r (hit ∷ hits) results_per_resource =
      replace_results r (resource_type_of (get "resource_type" hit.source)) results_per_resource

  unfoldable pub add_response : Response J → Results J → Result (Failure E) (Results J)
  add_response r results_per_resource =
      if r.success
      then add_hits r r.hits results_per_resource
      else raise (request_failed r.failures)

  unfoldable pub add_responses : List (Response J) → Results J → Result (Failure E) (Results J)
  add_responses [] results_per_resource = return results_per_resource
  add_responses (r ∷ responses) results_per_resource = elim (add_response r results_per_resource) [
    | raise e ↦ raise e
    | return more ↦ add_responses responses more
  ]

module _ {J : Type 0} where
  -- `{resource: no_results_for_resource for resource in resource_types_str}`
  unfoldable pub no_results : List Resource → Results J → Results J
  no_results [] results_per_resource = results_per_resource
  no_results (resource ∷ resource_types) results_per_resource =
      no_results resource_types
        (set (resource_str resource) no_results_for_resource results_per_resource)

-- The resources that are searched: all of them where none is given.
unfoldable pub searched : List Resource → List Resource
searched [] = primary_entities
searched (resource ∷ resource_types) = resource ∷ resource_types

module _ {J : Type 0} (page_index results_per_page : ℕ) where
  abbrev pub success_response : Results J → SearchResponse J
  success_response results = record {
    msg = "Success";
    page_index = page_index;
    results_per_page = results_per_page;
    results = results;
    status_code = 200;
  }

module _ {J E : Type 0} (page_index results_per_page : ℕ) where
  unfoldable pub formatted : Result (Failure E) (Results J) → Result (Failure E) (SearchResponse J)
  formatted (raise e) = raise e
  formatted (return results) = return (success_response page_index results_per_page results)

  unfoldable pub format_response :
      List (Response J) → List Resource → Result (Failure E) (SearchResponse J)
  format_response responses resource_types =
      formatted (add_responses responses (no_results resource_types []))

module _ {Q E : Type 0} (dsl : Dsl Q) (query_term : String) (filters : List Filter) where
  -- The loop of `search` that builds a query for each resource.
  unfoldable pub build_queries : List Resource → Queries Q → Result (Failure E) (Queries Q)
  build_queries [] queries = return queries
  build_queries (resource ∷ resource_types) queries =
      elim (build_elasticsearch_query {E = E} dsl resource query_term filters) [
        | raise e ↦ raise e
        | return query ↦ build_queries resource_types (set_query resource query queries)
      ]

module _ {W Q J E : Type 0} (elasticsearch : Elasticsearch W Q J E)
    (page_index results_per_page : ℕ) (resource_types : List Resource) where
  unfoldable pub execute_and_format :
      Result (Failure E) (Queries Q) → Action W (Failure E) (SearchResponse J)
  execute_and_format (raise e) w = (raise e, w)
  execute_and_format (return queries) w =
      let out = execute_queries elasticsearch queries page_index results_per_page w in
      (format_response page_index results_per_page out.0 resource_types, out.1)

module _ {W Q J E : Type 0} (dsl : Dsl Q) (elasticsearch : Elasticsearch W Q J E) where
  unfoldable pub search :
      String → ℕ → ℕ → List Resource → List Filter → Action W (Failure E) (SearchResponse J)
  search query_term page_index results_per_page resource_types filters w =
      execute_and_format elasticsearch page_index results_per_page (searched resource_types)
        (build_queries dsl query_term filters (searched resource_types) []) w

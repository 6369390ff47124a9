-- ===== src/Search/Endpoint.antt =====
-- `SearchAPI.post` of search_service/api/search.py, for a request that has passed its schema.
use amundsen_fork.Prelude.{String, Bool, List, [], ◌∷◌, Option, none, some, if◌then◌else◌}
use amundsen_fork.Prelude.Effects.{Action, Result, return, raise}
use amundsen_fork.RestApi.{get}
use amundsen_fork.Search.Resources.{Resource, resource_str_mapping}
use amundsen_fork.Search.Queries.{Dsl, Failure, failed}
use amundsen_fork.Search.Hits.{Elasticsearch}
use amundsen_fork.Search.Response.{SearchResponse, search}
use amundsen_fork.Search.Requests.{SearchRequest}

-- The status codes, with what is answered.
pub data Answer (E J : Type 0) : Type 0 where
  ok : SearchResponse J → Answer E J
  bad_request : String → Answer E J
  internal_server_error : Failure E → Answer E J

unfoldable pub add_resource :
    Option Resource → String → Result String (List Resource) → Result String (List Resource)
add_resource none r rest = raise r
add_resource (some resource) r (raise s) = raise s
add_resource (some resource) r (return resources) = return (resource ∷ resources)

-- The resources of the request, or the first name that is none.
unfoldable pub resources_of : List String → Result String (List Resource)
resources_of [] = return []
resources_of (r ∷ resource_types) =
    add_resource (get r resource_str_mapping) r (resources_of resource_types)

module _ {E J : Type 0} (is_runtime_error : E → Bool) where
  -- Only a `RuntimeError` is caught, and none of the proxy's own exceptions is one.
  unfoldable pub caught : Result (Failure E) (SearchResponse J) → Result (Failure E) (Answer E J)
  caught (return search_results) = return (ok search_results)
  caught (raise (failed e)) =
      if is_runtime_error e then return (internal_server_error (failed e)) else raise (failed e)
  caught (raise e) = raise e

module _ {W Q J E : Type 0} (dsl : Dsl Q) (elasticsearch : Elasticsearch W Q J E)
    (is_runtime_error : E → Bool) where
  unfoldable pub search_resources :
      SearchRequest → Result String (List Resource) → Action W (Failure E) (Answer E J)
  search_resources request_data (raise r) w = (return (bad_request r), w)
  search_resources request_data (return resources) w =
      let out =
        search dsl elasticsearch request_data.query_term request_data.page_index
          request_data.results_per_page resources request_data.filters w in
      (caught is_runtime_error out.0, out.1)

  unfoldable pub post : SearchRequest → Action W (Failure E) (Answer E J)
  post request_data = search_resources request_data (resources_of request_data.resource_types)

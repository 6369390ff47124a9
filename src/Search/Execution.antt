-- ===== src/Search/Execution.antt =====
-- `ElasticsearchProxyV2.execute_queries`.
use amundsen_fork.Prelude.{ℕ, ◌+◌, ◌*◌, List, [], ◌∷◌, if◌then◌else◌}
use amundsen_fork.Prelude.Effects.{Result, return, raise}
use amundsen_fork.Search.Resources.{Resource, same_resource, get_index_alias_for_resource}
use amundsen_fork.Search.Hits.{Response, IndexSearch, Elasticsearch}

-- A dict of Python from resources.
abbrev pub Queries : Type 0 → Type 0
Queries Q = List (Resource × Q)

module _ {Q : Type 0} where
  -- `queries[resource] = query`
  unfoldable pub set_query : Resource → Q → Queries Q → Queries Q
  set_query resource query [] = (resource, query) ∷ []
  set_query resource query ((r, q) ∷ queries) =
      let more = set_query resource query queries in
      if same_resource r resource then (resource, query) ∷ queries else (r, q) ∷ more

  -- One search of the multi-search, with its page.
  unfoldable pub page_search : ℕ → ℕ → Resource → Q → IndexSearch Q
  page_search page_index results_per_page resource query = record {
    index = get_index_alias_for_resource resource;
    query = query;
    start = page_index * results_per_page;
    stop = results_per_page * (page_index + 1);
  }

  unfoldable pub searches : Queries Q → ℕ → ℕ → List (IndexSearch Q)
  searches [] page_index results_per_page = []
  searches ((resource, query) ∷ queries) page_index results_per_page =
      page_search page_index results_per_page resource query
      ∷ searches queries page_index results_per_page

module _ {J E : Type 0} where
  -- `except Exception`: the exception is logged, and no response is given.
  unfoldable pub responses_or_none : Result E (List (Response J)) → List (Response J)
  responses_or_none (return responses) = responses
  responses_or_none (raise e) = []

module _ {W Q J E : Type 0} (elasticsearch : Elasticsearch W Q J E) where
  unfoldable pub execute_queries : Queries Q → ℕ → ℕ → W → List (Response J) × W
  execute_queries queries page_index results_per_page w =
      let out = elasticsearch.execute (searches queries page_index results_per_page) w in
      (responses_or_none out.0, out.1)

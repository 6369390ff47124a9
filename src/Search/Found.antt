-- ===== src/Search/Found.antt =====
-- `ElasticsearchProxyV2.search` as a whole: what a client finds.
use mathlib.Core.Path.{subst}
use mathlib.Core.List.{Perm}
use amundsen_fork.Prelude.{
  ℕ, ◌+◌, ◌*◌, ◌≤◌, String, ◌≡◌, refl, ◌∙◌, Bool, true, List, [], ◌∷◌, map, length, some, All,
  if◌then◌else◌,
}
use amundsen_fork.Prelude.Effects.{Result, return, raise}
use amundsen_fork.RestApi.{Dict, get, take, drop}
use amundsen_fork.Search.Resources.{Resource, resource_str, get_index_alias_for_resource}
use amundsen_fork.Search.Queries.{Dsl, Filter, Failure, build_elasticsearch_query}
use amundsen_fork.Search.Admits.{
  every, Matching, requested, Implements, build_elasticsearch_query-Implements,
}
use amundsen_fork.Search.Hits.{Value, Hit, IndexSearch, Elasticsearch}
use amundsen_fork.Search.Execution.{
  Queries, page_search, searches, responses_or_none, execute_queries,
}
use amundsen_fork.Search.Paging.{page_length}
use amundsen_fork.Search.Response.{
  Results, SearchResponse, add_responses, no_results, searched, formatted, format_response,
  build_queries, execute_and_format, search,
}
use amundsen_fork.Search.Settled.{IsOf, capped, entry_of, reply, replies}
use amundsen_fork.Search.Asked.{
  asked, proper, BuildsFor, no_results_reached, built_lem, asked-proper, built_agree,
  build_queries-BuildsFor,
}
use amundsen_fork.Search.Folded.{Settled, add_responses-Settled}

abbrev pub filter : {A : Type 0} → (A → Bool) → List A → List A
filter f [] = []
filter f (x ∷ xs) = let rest = filter f xs in if f x then x ∷ rest else rest

filter-eq :
    {A : Type 0} (f g : A → Bool) (xs : List A) → ((x : A) → f x ≡ g x) → filter f xs ≡ filter g xs
filter-eq f g [] h = refl
filter-eq f g (x ∷ xs) h = rw (h x, filter-eq f g xs h) refl

abbrev pub source_of : {J : Type 0} → Hit J → Dict (Value J)
source_of h = h.source

-- A server in a state where it answers searches for places within its window, each by a page of the
-- matching documents of the index, in some order, with their number, counted up to the window; and
-- where the documents of the index of a resource name the resource.
pub record Serves {W Q J E : Type 0} (dsl : Dsl Q) (elasticsearch : Elasticsearch W Q J E)
    (m : Matching dsl (Dict (Value J))) (w : W) : Type 0 where
  pub window : ℕ
  pub docs : String → List (Dict (Value J))
  pub ranked : String → Q → List (Hit J)
  pub ranked_docs :
      (index : String) (q : Q)
      → Perm (map source_of (ranked index q)) (filter (m.matches q) (docs index))
  pub answers :
      (ss : List (IndexSearch Q))
      → All (λ search. search.stop ≤ window) ss
      → (elasticsearch.execute ss w).0 ≡ return (map (reply window ranked) ss)
  pub typed : (r : Resource) (q : Q) → All (IsOf r) (ranked (get_index_alias_for_resource r) q)

searches-within :
    {Q : Type 0} (queries : Queries Q) (page_index results_per_page window : ℕ)
    → results_per_page * (page_index + 1) ≤ window
    → All (λ search. search.stop ≤ window) (searches queries page_index results_per_page)
unfolding searches page_search
searches-within [] page_index results_per_page window h = tt
searches-within (q ∷ queries) page_index results_per_page window h =
    (h, searches-within queries page_index results_per_page window h)

module _ {W Q J E : Type 0} (dsl : Dsl Q) (elasticsearch : Elasticsearch W Q J E)
    (m : Matching dsl (Dict (Value J))) (w : W) (s : Serves dsl elasticsearch m w)
    (query_term : String) (page_index results_per_page : ℕ) (filters : List Filter)
    (r : Resource) where
  -- The entry of the resource is the page of a list of hits, which are those of the documents that
  -- are requested, with the length of the list up to the window.
  abbrev pub FoundIn : Result (Failure E) (SearchResponse J) → Type 0
  FoundIn (raise e) = ⊥
  FoundIn (return response) =
      (hits : List (Hit J)) × Perm (map source_of hits)
        (filter (requested dsl m r query_term filters) (s.docs (get_index_alias_for_resource r)))
      × (get (resource_str r) response.results
          ≡ some (
              entry_of r (take results_per_page (drop (page_index * results_per_page) hits))
                (capped s.window (length hits))))

  ranked-requested :
      (q : Q) (i : String)
      → build_elasticsearch_query {E = E} dsl r query_term filters ≡ return q
      → Perm
          (map source_of (s.ranked i q))
          (filter (requested dsl m r query_term filters) (s.docs i))
  ranked-requested q i e =
      let same : (d : Dict (Value J)) → m.matches q d ≡ requested dsl m r query_term filters d =
        λ d.
          (subst (Implements E dsl m r query_term filters d) e
            (build_elasticsearch_query-Implements E dsl m r query_term filters d)).1 in
      subst (Perm (map source_of (s.ranked i q)))
        (filter-eq (m.matches q) (requested dsl m r query_term filters) (s.docs i) same)
        (s.ranked_docs i q)

  format-FoundIn :
      (q : Q) (out : Result (Failure E) (Results J))
      → build_elasticsearch_query {E = E} dsl r query_term filters ≡ return q
      → Settled E s.window s.ranked page_index results_per_page s.typed r q out
      → FoundIn (formatted page_index results_per_page out)
  unfolding formatted page_search
  format-FoundIn q (raise e) b h = h
  format-FoundIn q (return results) b h = (
    s.ranked (get_index_alias_for_resource r) q,
    ranked-requested q (get_index_alias_for_resource r) b,
    h ∙ rw (page_length results_per_page page_index) refl,
  )

  execute-FoundIn :
      (resource_types : List Resource) (out : Result (Failure E) (Queries Q))
      → results_per_page * (page_index + 1) ≤ s.window
      → every (proper E dsl m query_term filters) resource_types ≡ true
      → asked r resource_types ≡ true
      → BuildsFor E dsl m query_term filters r out
      → FoundIn
          (execute_and_format elasticsearch page_index results_per_page resource_types out w).0
  unfolding execute_and_format execute_queries responses_or_none format_response
  execute-FoundIn resource_types (raise e) l p a h = h
  execute-FoundIn resource_types (return queries) l p a h =
      let (q, e) =
        built_lem E dsl m query_term filters r
          (asked-proper E dsl m query_term filters r resource_types p a) in
      let within = searches-within queries page_index results_per_page s.window l in
      rw (s.answers (searches queries page_index results_per_page) within) (
        format-FoundIn q
          (add_responses (replies s.window s.ranked page_index results_per_page queries)
            (no_results resource_types []))
          e
          (add_responses-Settled E s.window s.ranked page_index results_per_page s.typed r q queries
            (no_results resource_types [])
            (built_agree E dsl m query_term filters r q e queries h.0) h.1
            (no_results_reached r resource_types [] a)))

  -- Where the server answers by pages of the matching documents, the page ends within the window, and
  -- every filter on a field of a searched resource has one of the two operations: a search returns,
  -- and for each resource that it asks for, or all resources if it asks for none, the answer has the
  -- page of a list of hits, which are in some order exactly the documents of the resource that are
  -- requested, and their number up to the window, unless the page has no hit.
  pub search-FoundIn :
      (resource_types : List Resource)
      → results_per_page * (page_index + 1) ≤ s.window
      → every (proper E dsl m query_term filters) (searched resource_types) ≡ true
      → asked r (searched resource_types) ≡ true
      → FoundIn
          (search dsl elasticsearch query_term page_index results_per_page resource_types filters
            w).0
  unfolding search
  search-FoundIn resource_types l p a =
      execute-FoundIn (searched resource_types)
        (build_queries dsl query_term filters (searched resource_types) []) l p a
        (build_queries-BuildsFor E dsl m query_term filters r (searched resource_types) [] p tt a)

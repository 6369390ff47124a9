-- ===== src/Search/Served.antt =====
-- A search of the frontend, as the search service answers it.
use amundsen_fork.Prelude.{
  ℕ, ◌+◌, ◌*◌, ◌≤◌, String, str_eq, str_eq_refl, ◌≡◌, refl, Bool, Bool-cases, true, ◌||◌, inl, inr,
  List, [], ◌∷◌, ◌++◌, Option, none, some, arith,
}
use amundsen_fork.Prelude.Effects.{Result, return, raise}
use amundsen_fork.RestApi.{Dict, get}
use amundsen_fork.Search.Resources.{Resource}
use amundsen_fork.Search.Queries.{Dsl, Filter, Failure}
use amundsen_fork.Search.Admits.{every, Matching, is_proper, field_of}
use amundsen_fork.Search.Hits.{Value, Elasticsearch}
use amundsen_fork.Search.Response.{SearchResponse, search, searched}
use amundsen_fork.Search.Asked.{asked, proper}
use amundsen_fork.Search.Found.{Serves, FoundIn, search-FoundIn}
use amundsen_fork.Search.Requests.{
  FieldFilters, Filters, SearchRequest, operation_or_default, value_filter, field_filter,
  filters_of_fields, filters_or_none, filters_of, searched_resources_with_filters,
  transform_filters, generate_query_request,
}
use amundsen_fork.Search.Endpoint.{Answer, ok, resources_of, caught, search_resources, post}

-- The operation of a filter of the frontend is missing, or one of the two that there are.
abbrev pub allowed : Option String → Bool
allowed none = true
allowed (some operation) = str_eq operation "OR" || str_eq operation "AND"

abbrev pub field_allowed : String × Option FieldFilters → Bool
field_allowed (field, none) = true
field_allowed (field, some field_filters) = allowed field_filters.filter_operation

abbrev pub all_allowed : String × Dict (Option FieldFilters) → Bool
all_allowed (resource, resource_filters) = every field_allowed resource_filters

default_proper :
    (o : Option String) (f : Filter) → str_eq f.operation "OR" ≡ true → is_proper o f ≡ true
unfolding is_proper
default_proper none f h = refl
default_proper (some x) f h = ground (arith, h)

given_proper :
    (o given : Option String) (f : Filter)
    → allowed given ≡ true
    → f.operation ≡ operation_or_default given
    → is_proper o f ≡ true
unfolding is_proper operation_or_default
given_proper none given f h e = refl
given_proper (some x) none f h e = rw (e, str_eq_refl "OR") refl
given_proper (some x) (some operation) f h e = rw e h

value_proper :
    (o : Option String) (field : String) (value operation : Option String)
    → allowed operation ≡ true
    → is_proper o (value_filter field value operation) ≡ true
unfolding value_filter
value_proper o field none operation h =
    default_proper o (value_filter field none operation) (str_eq_refl "OR")
value_proper o field (some v) operation h =
    given_proper o operation (value_filter field (some v) operation) h refl

field_proper :
    (o : Option String) (field : String) (field_filters : Option FieldFilters)
    → field_allowed (field, field_filters) ≡ true
    → is_proper o (field_filter field field_filters) ≡ true
unfolding field_filter
field_proper o field none h = value_proper o field none none refl
field_proper o field (some f) h = value_proper o field f.value f.filter_operation h

every_append :
    {A : Type 0} (P : A → Bool) (xs ys : List A)
    → every P xs ≡ true
    → every P ys ≡ true
    → every P (xs ++ ys) ≡ true
every_append P [] ys h k = k
every_append P (x ∷ xs) ys h k = ground (arith, h, every_append P xs ys (ground (arith, h)) k)

module _ (r : Resource) where
  abbrev proper_here : Filter → Bool
  proper_here f = is_proper (field_of r f) f

  fields_proper :
      (fields : Dict (Option FieldFilters))
      → every field_allowed fields ≡ true
      → every proper_here (filters_of_fields fields) ≡ true
  unfolding filters_of_fields
  fields_proper [] h = refl
  fields_proper ((field, ff) ∷ fields) h =
      let f = field_filter field ff in
      let first : proper_here f ≡ true = field_proper (field_of r f) field ff (ground (arith, h)) in
      rw first (fields_proper fields (ground (arith, h)))

  found_proper :
      (resource : String) (filters : Filters)
      → every all_allowed filters ≡ true
      → every proper_here (filters_or_none (get resource filters)) ≡ true
  unfolding get filters_or_none
  found_proper resource [] h = refl
  found_proper resource ((k, fields) ∷ filters) h = elim (Bool-cases (str_eq k resource)) [
    | inl e ↦ rw e (fields_proper fields (ground (arith, h)))
    | inr n ↦ rw n (found_proper resource filters (ground (arith, h)))
  ]

  filters_of-proper :
      (filters : Filters) (resources : List String)
      → every all_allowed filters ≡ true
      → every proper_here (filters_of filters resources) ≡ true
  unfolding filters_of
  filters_of-proper filters [] h = refl
  filters_of-proper filters (resource ∷ resources) h =
      every_append proper_here (filters_or_none (get resource filters))
        (filters_of filters resources) (found_proper resource filters h)
        (filters_of-proper filters resources h)

every-all : {A : Type 0} (P : A → Bool) (xs : List A) → ((x : A) → P x ≡ true) → every P xs ≡ true
every-all P [] h = refl
every-all P (x ∷ xs) h = rw (h x) (every-all P xs h)

module _ {W Q J E : Type 0} (dsl : Dsl Q) (elasticsearch : Elasticsearch W Q J E)
    (m : Matching dsl (Dict (Value J))) (w : W) (s : Serves dsl elasticsearch m w)
    (is_runtime_error : E → Bool) (set_order : List String → List String) (filters : Filters)
    (resources : List String) (page_index results_per_page : ℕ) (search_term : String) where
  abbrev pub transformed : List Filter
  transformed = transform_filters set_order filters resources

  abbrev pub query_request : SearchRequest
  query_request =
      generate_query_request transformed resources page_index results_per_page search_term

  -- The request is answered, and the answer has the entry of the resource.
  abbrev pub Served : Resource → Result (Failure E) (Answer E J) → Type 0
  Served r (return (ok response)) =
      FoundIn dsl elasticsearch m w s search_term page_index results_per_page transformed r
        (return response)
  Served r _ = ⊥

  caught-Served :
      (r : Resource) (out : Result (Failure E) (SearchResponse J))
      → FoundIn dsl elasticsearch m w s search_term page_index results_per_page transformed r out
      → Served r (caught is_runtime_error out)
  unfolding caught
  caught-Served r (return response) h = h
  caught-Served r (raise e) h = absurd h

  -- Where the server answers searches within its window by pages of the matching documents, the
  -- documents of the index of a resource name that resource, the page ends within the window, and
  -- the operations of the filters are missing, OR or AND: a search of the frontend for names of
  -- resources is answered with status 200, and for each of these resources, or each resource if
  -- there is no name, the answer has the page of a list of hits, in some order exactly the documents
  -- that its transformed filters and its term request, and their number, counted up to the window,
  -- unless the page has no hit.
  pub post-Served :
      (r : Resource) (resource_types : List Resource)
      → results_per_page * (page_index + 1) ≤ s.window
      → resources_of resources ≡ return resource_types
      → every all_allowed filters ≡ true
      → asked r (searched resource_types) ≡ true
      → Served r (post dsl elasticsearch is_runtime_error query_request w).0
  unfolding post search_resources generate_query_request transform_filters
  post-Served r resource_types l e h a =
      let names = set_order (searched_resources_with_filters filters resources) in
      let ok_here : every (proper E dsl m search_term transformed) (searched resource_types)
          ≡ true =
        every-all (proper E dsl m search_term transformed) (searched resource_types)
          (λ t. filters_of-proper t filters names h) in
      rw e (
        caught-Served r
          (search dsl elasticsearch search_term page_index results_per_page resource_types
            transformed w).0
          (search-FoundIn dsl elasticsearch m w s search_term page_index results_per_page
            transformed r resource_types l ok_here a))

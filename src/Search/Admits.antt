-- ===== src/Search/Admits.antt =====
-- What the built query asks of a document, told without queries: the term, and for each filter
-- on a field of the resource some of its values, or all of them.
use amundsen_fork.Prelude.{
  String, str_eq, Bool, Bool-cases, true, false, ◌&&◌, ◌||◌, List, [], ◌∷◌, ◌++◌, map, Option, none,
  some, if◌then◌else◌, ◌≡◌, refl, inl, inr, arith, ◌∙◌,
}
use amundsen_fork.Prelude.Ascii.{is_empty}
use amundsen_fork.Prelude.Effects.{Result, return, raise}
use amundsen_fork.RestApi.{get}
use amundsen_fork.Search.Resources.{Resource, resource_to_mapping, get_must_fields}
use amundsen_fork.Search.Queries.{
  Dsl, Filter, Failure, filter_queries, extended, build_filters, with_filters, build_must_query,
  build_should_query, build_elasticsearch_query,
}

module _ {A : Type 0} where
  abbrev pub every : (A → Bool) → List A → Bool
  every f [] = true
  every f (x ∷ xs) = f x && every f xs

  abbrev pub some_of : (A → Bool) → List A → Bool
  some_of f [] = false
  some_of f (x ∷ xs) = f x || some_of f xs

-- Which documents match a query. What Elasticsearch documents of Boolean queries: all clauses of
-- `must` and `filter` match; where one of at least one `should` clause has to, one does; and a
-- query without clauses matches every document.
pub record Matching {Q : Type 0} (dsl : Dsl Q) (D : Type 0) : Type 0 where
  pub matches : Q → D → Bool
  pub all_match :
      (must filter : List Q) (d : D)
      → matches (dsl.bool_query must [] filter none) d
        ≡ (every (λ q. matches q d) must && every (λ q. matches q d) filter)
  pub one_matches :
      (q : Q) (qs : List Q) (d : D)
      → matches (dsl.bool_query [] (q ∷ qs) [] (some 1)) d ≡ some_of (λ q. matches q d) (q ∷ qs)
  pub no_clause : (d : D) → matches (dsl.bool_query [] [] [] (some 1)) d ≡ true

module _ {Q D : Type 0} (dsl : Dsl Q) (m : Matching dsl D) (resource : Resource) where
  -- The document has a value of the field that matches the pattern.
  abbrev has_value : String → D → String → Bool
  has_value field d value = m.matches (dsl.wildcard field value) d

  unfoldable pub some_value : String → List String → D → Bool
  some_value field [] d = true
  some_value field (v ∷ vs) d = some_of (has_value field d) (v ∷ vs)

  unfoldable pub satisfies : Filter → String → D → Bool
  satisfies filter field d =
      if str_eq filter.operation "OR"
      then some_value field filter.values d
      else every (has_value field d) filter.values

  unfoldable pub admits : Option String → Filter → D → Bool
  admits none filter d = true
  admits (some field) filter d = satisfies filter field d

  unfoldable pub has_term : String → D → Bool
  has_term query_term d =
      if is_empty query_term
      then true
      else m.matches (dsl.multi_match query_term (get_must_fields resource) "cross_fields") d

  unfoldable pub requested : String → List Filter → D → Bool
  requested query_term filters d =
      has_term query_term d
      && every (λ f. admits (get f.name (resource_to_mapping resource)) f d) filters

-- The filter is not on a field of the resource, or has one of the two operations.
unfoldable pub is_proper : Option String → Filter → Bool
is_proper none filter = true
is_proper (some field) filter = str_eq filter.operation "OR" || str_eq filter.operation "AND"

module _ {Q D : Type 0} (dsl : Dsl Q) (m : Matching dsl D) where
  every-append :
      (qs rs : List Q) (d : D)
      → every (λ q. m.matches q d) (qs ++ rs)
        ≡ (every (λ q. m.matches q d) qs && every (λ q. m.matches q d) rs)
  every-append [] rs d = refl
  every-append (q ∷ qs) rs d = ground (arith, every-append qs rs d)

  every-map :
      (field : String) (vs : List String) (d : D)
      → every (λ q. m.matches q d) (map (dsl.wildcard field) vs)
        ≡ every (λ v. m.matches (dsl.wildcard field v) d) vs
  every-map field [] d = refl
  every-map field (v ∷ vs) d = ground (arith, every-map field vs d)

  some_of-map :
      (field : String) (vs : List String) (d : D)
      → some_of (λ q. m.matches q d) (map (dsl.wildcard field) vs)
        ≡ some_of (λ v. m.matches (dsl.wildcard field v) d) vs
  some_of-map field [] d = refl
  some_of-map field (v ∷ vs) d = ground (arith, some_of-map field vs d)

  or_query :
      (resource : Resource) (field : String) (vs : List String) (d : D)
      → m.matches (dsl.bool_query [] (map (dsl.wildcard field) vs) [] (some 1)) d
        ≡ some_value dsl m resource field vs d
  unfolding some_value
  or_query resource field [] d = m.no_clause d
  or_query resource field (v ∷ vs) d =
      rw (m.one_matches (dsl.wildcard field v) (map (dsl.wildcard field) vs) d)
        (some_of-map field (v ∷ vs) d)

module _ {Q D : Type 0} (dsl : Dsl Q) (m : Matching dsl D) (resource : Resource) where
  term-Implements :
      (query_term : String) (d : D)
      → every (λ q. m.matches q d) (build_must_query dsl resource query_term)
        ≡ has_term dsl m resource query_term d
  unfolding build_must_query has_term
  term-Implements query_term d = ground arith

-- The field of the filter for the resource.
abbrev pub field_of : Resource → Filter → Option String
field_of resource filter = get filter.name (resource_to_mapping resource)

module _ (E : Type 0) {Q D : Type 0} (dsl : Dsl Q) (m : Matching dsl D) (resource : Resource) where
  -- Queries that match what the filter admits, or an operation that there is not.
  abbrev pub FilterImplements : Option String → Filter → D → Result (Failure E) (List Q) → Type 0
  FilterImplements field filter d (return qs) =
      (is_proper field filter ≡ true)
      × (every (λ q. m.matches q d) qs ≡ admits dsl m resource field filter d)
  FilterImplements field filter d (raise e) = is_proper field filter ≡ false

  filter_queries-Implements :
      (field : Option String) (filter : Filter) (d : D)
      → FilterImplements field filter d (filter_queries dsl resource field filter)
  unfolding filter_queries admits satisfies is_proper
  filter_queries-Implements none filter d = (refl, refl)
  filter_queries-Implements (some field) filter d =
      elim (Bool-cases (str_eq filter.operation "OR")) [
        | inl o ↦
            rw o
              (ground (arith, o), ground (arith, o, or_query dsl m resource field filter.values d))
        | inr o ↦ rw o (elim (Bool-cases (str_eq filter.operation "AND")) [
          | inl a ↦
              rw a (ground (arith, a), ground (arith, o, every-map dsl m field filter.values d))
          | inr a ↦ rw a (ground (arith, o, a))
        ])
      ]

  abbrev pub FiltersImplement : List Filter → D → Result (Failure E) (List Q) → Type 0
  FiltersImplement filters d (return qs) =
      (every (λ f. is_proper (field_of resource f) f) filters ≡ true)
      × (every (λ q. m.matches q d) qs
          ≡ every (λ f. admits dsl m resource (field_of resource f) f d) filters)
  FiltersImplement filters d (raise e) =
      every (λ f. is_proper (field_of resource f) f) filters ≡ false

  extended-Implement :
      (f : Filter) (fs : List Filter) (d : D) (one rest : Result (Failure E) (List Q))
      → FilterImplements (field_of resource f) f d one
      → FiltersImplement fs d rest
      → FiltersImplement (f ∷ fs) d (extended dsl resource one rest)
  unfolding extended
  extended-Implement f fs d (raise e) rest h k = ground (arith, h)
  extended-Implement f fs d (return qs) (raise e) h k = ground (arith, k)
  extended-Implement f fs d (return qs) (return rs) h k =
      (ground (arith, h.0, k.0), ground (arith, every-append dsl m qs rs d, h.1, k.1))

  build_filters-Implement :
      (filters : List Filter) (d : D)
      → FiltersImplement filters d (build_filters dsl resource filters)
  unfolding build_filters
  build_filters-Implement [] d = (refl, refl)
  build_filters-Implement (f ∷ fs) d =
      extended-Implement f fs d (filter_queries dsl resource (field_of resource f) f)
        (build_filters dsl resource fs) (filter_queries-Implements (field_of resource f) f d)
        (build_filters-Implement fs d)

  -- A query that matches exactly the documents that are requested, where every filter is proper,
  -- and an exception otherwise.
  abbrev pub Implements : String → List Filter → D → Result (Failure E) Q → Type 0
  Implements query_term filters d (return q) =
      (every (λ f. is_proper (field_of resource f) f) filters ≡ true)
      × (m.matches q d ≡ requested dsl m resource query_term filters d)
  Implements query_term filters d (raise e) =
      every (λ f. is_proper (field_of resource f) f) filters ≡ false

  with_filters-Implements :
      (query_term : String) (filters : List Filter) (d : D) (built : Result (Failure E) (List Q))
      → FiltersImplement filters d built
      → Implements query_term filters d (with_filters dsl resource query_term built)
  unfolding with_filters requested build_should_query
  with_filters-Implements query_term filters d (raise e) h = h
  with_filters-Implements query_term filters d (return qs) h = (
    h.0,
    m.all_match (build_must_query dsl resource query_term) qs d
        ∙ (rw (h.1, term-Implements dsl m resource query_term d) refl),
  )

  -- Building the query of a resource raises an exception exactly when some filter on a field of
  -- the resource has another operation than OR and AND. Otherwise the query matches a document
  -- exactly if the term, unless it is empty, matches it, and each filter on a field of the
  -- resource is satisfied: by some of its values for OR, if there are any, and by all for AND.
  pub build_elasticsearch_query-Implements :
      (query_term : String) (filters : List Filter) (d : D)
      → Implements query_term filters d (build_elasticsearch_query dsl resource query_term filters)
  unfolding build_elasticsearch_query
  build_elasticsearch_query-Implements query_term filters d =
      with_filters-Implements query_term filters d (build_filters dsl resource filters)
        (build_filters-Implement filters d)

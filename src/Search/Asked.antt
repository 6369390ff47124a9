-- ===== src/Search/Asked.antt =====
-- The entries and the queries that `ElasticsearchProxyV2.search` starts from.
use mathlib.Core.Path.{subst}
use amundsen_fork.Prelude.{
  String, ◌≡◌, refl, ◌∙◌, Bool, Bool-cases, true, false, ◌||◌, inl, inr, List, [], ◌∷◌, some, All,
  arith,
}
use amundsen_fork.Prelude.Effects.{Result, return, raise, Result-cases}
use amundsen_fork.RestApi.{Dict, get, set}
use amundsen_fork.RestApi.Merged.{get-set}
use amundsen_fork.Search.Resources.{Resource, same_resource, resource_str}
use amundsen_fork.Search.Queries.{Dsl, Filter, Failure, build_elasticsearch_query}
use amundsen_fork.Search.Admits.{
  every, some_of, Matching, is_proper, field_of, Implements, build_elasticsearch_query-Implements,
}
use amundsen_fork.Search.Hits.{Value}
use amundsen_fork.Search.Execution.{Queries, set_query}
use amundsen_fork.Search.Response.{Results, no_results_for_resource, no_results, build_queries}
use amundsen_fork.Search.Settled.{same_resource-resource_str, same_resource_sound}
use amundsen_fork.Search.Folded.{holds, Agrees}

-- The resource is one of the list.
abbrev pub asked : Resource → List Resource → Bool
asked r resource_types = some_of (λ s. same_resource s r) resource_types

module _ {J : Type 0} (r : Resource) where
  no_results_kept :
      (resource_types : List Resource) (acc : Results J)
      → get (resource_str r) acc ≡ some no_results_for_resource
      → get (resource_str r) (no_results resource_types acc) ≡ some no_results_for_resource
  unfolding no_results
  no_results_kept [] acc h = h
  no_results_kept (s ∷ resource_types) acc h =
      no_results_kept resource_types (set (resource_str s) no_results_for_resource acc)
        (ground (arith, get-set (resource_str r) (resource_str s) no_results_for_resource acc, h))

  pub no_results_reached :
      (resource_types : List Resource) (acc : Results J)
      → asked r resource_types ≡ true
      → get (resource_str r) (no_results resource_types acc) ≡ some no_results_for_resource
  unfolding no_results
  no_results_reached [] acc e = cc
  no_results_reached (s ∷ resource_types) acc e =
      let next = set (resource_str s) no_results_for_resource acc in
      let now = get-set (resource_str r) (resource_str s) no_results_for_resource acc in
      elim (Bool-cases (same_resource s r)) [
        | inl t ↦
            no_results_kept resource_types next (now ∙ rw (same_resource-resource_str s r, t) refl)
        | inr n ↦ no_results_reached resource_types next (ground (arith, e, n))
      ]

module _ {Q : Type 0} where
  set_query-holds :
      (r s : Resource) (q : Q) (queries : Queries Q)
      → holds r (set_query s q queries) ≡ (same_resource s r || holds r queries)
  unfolding set_query
  set_query-holds r s q [] = refl
  set_query-holds r s q ((t, p) ∷ queries) = elim (Bool-cases (same_resource t s)) [
    | inl e ↦ rw (e, same_resource_sound t s e) (ground arith)
    | inr n ↦ rw n (ground (arith, set_query-holds r s q queries))
  ]

  set_query-All :
      (P : Resource × Q → Type 0) (s : Resource) (q : Q) (queries : Queries Q)
      → All P queries
      → P (s, q)
      → All P (set_query s q queries)
  unfolding set_query
  set_query-All P s q [] h k = (k, tt)
  set_query-All P s q ((t, p) ∷ queries) h k = elim (Bool-cases (same_resource t s)) [
    | inl e ↦ rw e (k, h.1)
    | inr n ↦ rw n (h.0, set_query-All P s q queries h.1 k)
  ]

module _ (E : Type 0) {Q J : Type 0} (dsl : Dsl Q) (m : Matching dsl (Dict (Value J)))
    (query_term : String) (filters : List Filter) where
  -- Every filter on a field of the resource has one of the two operations.
  abbrev pub proper : Resource → Bool
  proper r = every (λ f. is_proper (field_of r f) f) filters

  abbrev pub built : Resource → Result (Failure E) Q
  built r = build_elasticsearch_query dsl r query_term filters

  abbrev pub Built : Resource × Q → Type 0
  Built p = built p.0 ≡ return p.1

  pub built_lem : (r : Resource) → proper r ≡ true → (q : Q) × (built r ≡ return q)
  built_lem r h = elim (Result-cases (built r)) [
    | inl found ↦ found
    | inr (e, k) ↦
        let bad : proper r ≡ false =
          subst (Implements E dsl m r query_term filters []) k
            (build_elasticsearch_query-Implements E dsl m r query_term filters []) in
        ground (arith, h, bad)
  ]

  pub asked-proper :
      (r : Resource) (resource_types : List Resource)
      → every proper resource_types ≡ true
      → asked r resource_types ≡ true
      → proper r ≡ true
  asked-proper r [] p a = cc
  asked-proper r (s ∷ resource_types) p a = elim (Bool-cases (same_resource s r)) [
    | inl e ↦ rw (← same_resource_sound s r e) (ground (arith, p))
    | inr n ↦ asked-proper r resource_types (ground (arith, p)) (ground (arith, a, n))
  ]

  -- The queries of one resource are the same.
  pub built_agree :
      (r : Resource) (q : Q)
      → built r ≡ return q
      → (queries : Queries Q) → All Built queries
      → All (Agrees r q) queries
  built_agree r q e [] b = tt
  built_agree r q e ((s, p) ∷ queries) b =
      ((λ t. same_query p (rw (← same_resource_sound s r t) b.0)), built_agree r q e queries b.1)
    where
      same_query : (p : Q) → built r ≡ return p → p ≡ q
      same_query p h = cc

  -- A query for each resource that is asked for.
  abbrev pub BuildsFor : Resource → Result (Failure E) (Queries Q) → Type 0
  BuildsFor r (return queries) = All Built queries × (holds r queries ≡ true)
  BuildsFor r (raise e) = ⊥

  pub build_queries-BuildsFor :
      (r : Resource) (resource_types : List Resource) (queries : Queries Q)
      → every proper resource_types ≡ true
      → All Built queries
      → (holds r queries || asked r resource_types) ≡ true
      → BuildsFor r (build_queries dsl query_term filters resource_types queries)
  unfolding build_queries
  build_queries-BuildsFor r [] queries h b k = (b, ground (arith, k))
  build_queries-BuildsFor r (s ∷ resource_types) queries h b k =
      let (q, e) = built_lem s (ground (arith, h)) in
      rw (e, build_queries)
        (build_queries-BuildsFor r resource_types (set_query s q queries) (ground (arith, h))
          (set_query-All Built s q queries b e) (ground (arith, set_query-holds r s q queries, k)))

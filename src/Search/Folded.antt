-- ===== src/Search/Folded.antt =====
-- The entry of a resource once all responses are formatted.
use amundsen_fork.Prelude.{
  ℕ, String, ◌≡◌, ◌∙◌, Bool, Bool-cases, true, false, ◌||◌, inl, inr, ◌⊎◌, List, [], ◌∷◌, some, All,
  length, arith,
}
use amundsen_fork.Prelude.Effects.{Result, return, raise}
use amundsen_fork.RestApi.{get}
use amundsen_fork.Search.Resources.{
  Resource, same_resource, resource_str, get_index_alias_for_resource,
}
use amundsen_fork.Search.Queries.{Failure}
use amundsen_fork.Search.Hits.{Hit}
use amundsen_fork.Search.Execution.{Queries, page_search, searches}
use amundsen_fork.Search.Paging.{slice}
use amundsen_fork.Search.Response.{Results, no_results_for_resource, add_responses}
use amundsen_fork.Search.Settled.{
  capped, IsOf, same_resource_sound, expected, hits_of, put, put_same, put_other, replies,
  add_responses-put,
}

-- The resource has a query.
abbrev pub holds : {Q : Type 0} → Resource → Queries Q → Bool
holds r [] = false
holds r ((s, q) ∷ queries) = same_resource s r || holds r queries

-- The query of the same resource is the same.
abbrev pub Agrees : {Q : Type 0} → Resource → Q → Resource × Q → Type 0
Agrees r q p = same_resource p.0 r ≡ true → p.1 ≡ q

module _ (E : Type 0) {Q J : Type 0} (window : ℕ) (ranked : String → Q → List (Hit J))
    (page_index results_per_page : ℕ)
    (typed : (r : Resource) (q : Q) → All (IsOf r) (ranked (get_index_alias_for_resource r) q))
    (r : Resource) (q : Q) where
  abbrev Done : Results J → Type 0
  Done acc =
      get (resource_str r) acc ≡ some (expected window ranked page_index results_per_page r q)

  abbrev Waits : Results J → Type 0
  Waits acc = get (resource_str r) acc ≡ some no_results_for_resource

  -- All responses are formatted, and the resource has its entry.
  abbrev pub Settled : Result (Failure E) (Results J) → Type 0
  Settled (return acc) = Done acc
  Settled (raise e) = ⊥

  put-Done :
      (s : Resource) (p : Q) (acc : Results J)
      → Agrees r q (s, p)
      → same_resource s r ≡ true
      → Waits acc ⊎ Done acc
      → Done (put window ranked page_index results_per_page s p acc)
  unfolding put
  put-Done s p acc a h k =
      rw (same_resource_sound s r h, a h)
        (put_same r
          (slice (page_search page_index results_per_page r q) (hits_of window ranked r q))
          (capped window (length (hits_of window ranked r q))) acc k)

  put_else :
      (s : Resource) (p : Q) (acc : Results J)
      → same_resource s r ≡ false
      → get (resource_str r) (put window ranked page_index results_per_page s p acc)
        ≡ get (resource_str r) acc
  unfolding put
  put_else s p acc n =
      put_other r s
        (slice (page_search page_index results_per_page s p) (hits_of window ranked s p))
        (capped window (length (hits_of window ranked s p))) acc n

  kept :
      (queries : Queries Q) (acc : Results J)
      → All (Agrees r q) queries
      → Done acc
      → Settled (add_responses (replies window ranked page_index results_per_page queries) acc)
  unfolding add_responses searches
  kept [] acc a h = h
  kept ((s, p) ∷ queries) acc a h =
      rw (add_responses-put {E = E} window ranked page_index results_per_page typed s p queries acc)
        (kept queries (put window ranked page_index results_per_page s p acc) a.1
          (elim (Bool-cases (same_resource s r)) [
            | inl e ↦ put-Done s p acc a.0 e (inr h)
            | inr n ↦ put_else s p acc n ∙ h
          ]))

  pub add_responses-Settled :
      (queries : Queries Q) (acc : Results J)
      → All (Agrees r q) queries
      → holds r queries ≡ true
      → Waits acc
      → Settled (add_responses (replies window ranked page_index results_per_page queries) acc)
  add_responses-Settled [] acc a e h = cc
  add_responses-Settled ((s, p) ∷ queries) acc a e h =
      let next = put window ranked page_index results_per_page s p acc in
      rw (add_responses-put {E = E} window ranked page_index results_per_page typed s p queries acc)
        (elim (Bool-cases (same_resource s r)) [
          | inl t ↦ kept queries next a.1 (put-Done s p acc a.0 t (inl h))
          | inr n ↦
              add_responses-Settled queries next a.1 (ground (arith, e, n)) (put_else s p acc n ∙ h)
        ])

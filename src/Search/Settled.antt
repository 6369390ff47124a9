-- ===== src/Search/Settled.antt =====
-- What `_format_response` makes of the responses to the searches of some resources.
use amundsen_fork.Prelude.{
  ℕ, zero, suc, String, str_eq, str_eq_refl, ◌-◌, ◌≡◌, refl, ◌∙◌, Bool, true, false, ◌||◌, inl, inr,
  ◌⊎◌, List, [], ◌∷◌, map, some, length, All, ltb, if◌then◌else◌,
}
use amundsen_fork.Prelude.Ascii.{lower, upper}
use amundsen_fork.Prelude.Effects.{return}
use amundsen_fork.RestApi.{get, set, take, drop}
use amundsen_fork.RestApi.Merged.{get-set}
use amundsen_fork.Search.Resources.{
  Resource, table, dashboard, feature, user, same_resource, resource_str,
  get_index_alias_for_resource,
}
use amundsen_fork.Search.Hits.{text, item, Hit, Response, IndexSearch}
use amundsen_fork.Search.Execution.{Queries, page_search, searches}
use amundsen_fork.Search.Paging.{slice}
use amundsen_fork.Search.Response.{
  ResourceResults, Results, no_results_for_resource, result_of, resource_of, resource_type_of,
  replace_results, add_hits, add_response, add_responses,
}

pub same_resource_sound : (r s : Resource) → same_resource r s ≡ true → r ≡ s
same_resource_sound table table h = refl
same_resource_sound dashboard dashboard h = refl
same_resource_sound feature feature h = refl
same_resource_sound user user h = refl
same_resource_sound table dashboard h = cc
same_resource_sound table feature h = cc
same_resource_sound table user h = cc
same_resource_sound dashboard table h = cc
same_resource_sound dashboard feature h = cc
same_resource_sound dashboard user h = cc
same_resource_sound feature table h = cc
same_resource_sound feature dashboard h = cc
same_resource_sound feature user h = cc
same_resource_sound user table h = cc
same_resource_sound user dashboard h = cc
same_resource_sound user feature h = cc

pub same_resource-resource_str :
    (r s : Resource) → str_eq (resource_str r) (resource_str s) ≡ same_resource r s
unfolding resource_str lower
same_resource-resource_str table table = refl
same_resource-resource_str table dashboard = refl
same_resource-resource_str table feature = refl
same_resource-resource_str table user = refl
same_resource-resource_str dashboard table = refl
same_resource-resource_str dashboard dashboard = refl
same_resource-resource_str dashboard feature = refl
same_resource-resource_str dashboard user = refl
same_resource-resource_str feature table = refl
same_resource-resource_str feature dashboard = refl
same_resource-resource_str feature feature = refl
same_resource-resource_str feature user = refl
same_resource-resource_str user table = refl
same_resource-resource_str user dashboard = refl
same_resource-resource_str user feature = refl
same_resource-resource_str user user = refl

module _ {E : Type 0} where
  resource_of-resource_str :
      (r : Resource) → resource_of {E = E} (resource_str r) ≡ return (resource_str r, r)
  unfolding resource_of resource_str lower upper get
  resource_of-resource_str table = refl
  resource_of-resource_str dashboard = refl
  resource_of-resource_str feature = refl
  resource_of-resource_str user = refl

-- A hit of the index of the resource, which names it.
abbrev pub IsOf : {J : Type 0} → Resource → Hit J → Type 0
IsOf {J} r h = get "resource_type" h.source ≡ some (item (text (resource_str r)))

module _ {J : Type 0} where
  -- The entry of a resource for the hits of a page and the number of all of them. A page without
  -- hits leaves the entry that there is: no results, of none.
  abbrev pub entry_of : Resource → List (Hit J) → ℕ → ResourceResults J
  entry_of r [] total = no_results_for_resource
  entry_of r (h ∷ hits) total = record {
    results = map (result_of r) (h ∷ hits);
    total_results = total;
  }

  pub put_entry : Resource → List (Hit J) → ℕ → Results J → Results J
  put_entry r [] total acc = acc
  put_entry r (h ∷ hits) total acc = set (resource_str r) (entry_of r (h ∷ hits) total) acc

  abbrev answer : List (Hit J) → ℕ → Response J
  answer hits total = record { success = true; failures = ""; hits = hits; total = total }

module _ {J E : Type 0} where
  add_response-answer :
      (r : Resource) (hits : List (Hit J)) (total : ℕ) (acc : Results J)
      → All (IsOf r) hits
      → add_response {E = E} (answer hits total) acc ≡ return (put_entry r hits total acc)
  unfolding add_response add_hits replace_results resource_type_of put_entry
  add_response-answer r [] total acc h = refl
  add_response-answer r (hit ∷ hits) total acc h = rw (h.0, resource_of-resource_str {E = E} r) refl

module _ {A : Type 0} (P : A → Type 0) where
  All-take : (n : ℕ) (xs : List A) → All P xs → All P (take n xs)
  All-take zero xs h = tt
  All-take (suc n) [] h = tt
  All-take (suc n) (x ∷ xs) h = (h.0, All-take n xs h.1)

  All-drop : (n : ℕ) (xs : List A) → All P xs → All P (drop n xs)
  All-drop zero xs h = h
  All-drop (suc n) [] h = tt
  All-drop (suc n) (x ∷ xs) h = All-drop n xs h.1

-- Elasticsearch counts hits up to a limit only.
abbrev pub capped : ℕ → ℕ → ℕ
capped window n = if ltb window n then window else n

module _ {Q J : Type 0} (window : ℕ) (ranked : String → Q → List (Hit J)) where
  -- What an index answers whose hits for a query are `ranked`, and which counts no more of them than
  -- its window has places.
  abbrev pub reply : IndexSearch Q → Response J
  reply s = record {
    success = true;
    failures = "";
    hits = slice s (ranked s.index s.query);
    total = capped window (length (ranked s.index s.query));
  }

  abbrev pub hits_of : Resource → Q → List (Hit J)
  hits_of r q = ranked (get_index_alias_for_resource r) q

module _ {Q J : Type 0} (window : ℕ) (ranked : String → Q → List (Hit J))
    (page_index results_per_page : ℕ) where
  -- The entry of a resource.
  abbrev pub expected : Resource → Q → ResourceResults J
  expected r q =
      entry_of r (slice (page_search page_index results_per_page r q) (hits_of window ranked r q))
        (capped window (length (hits_of window ranked r q)))

-- The resource has a query.
abbrev pub holds : {Q : Type 0} → Resource → Queries Q → Bool
holds r [] = false
holds r ((s, q) ∷ queries) = same_resource s r || holds r queries

module _ {J : Type 0} (r : Resource) where
  pub put_same :
      (hits : List (Hit J)) (total : ℕ) (acc : Results J)
      → (get (resource_str r) acc ≡ some no_results_for_resource)
        ⊎ (get (resource_str r) acc ≡ some (entry_of r hits total))
      → get (resource_str r) (put_entry r hits total acc) ≡ some (entry_of r hits total)
  unfolding put_entry
  put_same [] total acc (inl h) = h
  put_same [] total acc (inr h) = h
  put_same (h ∷ hits) total acc k =
      get-set (resource_str r) (resource_str r) (entry_of r (h ∷ hits) total) acc
      ∙ rw (str_eq_refl (resource_str r)) refl

  pub put_other :
      (s : Resource) (hits : List (Hit J)) (total : ℕ) (acc : Results J)
      → same_resource s r ≡ false
      → get (resource_str r) (put_entry s hits total acc) ≡ get (resource_str r) acc
  unfolding put_entry
  put_other s [] total acc n = refl
  put_other s (h ∷ hits) total acc n =
      get-set (resource_str r) (resource_str s) (entry_of s (h ∷ hits) total) acc
      ∙ rw (same_resource-resource_str s r, n) refl

module _ {Q J : Type 0} (window : ℕ) (ranked : String → Q → List (Hit J))
    (page_index results_per_page : ℕ) where
  unfoldable pub put : Resource → Q → Results J → Results J
  put s p acc =
      put_entry s (slice (page_search page_index results_per_page s p) (hits_of window ranked s p))
        (capped window (length (hits_of window ranked s p))) acc

  -- The responses to the searches of some resources.
  abbrev pub replies : Queries Q → List (Response J)
  replies queries = map (reply window ranked) (searches queries page_index results_per_page)

module _ {Q J E : Type 0} (window : ℕ) (ranked : String → Q → List (Hit J))
    (page_index results_per_page : ℕ)
    (typed : (r : Resource) (q : Q)
      → All (IsOf r) (ranked (get_index_alias_for_resource r) q)) where
  pub add_responses-put :
      (s : Resource) (p : Q) (queries : Queries Q) (acc : Results J)
      → add_responses {E = E}
          (replies window ranked page_index results_per_page ((s, p) ∷ queries))
          acc
        ≡ add_responses
            (replies window ranked page_index results_per_page queries)
            (put window ranked page_index results_per_page s p acc)
  unfolding searches put add_responses page_search
  add_responses-put s p queries acc =
      let hits = hits_of window ranked s p in
      let search = page_search page_index results_per_page s p in
      let shown : All (IsOf s) (slice search hits) =
        All-take (IsOf s) (search.stop - search.start) (drop search.start hits)
          (All-drop (IsOf s) search.start hits (typed s p)) in
      rw
        (
          add_response-answer {E = E} s (slice search hits) (capped window (length hits)) acc shown,
          add_responses,
        )
        refl

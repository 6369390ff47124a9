-- ===== src/RestApi/Paging.antt =====
-- The pages that a paginated query asks for.
use amundsen_fork.Prelude.{
  ℕ, zero, suc, ◌+◌, ◌≤◌, ◌<◌, String, ◌≡◌, refl, ap, ◌∙◌, Bool, List, [], ◌∷◌, ◌++◌, map, length,
}
use amundsen_fork.Prelude.Effects.{Result, return, raise, Action, ◌>>◌}
use amundsen_fork.RestApi.Rows.{Width}
use amundsen_fork.RestApi.Merger.{Dict, Failure}
use amundsen_fork.RestApi.Execution.{each, RestApiQuery, set_fields, after_request, page}
use amundsen_fork.RestApi.Round.{with_results_post, listed}
use amundsen_fork.RestApi.Mode.{Pager, first_page, Transport, mode_paginated, sized, beside}

abbrev pub at : Bool → ℕ → Pager
at m n = record { more_pages = m; current_page = n }

module _ {X E V R : Type 0} (t : Transport X E V R)
    (body : Dict V → Action X (Failure E) (Unit {0})) where
  -- A loop that does not touch the pagination.
  abbrev pub beside_body : Dict V → Action (Pager × X) (Failure E) (Unit {0})
  beside_body r (p, x) = beside t p (body r x)

  -- A loop over pages that left the pagination as it was at first, if it returned.
  abbrev pub Ends :
      Result (Failure E) (Unit {0}) × (Pager × X) → Result (Failure E) (Unit {0}) × X → Type 0
  Ends (return _, (p, x)) out = (p ≡ first_page) × ((return tt, x) ≡ out)
  Ends (raise ex, (p, x)) out = (raise ex, x) ≡ out

module _ {X E V R : Type 0} (t : Transport X E V R) (q : RestApiQuery E) (d : Dict V)
    (answer : ℕ → List (List V)) (body : Dict V → Action X (Failure E) (Unit {0})) where
  -- The records of a page.
  abbrev pub on_page : ℕ → List (Dict V)
  on_page n = map (λ sub_record. set_fields d q.field_names sub_record) (answer n)

  -- Those of so many pages from one on.
  abbrev pub on_pages : ℕ → ℕ → List (Dict V)
  on_pages zero n = on_page n
  on_pages (suc k) n = on_page n ++ on_pages k (n + 1)

  -- A server whose pages have these sub-records, and are full before the last one.
  pub record Paged (last : ℕ) : Type 0 where
    pub url : ℕ → String
    pub response : ℕ → R
    pub size : ℕ → ℕ
    pub urls : (n : ℕ) → n ≤ last → t.url_of n d ≡ return (url n)
    pub sends : (n : ℕ) (x : X) → n ≤ last → t.send_request (url n) x ≡ (return (response n), x)
    pub holds :
        (n : ℕ)
        → n ≤ last
        → t.found (response n)
          ≡ return (listed q.json_path_contains_or (length q.field_names) (answer n))
    pub sizes : (n : ℕ) → n ≤ last → t.listed_size (response n) ≡ return (size n)
    pub full : (n : ℕ) → n < last → t.max_record_size ≤ size n
    pub not_full : size last < t.max_record_size
    pub answers : (n : ℕ) → n ≤ last → ¬ (answer n ≡ [])
    pub named : 1 ≤ length q.field_names
    pub wide : (n : ℕ) → n ≤ last → Width (length q.field_names) (answer n)

  module _ (last : ℕ) (s : Paged last) where
    -- A round asks for the current page.
    round :
        (n : ℕ) (m : Bool) (x : X)
        → n ≤ last
        → page (mode_paginated t) q d (beside_body t body) (at m n, x)
          ≡ (each (beside_body t body) (on_page n) >> sized t (return (s.size n))) (at m n, x)
    unfolding page after_request
    round n m x l =
        rw (s.urls n l, s.sends n x l, s.holds n l)
          (with_results_post (mode_paginated t) q refl s.named (beside_body t body) d (s.response n)
              (answer n) (at m n, x) (s.answers n l) (s.wide n l)
            ∙ ap (λ r. (each (beside_body t body) (on_page n) >> sized t r) (at m n, x))
                (s.sizes n l))

module _ {X E V R : Type 0} (t : Transport X E V R) (q : RestApiQuery E) (more : Dict V → ℕ)
    (answer : Dict V → ℕ → List (List V)) (body : Dict V → Action X (Failure E) (Unit {0})) where
  -- The records of all pages, from the first to the last one, for each of the records.
  abbrev pub on_all : List (Dict V) → List (Dict V)
  on_all [] = []
  on_all (d ∷ ds) = on_pages t q d (answer d) body (more d) 1 ++ on_all ds

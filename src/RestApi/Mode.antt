-- ===== src/RestApi/Mode.antt =====
-- `ModePaginatedRestApiQuery` of rest_api/mode_analytics/mode_paginated_rest_api_query.py, which
-- overrides the making of the URL and what follows a response.
use amundsen_fork.Prelude.{ℕ, ◌+◌, String, Bool, true, false, none, List, leb, ◌==◌, if◌then◌else◌}
use amundsen_fork.Prelude.Effects.{Result, return, raise, Action, pure}
use amundsen_fork.RestApi.Merger.{Dict, Failure}
use amundsen_fork.RestApi.Execution.{Hooks}

-- What the methods change of the object.
pub record Pager : Type 0 where
  pub more_pages : Bool
  pub current_page : ℕ

-- After `__init__`.
abbrev pub first_page : Pager
first_page = record { more_pages = false; current_page = 1 }

-- What the object takes from the libraries: the URL of a page of a record, the request, the values at
-- the JSON path, and the number of values at the JSON path of the pagination.
pub record Transport (X E V R : Type 0) : Type 0 where
  pub url_of : ℕ → Dict V → Result (Failure E) String
  pub send_request : String → Action X (Failure E) R
  pub found : R → Result (Failure E) (List V)
  pub listed_size : R → Result (Failure E) ℕ
  pub max_record_size : ℕ

module _ {X E V R : Type 0} (t : Transport X E V R) where
  -- `if result_list and len(result_list) >= self._max_record_size`
  unfoldable pub next_pager : ℕ → Pager → Pager
  next_pager size p =
      if size == 0
      then first_page
      else if leb t.max_record_size size
      then record { more_pages = true; current_page = p.current_page + 1 }
      else first_page

  abbrev pub sized : Result (Failure E) ℕ → Action (Pager × X) (Failure E) (Unit {0})
  sized (return size) (p, x) = (return tt, (next_pager size p, x))
  sized (raise ex) w = (raise ex, w)

  -- A request leaves the pagination as it is.
  abbrev pub beside :
      {A : Type 0} → Pager → Result (Failure E) A × X → Result (Failure E) A × (Pager × X)
  beside p (r, x) = (r, (p, x))

  abbrev pub mode_paginated : Hooks (Pager × X) E V R
  mode_paginated = record {
    authenticate = pure tt;
    preprocess_url = λ d (p, x). (t.url_of p.current_page d, (p, x));
    send_request = λ url (p, x). beside p (t.send_request url x);
    found = t.found;
    post_process = λ r w. sized (t.listed_size r) w;
    more_pages = λ (p, x). p.more_pages;
    merge_into = none;
  }

-- ===== src/Tests/Searching.antt =====
-- The REST queries and the search publisher on concrete servers.
use amundsen_fork.Prelude.{
  ℕ, String, ◌<>◌, str_eq, ◌≡◌, refl, Bool, true, false, none, some, List, [], ◌∷◌, ◌++◌, contains,
  string_eq, inl, arith, ltb,
}
use amundsen_fork.Prelude.Effects.{Result, return, raise, Action, pure}
use amundsen_fork.RestApi.{
  Dict, Failure, failed, key_error, not_found, out_of_fuel, get, Query, Hooks, RestApiQuery, pages,
  Pager, Transport, mode_paginated, compute_sub_records,
}
use amundsen_fork.RestApi.Rows.{flat}
use amundsen_fork.RestApi.Columns.{columns, compute_sub_records-recovers}
use amundsen_fork.RestApi.Computed.{compute_query_result-distinct, merge_into-joins}
use amundsen_fork.RestApi.Paging.{beside_body}
use amundsen_fork.RestApi.Retry.{pages-stuck}

abbrev two_fields : List String
two_fields = "id" ∷ "name" ∷ []

abbrev two_records : List (List String)
two_records = ("1" ∷ "a" ∷ []) ∷ ("2" ∷ "b" ∷ []) ∷ []

compute_sub_records-recovers_example :
    (compute_sub_records ("1" ∷ "a" ∷ "2" ∷ "b" ∷ []) two_fields false ≡ return two_records)
    × (compute_sub_records ("1" ∷ "2" ∷ "a" ∷ "b" ∷ []) two_fields true ≡ return two_records)
compute_sub_records-recovers_example =
    compute_sub_records-recovers two_fields two_records (omega arith) (refl, (refl, tt))

abbrev space : Dict String
space = ("space", "s1") ∷ ("title", "S") ∷ []

abbrev other_space : Dict String
other_space = ("space", "s2") ∷ []

abbrev report : Dict String
report = ("id", "r") ∷ ("space", "s1") ∷ []

merge_into-joins_example :
    (r : Dict String) × (amundsen_fork.RestApi.merge_into {E = String} "None" "space"
        (other_space ∷ space ∷ [], none)
        report
        []
      ≡ (return r, ("s2", other_space) ∷ ("s1", space) ∷ []))
    × (get "title" r ≡ some "S")
unfolding get contains
merge_into-joins_example =
    merge_into-joins "None" "space" (("s2", other_space) ∷ []) [] [] "s1" space report "title"
      (refl, (refl, tt)) refl (inl refl) refl (refl, (refl, tt)) (λ p. ground arith)

abbrev Log : Type 0
Log = List (Dict String)

abbrev keep_record : Dict String → Action Log (Failure String) (Unit {0})
keep_record d log = (return tt, log ++ d ∷ [])

abbrev sample_query : RestApiQuery String
sample_query = record {
  field_names = two_fields;
  fail_no_result = false;
  skip_no_result = false;
  json_path_contains_or = true;
  can_skip_failure = λ ex. true;
}

-- A URL of a placeholder for the record's space.
abbrev space_url : Dict String → Result (Failure String) String
space_url d = elim (get "space" d) [ none ↦ raise (key_error "space") | some key ↦ return key ]

abbrev space_of : Dict String → String
space_of d = elim (get "space" d) [ none ↦ "" | some key ↦ key ]

-- The server knows the first space alone.
abbrev rows_if : Bool → List (List String)
rows_if true = two_records
rows_if false = []

abbrev sample_hooks : Hooks Log String String (List String)
sample_hooks = record {
  authenticate = pure tt;
  preprocess_url = λ d w. (space_url d, w);
  send_request = λ url w. (return (columns 2 (rows_if (str_eq url "s1"))), w);
  found = λ r. return r;
  post_process = λ r w. (return tt, w);
  more_pages = λ w. false;
  merge_into = none;
}

abbrev HasSpace : Dict String → Type 0
HasSpace d = space_url d ≡ return (space_of d)

abbrev sample_answer : Dict String → List (List String)
sample_answer d = rows_if (str_eq (space_of d) "s1")

abbrev empty_space : Dict String
empty_space = ("space", "s2") ∷ ("title", "E") ∷ []

-- Two pages: a full one, and one of a single record.
abbrev page_records : Bool → List (List String)
page_records true = two_records
page_records false = ("3" ∷ "c" ∷ []) ∷ []

abbrev page_url : Bool → String
page_url true = "full"
page_url false = "last"

abbrev page_size : Bool → ℕ
page_size true = 2
page_size false = 1

abbrev sample_transport : Transport Log String String Bool
sample_transport = record {
  url_of = λ n d. elim (get "space" d) [
    | none ↦ raise (key_error "space")
    | some key ↦ return (key <> page_url (ltb n 2))
  ];
  send_request = λ url w. (return (str_eq url "s1full"), w);
  found = λ full. return (columns 2 (page_records full));
  listed_size = λ full. return (page_size full);
  max_record_size = 2;
}

abbrev failing_transport : Transport Log String String Bool
failing_transport = record {
  url_of = λ n d. return "http://server/reports?page=2";
  send_request = λ url w. (raise (failed "404"), w);
  found = λ full. return [];
  listed_size = λ full. return 0;
  max_record_size = 2;
}

pages-stuck_example :
    pages
      (mode_paginated failing_transport)
      sample_query
      10
      space
      (beside_body failing_transport keep_record)
      (record { more_pages = true; current_page = 2 }, [])
    ≡ (raise out_of_fuel, (record { more_pages = true; current_page = 2 }, []))
pages-stuck_example =
    pages-stuck (mode_paginated failing_transport) sample_query space
      (beside_body failing_transport keep_record)
      (record { more_pages = true; current_page = 2 }, []) "http://server/reports?page=2"
      (failed "404") 10 refl refl refl refl

compute_query_result-distinct_example :
    amundsen_fork.RestApi.compute_query_result {E = String} "space"
      (space ∷ other_space ∷ report ∷ [], none)
    ≡ raise amundsen_fork.RestApi.not_unique
unfolding get contains
compute_query_result-distinct_example =
    compute_query_result-distinct "space"
      (("s1", space) ∷ ("s2", other_space) ∷ ("s1", report) ∷ []) (refl, (refl, (refl, tt)))

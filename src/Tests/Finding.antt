-- ===== src/Tests/Finding.antt =====
-- A small server of documents, with the search, the edits and the frontend run on it.
use mathlib.Core.List.Perm
use mathlib.Core.List.{Perm}
use amundsen_fork.Prelude.{
  ℕ, String, str_eq, ◌≡◌, refl, ap, Bool, Bool-cases, true, false, ◌&&◌, inl, inr, List, [], ◌∷◌,
  map, Option, none, some, All, if◌then◌else◌, arith,
}
use amundsen_fork.Prelude.Ascii.{lower}
use amundsen_fork.Prelude.Effects.{return, raise}
use amundsen_fork.RestApi.{Dict, get}
use amundsen_fork.Search.Resources.{
  Resource, table, dashboard, feature, user, resource_str, get_index_alias_for_resource,
}
use amundsen_fork.Search.Resources.{resource_to_mapping}
use amundsen_fork.Search.Queries.{Dsl, Filter, build_elasticsearch_query}
use amundsen_fork.Search.Admits.{
  every, some_of, Matching, Implements, build_elasticsearch_query-Implements,
}
use amundsen_fork.Search.Execution.{page_search, searches, responses_or_none, execute_queries}
use amundsen_fork.Search.Paging.{pages, pages-take}
use amundsen_fork.Search.Response.{searched}
use amundsen_fork.Search.Documents.{
  mapped_field_or, the_hit, the_document, get_document_json_by_key, found_value, current_value,
  update_document_by_key, delete_document_by_key,
}
use amundsen_fork.Search.Edits.{is_raised, delete_document_by_key-lacks}
use amundsen_fork.Search.Requests.{Filters, SearchRequest}
use amundsen_fork.Search.Endpoint.{add_resource, resources_of, post}
use amundsen_fork.Search.Served.{query_request, Served, post-Served}
use amundsen_fork.Search.Hits.{Item, text, other, Value, item, attr_list, Hit, Elasticsearch}
use amundsen_fork.Search.Settled.{IsOf, reply}
use amundsen_fork.Search.Found.{filter, source_of, Serves}

abbrev pub Doc : Type 0
Doc = Dict (Value ℕ)

abbrev pub Q : Type 0
Q = Doc → Bool

abbrev is_item : String → Item ℕ → Bool
is_item v (text t) = str_eq t v
is_item v _ = false

abbrev has_text : String → Option (Value ℕ) → Bool
has_text v (some (item x)) = is_item v x
has_text v (some (attr_list xs)) = some_of (is_item v) xs
has_text v _ = false

abbrev enough : List Q → Option ℕ → Q
enough should none d = true
enough [] (some n) d = true
enough (q ∷ should) (some n) d = some_of (λ p. p d) (q ∷ should)

abbrev pub predicates : Dsl Q
predicates = record {
  multi_match = λ value fields kind d. has_text value (get "key" d);
  wildcard = λ field value d. has_text value (get field d);
  term = λ field value d. has_text value (get field d);
  bool_query = λ must should filters minimum d.
      enough should minimum d && (every (λ q. q d) must && every (λ q. q d) filters);
}

and_true : (b : Bool) → (b && (true && true)) ≡ b
and_true b = ground arith

abbrev holding : Matching predicates Doc
holding = record {
  matches = λ q d. q d;
  all_match = λ must filters d. refl;
  one_matches = λ q qs d. and_true (some_of (λ p. p d) (q ∷ qs));
  no_clause = λ d. refl;
}

abbrev pub orders : Doc
orders =
    ("resource_type", item (text "table"))
    ∷ ("key", item (text "orders"))
    ∷ ("tags", attr_list (text "core" ∷ text "daily" ∷ []))
    ∷ []

abbrev clicks : Doc
clicks =
    ("resource_type", item (text "table"))
    ∷ ("key", item (text "clicks"))
    ∷ ("tags", attr_list (text "raw" ∷ []))
    ∷ []

abbrev documents : String → List Doc
documents index = if str_eq index "table_search_index" then orders ∷ clicks ∷ [] else []

abbrev pub to_hit : Doc → Hit ℕ
to_hit d = record { id = "id"; score = other 1; source = d }

abbrev ranking : String → Q → List (Hit ℕ)
ranking index q = map to_hit (filter q (documents index))

abbrev server : Elasticsearch (Unit {0}) Q ℕ String
server = record {
  execute = λ ss w. (return (map (reply 10000 ranking) ss), w);
  update = λ index id field value w. (raise "read only", w);
}

sources : (ds : List Doc) → map source_of (map to_hit ds) ≡ ds
sources [] = refl
sources (d ∷ ds) = ap (λ t. d ∷ t) (sources ds)

ranking-Perm :
    (index : String) (q : Q) → Perm (map source_of (ranking index q)) (filter q (documents index))
ranking-Perm index q =
    rw (sources (filter q (documents index))) (Perm.refl (filter q (documents index)))

abbrev NamesTable : Doc → Type 0
NamesTable d = get "resource_type" d ≡ some (item (text "table"))

named :
    (q : Q) (ds : List Doc)
    → All NamesTable ds
    → All (λ (h : Hit ℕ). NamesTable h.source) (map to_hit (filter q ds))
named q [] h = tt
named q (d ∷ ds) h = elim (Bool-cases (q d)) [
  | inl e ↦ rw e (h.0, named q ds h.1)
  | inr n ↦ rw n (named q ds h.1)
]

ranking-IsOf : (r : Resource) (q : Q) → All (IsOf r) (ranking (get_index_alias_for_resource r) q)
unfolding get get_index_alias_for_resource resource_str lower
ranking-IsOf table q = named q (orders ∷ clicks ∷ []) (refl, (refl, tt))
ranking-IsOf dashboard q = tt
ranking-IsOf feature q = tt
ranking-IsOf user q = tt

abbrev serving : Serves predicates server holding tt
serving = record {
  window = 10000;
  docs = documents;
  ranked = ranking;
  ranked_docs = ranking-Perm;
  answers = λ ss h. refl;
  typed = ranking-IsOf;
}

abbrev tag_filters : Filters
tag_filters =
    ("table", ("tag", some (record { value = some "core, raw"; filter_operation = none })) ∷ [])
    ∷ []

abbrev names : List String
names = "table" ∷ []

abbrev keep_order : List String → List String
keep_order xs = xs

abbrev never : String → Bool
never e = false

abbrev found_request : SearchRequest
found_request =
    query_request predicates server holding tt serving never keep_order tag_filters names 0 10 ""

post-Served_example :
    Served predicates server holding tt serving never keep_order tag_filters names 0 10 "" table
      (post predicates server never found_request tt).0
unfolding resources_of add_resource get searched
post-Served_example =
    post-Served predicates server holding tt serving never keep_order tag_filters names 0 10 ""
      table (table ∷ []) (omega arith) refl refl refl

abbrev both_tags : List Filter
both_tags =
    record { name = "tag"; values = "core" ∷ "daily" ∷ []; operation = "AND" }
    ∷ record { name = "unknown"; values = []; operation = "XOR" }
    ∷ []

build_elasticsearch_query-Implements_example :
    Implements String predicates holding table "orders" both_tags orders
      (build_elasticsearch_query predicates table "orders" both_tags)
build_elasticsearch_query-Implements_example =
    build_elasticsearch_query-Implements String predicates holding table "orders" both_tags orders

abbrev tagged_core : Q
tagged_core d = has_text "core" (get "tags" d)

abbrev letters : List String
letters = "a" ∷ "b" ∷ "c" ∷ "d" ∷ "e" ∷ []

pages-take_example : pages 2 table tagged_core 2 letters ≡ "a" ∷ "b" ∷ "c" ∷ "d" ∷ []
pages-take_example = pages-take 2 table tagged_core 2 letters

delete_document_by_key-lacks_example :
    (is_raised
        (update_document_by_key predicates server "orders" table "tag" (some "new") "add" tt).0
      ≡ false)
    × (is_raised (delete_document_by_key predicates server "orders" table "tag" (some "new") tt).0
        ≡ true)
unfolding execute_queries responses_or_none searches page_search get_index_alias_for_resource
    resource_str lower get_document_json_by_key the_document the_hit current_value found_value
    mapped_field_or resource_to_mapping get
delete_document_by_key-lacks_example =
    delete_document_by_key-lacks predicates server "orders" table "tag" (some "new") "add" tt

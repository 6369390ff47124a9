-- ===== src/Tests/Editing.antt =====
-- A server with one document, with the edits run on it.
use amundsen_fork.Prelude.{ℕ, String, ◌≡◌, true, refl, ap, List, [], ◌∷◌, map, some}
use amundsen_fork.Prelude.Effects.{return, ◌>>◌}
use amundsen_fork.RestApi.{get, set}
use amundsen_fork.Search.Resources.{table, resource_to_mapping}
use amundsen_fork.Search.Hits.{
  Item, text, Value, item, attr_list, Hit, NewValue, single, listed, Elasticsearch,
}
use amundsen_fork.Search.Documents.{
  changed, mapped_field_or, update_document_by_key, delete_document_by_key,
}
use amundsen_fork.Search.Restored.{Store, Restored, delete_document_by_key-update_document_by_key}
use amundsen_fork.Tests.Finding.{Q, orders, to_hit, predicates}

abbrev items_of : List (Value ℕ) → List (Item ℕ)
items_of [] = []
items_of (item x ∷ vs) = x ∷ items_of vs
items_of (_ ∷ vs) = items_of vs

items_of-map : (xs : List (Item ℕ)) → items_of (map item xs) ≡ xs
items_of-map [] = refl
items_of-map (x ∷ xs) = ap (λ t. x ∷ t) (items_of-map xs)

abbrev stored : NewValue ℕ → Value ℕ
stored (single v) = v
stored (listed vs) = attr_list (items_of vs)

abbrev one_document : Elasticsearch (Hit ℕ) Q ℕ String
one_document = record {
  execute =
      λ ss w. (return (record { success = true; failures = ""; hits = w ∷ []; total = 1 } ∷ []), w);
  update = λ index id field new w.
      (return tt, record { id = w.id; score = w.score; source = set field (stored new) w.source });
}

abbrev keeping : Store predicates one_document "orders" table
keeping = record {
  hit = λ w. w;
  finds = λ w. refl;
  accepts = λ field items w. refl;
  writes = λ field items w. ap (λ xs. set field (attr_list xs) w.source) (items_of-map items);
}

delete_document_by_key-update_document_by_key_example :
    ((update_document_by_key predicates one_document "orders" table "tag"
        (some "new")
        "add"
        (to_hit orders)).0
      ≡ return (changed "orders" "tag"))
    × Restored predicates one_document "orders" table keeping "tag"
        (text "core" ∷ text "daily" ∷ [])
        (to_hit orders)
        ((update_document_by_key predicates one_document "orders" table "tag" (some "new") "add"
            >> delete_document_by_key predicates one_document "orders" table "tag" (some "new"))
          (to_hit orders))
unfolding mapped_field_or resource_to_mapping get
delete_document_by_key-update_document_by_key_example =
    delete_document_by_key-update_document_by_key predicates one_document "orders" table keeping
      "tag" "new" "add" (text "core" ∷ text "daily" ∷ []) (to_hit orders) refl refl refl

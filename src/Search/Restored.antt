-- ===== src/Search/Restored.antt =====
-- An added value that is deleted again.
use mathlib.Core.List.Perm
use mathlib.Core.List.{Perm, perm_append_singleton}
use amundsen_fork.Prelude.{
  String, str_eq, str_eq_refl, str_eq_iff, ◌≡◌, refl, ◌∙◌, ap, Bool-cases, true, false, inl, inr,
  List, [], ◌∷◌, ◌++◌, map, Option, some,
}
use amundsen_fork.Prelude.Ascii.{is_empty}
use amundsen_fork.Prelude.Effects.{Result, return, ◌>>◌}
use amundsen_fork.RestApi.{get, set}
use amundsen_fork.RestApi.Merged.{get-set}
use amundsen_fork.Search.Resources.{Resource, get_index_alias_for_resource}
use amundsen_fork.Search.Queries.{Dsl, Failure}
use amundsen_fork.Search.Hits.{
  Item, null, text, other, Value, item, attr_list, Hit, listed, Elasticsearch,
}
use amundsen_fork.Search.Execution.{searches, execute_queries, responses_or_none}
use amundsen_fork.Search.Documents.{
  Message, changed, the_hit, the_document, get_document_json_by_key, mapped_field_of, value_item,
  updated_value, is_text, remove, removed_value, found_value, deleted_value, current_value,
  message_of, write_value, change_value, update_document_by_key, delete_document_by_key,
}

-- A server that has one document of the key in every state, and where a search after an update
-- sees the list that was written.
pub record Store {W Q J E : Type 0} (dsl : Dsl Q) (elasticsearch : Elasticsearch W Q J E)
    (resource_key : String) (resource_type : Resource) : Type 0 where
  pub hit : W → Hit J
  pub finds :
      (w : W)
      → elasticsearch.execute (searches ((resource_type, dsl.term "key" resource_key) ∷ []) 0 1) w
        ≡ (return (record { success = true; failures = ""; hits = hit w ∷ []; total = 1 } ∷ []), w)
  pub accepts :
      (field : String) (items : List (Item J)) (w : W)
      → (elasticsearch.update
          (get_index_alias_for_resource resource_type)
          (hit w).id
          field
          (listed (map item items))
          w).0
        ≡ return tt
  pub writes :
      (field : String) (items : List (Item J)) (w : W)
      → (hit
          (elasticsearch.update
            (get_index_alias_for_resource resource_type)
            (hit w).id
            field
            (listed (map item items))
            w).1).source
        ≡ set field (attr_list items) (hit w).source

module _ {J : Type 0} where
  is_text_sound : (value : String) (x : Item J) → is_text value x ≡ true → x ≡ text value
  is_text_sound value null h = cc
  is_text_sound value (text t) h = ap text ((str_eq_iff t value).0 h)
  is_text_sound value (other j) h = cc

  -- Without the first item of the text.
  remove-Perm :
      (value : String) (items : List (Item J))
      → (rest : List (Item J)) × (remove value (items ++ text value ∷ []) ≡ some rest)
        × Perm rest items
  unfolding remove
  remove-Perm value [] = ([], (rw (str_eq_refl value) refl), Perm.refl [])
  remove-Perm value (x ∷ xs) = elim (Bool-cases (is_text value x)) [
    | inl e ↦ (
      xs ++ text value ∷ [],
      rw e refl,
      rw (is_text_sound value x e) (perm_append_singleton (text value) xs),
    )
    | inr n ↦
        let (rest, found, p) = remove-Perm value xs in
        (x ∷ rest, (rw (n, found) refl), Perm.cons x p)
  ]

module _ {W Q J E : Type 0} (dsl : Dsl Q) (elasticsearch : Elasticsearch W Q J E)
    (resource_key : String) (resource_type : Resource)
    (store : Store dsl elasticsearch resource_key resource_type) where
  get_document-hit :
      (w : W)
      → get_document_json_by_key dsl elasticsearch resource_key resource_type w
        ≡ (return (store.hit w), w)
  unfolding get_document_json_by_key execute_queries responses_or_none the_document the_hit
  get_document-hit w = rw (store.finds w) refl

module _ {W Q J E : Type 0} (dsl : Dsl Q) (elasticsearch : Elasticsearch W Q J E)
    (resource_key : String) (resource_type : Resource)
    (store : Store dsl elasticsearch resource_key resource_type) (field : String) where
  -- The state after an update of the field by a list.
  with_list : List (Item J) → W → W
  with_list items w =
      (elasticsearch.update (get_index_alias_for_resource resource_type) (store.hit w).id
        (mapped_field_of resource_type field) (listed (map item items)) w).1

  abbrev pub list_of : W → Option (Value J)
  list_of w = get (mapped_field_of resource_type field) (store.hit w).source

  add-with_list :
      (value operation : String) (items : List (Item J)) (w : W)
      → str_eq operation "overwrite" ≡ false
      → list_of w ≡ some (attr_list items)
      → update_document_by_key dsl elasticsearch resource_key resource_type field
          (some value)
          operation
          w
        ≡ (return (changed resource_key field), with_list (items ++ text value ∷ []) w)
  unfolding update_document_by_key change_value write_value updated_value found_value current_value
      value_item message_of with_list
  add-with_list value operation items w o h =
      rw
        (
          get_document-hit dsl elasticsearch resource_key resource_type store w,
          o,
          h,
          store.accepts (mapped_field_of resource_type field) (items ++ text value ∷ []) w,
        )
        refl

  delete-with_list :
      (value : String) (items rest : List (Item J)) (w : W)
      → is_empty value ≡ false
      → list_of w ≡ some (attr_list items)
      → remove value items ≡ some rest
      → delete_document_by_key dsl elasticsearch resource_key resource_type field (some value) w
        ≡ (return (changed resource_key field), with_list rest w)
  unfolding delete_document_by_key change_value write_value deleted_value removed_value found_value
      current_value message_of with_list
  delete-with_list value items rest w n h r =
      rw
        (
          get_document-hit dsl elasticsearch resource_key resource_type store w,
          h,
          n,
          r,
          store.accepts (mapped_field_of resource_type field) rest w,
        )
        refl

  -- A list field with the same items as before, up to order, and the other fields as before.
  pub record Restored (items : List (Item J)) (w : W) (out : Result (Failure E) (Message E) × W)
      : Type 0 where
    returned : out.0 ≡ return (changed resource_key field)
    left : List (Item J)
    same_items : Perm left items
    same_list : list_of out.1 ≡ some (attr_list left)
    others :
        (k : String)
        → str_eq (mapped_field_of resource_type field) k ≡ false
        → get k (store.hit out.1).source ≡ get k (store.hit w).source

  with_list-list_of :
      (items : List (Item J)) (w : W) → list_of (with_list items w) ≡ some (attr_list items)
  unfolding with_list
  with_list-list_of items w =
      let f = mapped_field_of resource_type field in
      rw (store.writes f items w)
        (get-set f f (attr_list items) (store.hit w).source ∙ rw (str_eq_refl f) refl)

  with_list_others :
      (items : List (Item J)) (w : W) (k : String)
      → str_eq (mapped_field_of resource_type field) k ≡ false
      → get k (store.hit (with_list items w)).source ≡ get k (store.hit w).source
  unfolding with_list
  with_list_others items w k n =
      let f = mapped_field_of resource_type field in
      rw (store.writes f items w) (get-set k f (attr_list items) (store.hit w).source ∙ rw n refl)

  -- On a server where a search sees what was written: an update that adds a nonempty value to a
  -- list field, and the deletion of the value, both succeed, and leave the field with the items
  -- that it had, up to order, and the other fields as they were.
  pub delete_document_by_key-update_document_by_key :
      (value operation : String) (items : List (Item J)) (w : W)
      → str_eq operation "overwrite" ≡ false
      → is_empty value ≡ false
      → list_of w ≡ some (attr_list items)
      → ((update_document_by_key dsl elasticsearch resource_key resource_type field
            (some value)
            operation
            w).0
          ≡ return (changed resource_key field))
        × Restored items w (
            (update_document_by_key dsl elasticsearch resource_key resource_type field
                  (some value)
                  operation
                >> delete_document_by_key dsl elasticsearch resource_key resource_type field
                    (some value))
              w)
  delete_document_by_key-update_document_by_key value operation items w o n h =
      let more = items ++ text value ∷ [] in
      let (left, found, p) = remove-Perm value items in
      let first = add-with_list value operation items w o h in
      let second =
        delete-with_list value more left (with_list more w) n (with_list-list_of more w) found in
      (
        ap (λ (out : Result (Failure E) (Message E) × W). out.0) first,
        rw (first, second)
            (record {
              returned = refl;
              left = left;
              same_items = p;
              same_list = with_list-list_of left (with_list more w);
              others =
                  λ k m. with_list_others left (with_list more w) k m ∙ with_list_others more w k m;
            }),
      )

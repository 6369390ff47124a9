-- ===== src/Search/Documents.antt =====
-- `get_document_json_by_key`, `update_document_by_key` and `delete_document_by_key` of
-- `ElasticsearchProxyV2`.
use amundsen_fork.Prelude.{
  ℕ, zero, suc, String, str_eq, Bool, true, false, List, [], ◌∷◌, ◌++◌, map, Option, none, some,
  if◌then◌else◌,
}
use amundsen_fork.Prelude.Ascii.{is_empty}
use amundsen_fork.Prelude.Effects.{Action, Result, return, raise}
use amundsen_fork.RestApi.{get}
use amundsen_fork.Search.Resources.{Resource, resource_to_mapping, get_index_alias_for_resource}
use amundsen_fork.Search.Queries.{
  Dsl, Failure, request_failed, no_response, not_unique, not_found, attribute_error, value_error,
  index_error,
}
use amundsen_fork.Search.Hits.{
  Item, null, text, other, Value, item, attr_list, attr_dict, Hit, Response, NewValue, single,
  listed, Elasticsearch,
}
use amundsen_fork.Search.Execution.{execute_queries}

-- The messages that are returned, with the key, the field and the exception that they name.
pub data Message (E : Type 0) : Type 0 where
  not_fetched : String → Failure E → Message E
  not_changed : String → String → E → Message E
  changed : String → String → Message E

module _ {J E : Type 0} (resource_key : String) where
  unfoldable pub the_hit : List (Hit J) → ℕ → Result (Failure E) (Hit J)
  the_hit hits zero = raise (not_found resource_key)
  the_hit [] (suc zero) = raise index_error
  the_hit (es_result ∷ hits) (suc zero) = return es_result
  the_hit hits (suc (suc results_count)) = raise not_unique

  unfoldable pub the_document : List (Response J) → Result (Failure E) (Hit J)
  the_document [] = raise no_response
  the_document (response ∷ responses) =
      if response.success
      then the_hit response.hits response.total
      else raise (request_failed response.failures)

module _ {W Q J E : Type 0} (dsl : Dsl Q) (elasticsearch : Elasticsearch W Q J E)
    (resource_key : String) (resource_type : Resource) where
  unfoldable pub get_document_json_by_key : Action W (Failure E) (Hit J)
  get_document_json_by_key w =
      let out =
        execute_queries elasticsearch ((resource_type, dsl.term "key" resource_key) ∷ []) 0 1 w in
      (the_document resource_key out.0, out.1)

-- The field of the mapping, or else the field itself.
unfoldable pub mapped_field_or : Option String → String → String
mapped_field_or none field = field
mapped_field_or (some mapped_field) field = if is_empty mapped_field then field else mapped_field

abbrev pub mapped_field_of : Resource → String → String
mapped_field_of resource_type field =
    mapped_field_or (get field (resource_to_mapping resource_type)) field

module _ {J : Type 0} where
  -- `value`, which may be `None`.
  unfoldable pub value_item : Option String → Item J
  value_item none = null
  value_item (some value) = text value

  unfoldable pub updated_value : Bool → Value J → Option String → NewValue J
  updated_value true (attr_list current) value = listed (item (value_item value) ∷ [])
  updated_value true (item current) value = single (item (value_item value))
  updated_value true (attr_dict current) value = single (item (value_item value))
  updated_value false (attr_list current) value =
      listed (map item (current ++ value_item value ∷ []))
  updated_value false (item current) value = listed (item current ∷ item (value_item value) ∷ [])
  updated_value false (attr_dict current) value =
      listed (attr_dict current ∷ item (value_item value) ∷ [])

  abbrev pub is_text : String → Item J → Bool
  is_text value null = false
  is_text value (text t) = str_eq t value
  is_text value (other j) = false

  -- `curr_list.remove(value)`: without the first item that is equal, if there is one.
  unfoldable pub remove : String → List (Item J) → Option (List (Item J))
  remove value [] = none
  remove value (x ∷ xs) =
      if is_text value x
      then some xs
      else elim (remove value xs) [ none ↦ none | some rest ↦ some (x ∷ rest) ]

module _ {J E : Type 0} where
  unfoldable pub removed_value : Option (List (Item J)) → Result (Failure E) (NewValue J)
  removed_value none = raise value_error
  removed_value (some items) = return (listed (map item items))

  unfoldable pub deleted_value : Value J → Option String → Result (Failure E) (NewValue J)
  deleted_value (attr_list current) none = return (listed [])
  deleted_value (attr_list current) (some value) =
      if is_empty value then return (listed []) else removed_value (remove value current)
  deleted_value (item current) value = return (single (item (text "")))
  deleted_value (attr_dict current) value = return (single (item (text "")))

  unfoldable pub found_value :
      String → Hit J → Option (Value J) → Result (Failure E) (String × Value J)
  found_value mapped_field es_hit none = raise (attribute_error mapped_field)
  found_value mapped_field es_hit (some value) = return (es_hit.id, value)

  -- `getattr(es_hit._source, mapped_field)`
  unfoldable pub current_value :
      String → Result (Failure E) (Hit J) → Result (Failure E) (String × Value J)
  current_value mapped_field (raise e) = raise e
  current_value mapped_field (return es_hit) =
      found_value mapped_field es_hit (get mapped_field es_hit.source)

module _ {E : Type 0} (resource_key field : String) where
  unfoldable pub message_of : Result E (Unit {0}) → Message E
  message_of (return _) = changed resource_key field
  message_of (raise e) = not_changed resource_key field e

module _ {W Q J E : Type 0} (elasticsearch : Elasticsearch W Q J E) (resource_key : String)
    (resource_type : Resource) (field : String) where
  -- `update_document_by_id`, with the messages of its callers.
  unfoldable pub write_value :
      String → Result (Failure E) (NewValue J) → Action W (Failure E) (Message E)
  write_value document_id (raise e) w = (raise e, w)
  write_value document_id (return new_value) w =
      let out =
        elasticsearch.update (get_index_alias_for_resource resource_type) document_id
          (mapped_field_of resource_type field) new_value w in
      (return (message_of resource_key field out.0), out.1)

  -- The two `try` blocks around the computation of a new value, which stands in neither.
  unfoldable pub change_value :
      (Value J → Result (Failure E) (NewValue J))
      → Result (Failure E) (String × Value J)
      → Action W (Failure E) (Message E)
  change_value new_value (raise e) w = (return (not_fetched resource_key e), w)
  change_value new_value (return (document_id, current)) w =
      write_value document_id (new_value current) w

module _ {W Q J E : Type 0} (dsl : Dsl Q) (elasticsearch : Elasticsearch W Q J E)
    (resource_key : String) (resource_type : Resource) (field : String)
    (value : Option String) where
  unfoldable pub update_document_by_key : String → Action W (Failure E) (Message E)
  update_document_by_key operation w =
      let out = get_document_json_by_key dsl elasticsearch resource_key resource_type w in
      change_value elasticsearch resource_key resource_type field
        (λ current. return (updated_value (str_eq operation "overwrite") current value))
        (current_value (mapped_field_of resource_type field) out.0) out.1

  unfoldable pub delete_document_by_key : Action W (Failure E) (Message E)
  delete_document_by_key w =
      let out = get_document_json_by_key dsl elasticsearch resource_key resource_type w in
      change_value elasticsearch resource_key resource_type field
        (λ current. deleted_value current value)
        (current_value (mapped_field_of resource_type field) out.0) out.1

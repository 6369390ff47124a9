-- ===== src/Search/Edits.antt =====
-- What an edit of a document raises, and what an added value becomes that is deleted again.
use amundsen_fork.Prelude.{
  String, str_eq, ◌≡◌, refl, ◌∙◌, Bool, Bool-cases, true, false, ◌&&◌, not, inl, inr, List, [], ◌∷◌,
  Option, none, some,
}
use amundsen_fork.Prelude.Ascii.{is_empty}
use amundsen_fork.Prelude.Effects.{Result, return, raise}
use amundsen_fork.Search.Resources.{Resource}
use amundsen_fork.Search.Queries.{Dsl, Failure}
use amundsen_fork.Search.Admits.{some_of}
use amundsen_fork.Search.Hits.{Item, Value, item, attr_list, attr_dict, NewValue, Elasticsearch}
use amundsen_fork.Search.Documents.{
  get_document_json_by_key, mapped_field_of, updated_value, is_text, remove, removed_value,
  deleted_value, current_value, write_value, change_value, update_document_by_key,
  delete_document_by_key,
}

abbrev pub is_raised : {E A : Type 0} → Result E A → Bool
is_raised (return _) = false
is_raised (raise _) = true

-- The field is a list of items without the value that is to be deleted, which is not empty.
abbrev pub lacks : {J E : Type 0} → Option String → Result (Failure E) (String × Value J) → Bool
lacks (some value) (return (_, attr_list items)) =
    not (is_empty value) && not (some_of (is_text value) items)
lacks _ _ = false

abbrev is_none : {A : Type 0} → Option A → Bool
is_none none = true
is_none (some _) = false

module _ {J : Type 0} where
  remove-is_none :
      (value : String) (items : List (Item J))
      → is_none (remove value items) ≡ not (some_of (is_text value) items)
  unfolding remove
  remove-is_none value [] = refl
  remove-is_none value (x ∷ xs) = elim (Bool-cases (is_text value x)) [
    | inl e ↦ rw e refl
    | inr n ↦ rw n (under (remove value xs) ∙ remove-is_none value xs)
  ]
    where
      under :
          (o : Option (List (Item J)))
          → is_none (elim o [ none ↦ none | some rest ↦ some (x ∷ rest) ]) ≡ is_none o
      under none = refl
      under (some rest) = refl

module _ (E : Type 0) {J : Type 0} where
  removed_value-is_raised :
      (o : Option (List (Item J))) → is_raised (removed_value {E = E} o) ≡ is_none o
  unfolding removed_value
  removed_value-is_raised none = refl
  removed_value-is_raised (some items) = refl

  deleted_value-is_raised :
      (i : String) (current : Value J) (value : Option String)
      → is_raised (deleted_value {E = E} current value) ≡ lacks {E = E} value (return (i, current))
  unfolding deleted_value
  deleted_value-is_raised i (attr_list items) none = refl
  deleted_value-is_raised i (attr_list items) (some value) = elim (Bool-cases (is_empty value)) [
    | inl e ↦ rw e refl
    | inr n ↦ rw n (removed_value-is_raised (remove value items) ∙ remove-is_none value items)
  ]
  deleted_value-is_raised i (item x) none = refl
  deleted_value-is_raised i (item x) (some value) = refl
  deleted_value-is_raised i (attr_dict d) none = refl
  deleted_value-is_raised i (attr_dict d) (some value) = refl

module _ {W Q J E : Type 0} (elasticsearch : Elasticsearch W Q J E) (resource_key : String)
    (resource_type : Resource) (field : String) where
  write_value-is_raised :
      (i : String) (r : Result (Failure E) (NewValue J)) (w : W)
      → is_raised (write_value elasticsearch resource_key resource_type field i r w).0 ≡ is_raised r
  unfolding write_value
  write_value-is_raised i (return v) w = refl
  write_value-is_raised i (raise e) w = refl

  update-is_raised :
      (overwrite : Bool) (value : Option String) (found : Result (Failure E) (String × Value J))
      (w : W)
      → is_raised
          (change_value elasticsearch resource_key resource_type field
            (λ current. return (updated_value overwrite current value))
            found
            w).0
        ≡ false
  unfolding change_value
  update-is_raised overwrite value (raise e) w = refl
  update-is_raised overwrite value (return (i, current)) w =
      write_value-is_raised i (return (updated_value overwrite current value)) w

  delete-is_raised :
      (value : Option String) (found : Result (Failure E) (String × Value J)) (w : W)
      → is_raised
          (change_value elasticsearch resource_key resource_type field
            (λ current. deleted_value current value)
            found
            w).0
        ≡ lacks value found
  unfolding change_value
  delete-is_raised none (raise e) w = refl
  delete-is_raised (some value) (raise e) w = refl
  delete-is_raised value (return (i, current)) w =
      write_value-is_raised i (deleted_value current value) w
      ∙ deleted_value-is_raised E i current value

module _ {W Q J E : Type 0} (dsl : Dsl Q) (elasticsearch : Elasticsearch W Q J E)
    (resource_key : String) (resource_type : Resource) (field : String) where
  -- The id and the value of the field that an edit fetches.
  abbrev pub fetched : W → Result (Failure E) (String × Value J)
  fetched w =
      current_value (mapped_field_of resource_type field)
        (get_document_json_by_key dsl elasticsearch resource_key resource_type w).0

  -- Whatever the client does: an update returns a message and raises nothing, and a deletion
  -- raises exactly when the field that it fetches is a list without the given, nonempty value.
  pub delete_document_by_key-lacks :
      (value : Option String) (operation : String) (w : W)
      → (is_raised
            (update_document_by_key dsl elasticsearch resource_key resource_type field value
              operation w).0
          ≡ false)
        × (is_raised
              (delete_document_by_key dsl elasticsearch resource_key resource_type field value w).0
            ≡ lacks value (fetched w))
  unfolding update_document_by_key delete_document_by_key
  delete_document_by_key-lacks value operation w =
      let after = (get_document_json_by_key dsl elasticsearch resource_key resource_type w).1 in
      (
        update-is_raised elasticsearch resource_key resource_type field
            (str_eq operation "overwrite") value (fetched w) after,
        delete-is_raised elasticsearch resource_key resource_type field value (fetched w) after,
      )

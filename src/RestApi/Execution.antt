-- ===== src/RestApi/Execution.antt =====
-- `RestApiQuery` of rest_api/rest_api_query.py. A generator is a loop that runs a body for each
-- record that it yields, when it yields it.
use amundsen_fork.Prelude.{
  ℕ, zero, suc, String, Bool, true, false, Option, none, some, List, [], ◌∷◌, length, ◌==◌,
  if◌then◌else◌,
}
use amundsen_fork.Prelude.Effects.{Result, return, raise, Action, pure, throw, ◌>>=◌, ◌>>◌}
use amundsen_fork.RestApi.SubRecords.{compute_sub_records}
use amundsen_fork.RestApi.Merger.{Dict, Failure, no_field_names, no_result, out_of_fuel, set}

-- `for x in xs: body(x)`
unfoldable pub each :
    {W F A : Type 0} → (A → Action W F (Unit {0})) → List A → Action W F (Unit {0})
each body [] w = (return tt, w)
each body (x ∷ xs) w = (body x >> each body xs) w

-- `for record in query.execute(): body(record)`
abbrev pub Query : Type 0 → Type 0 → Type 0 → Type 0
Query W F V = (Dict V → Action W F (Unit {0})) → Action W F (Unit {0})

-- `RestApiQuerySeed`
abbrev pub seed : {W F V : Type 0} → List (Dict V) → Query W F V
seed seed_record body = each body seed_record

-- The requests, the values that a response holds, and the methods that subclasses override. `R` is the
-- type of responses.
pub record Hooks (W E V R : Type 0) : Type 0 where
  pub authenticate : Action W (Failure E) (Unit {0})
  pub preprocess_url : Dict V → Action W (Failure E) String
  pub send_request : String → Action W (Failure E) R
  -- `response.json()`, and the values at the JSON path.
  pub found : R → Result (Failure E) (List V)
  pub post_process : R → Action W (Failure E) (Unit {0})
  pub more_pages : W → Bool
  pub merge_into : Option (Dict V → Action W (Failure E) (Dict V))

pub record RestApiQuery (E : Type 0) : Type 0 where
  pub field_names : List String
  pub fail_no_result : Bool
  pub skip_no_result : Bool
  pub json_path_contains_or : Bool
  pub can_skip_failure : Failure E → Bool

abbrev pub is_nil : {A : Type 0} → List A → Bool
is_nil [] = true
is_nil (_ ∷ _) = false

module _ {V : Type 0} where
  -- `new_record_dict[field_name] = sub_record.pop(0)` for the field names, of which there are as many.
  unfoldable pub set_fields : Dict V → List String → List V → Dict V
  set_fields d (name ∷ names) (value ∷ values) = set_fields (set name value d) names values
  set_fields d _ _ = d

module _ {W E V R : Type 0} (h : Hooks W E V R) (q : RestApiQuery E) where
  abbrev pub merged :
      Option (Dict V → Action W (Failure E) (Dict V)) → Dict V → Action W (Failure E) (Dict V)
  merged none new_record_dict = pure new_record_dict
  merged (some merge_into) new_record_dict = merge_into new_record_dict

  -- One round of the loop over the sub-records.
  unfoldable pub yield_sub_record :
      Dict V → (Dict V → Action W (Failure E) (Unit {0})) → List V → Action W (Failure E) (Unit {0})
  yield_sub_record record_dict body sub_record w =
      let new =
        (merged h.merge_into (set_fields record_dict q.field_names sub_record) >>= body) w in
      if is_nil sub_record
      then (return tt, w)
      else if length sub_record == length q.field_names
      then new
      else (return tt, w)

  abbrev pub of_sub_records : Result String (List (List V)) → Action W (Failure E) (List (List V))
  of_sub_records (return subs) = pure subs
  of_sub_records (raise _) = throw no_field_names

  -- From the computation of the sub-records to the end of the round.
  unfoldable pub yield_results :
      Dict V
      → (Dict V → Action W (Failure E) (Unit {0}))
      → R
      → List V
      → Action W (Failure E) (Unit {0})
  yield_results record_dict body response result_list =
      (of_sub_records (compute_sub_records result_list q.field_names q.json_path_contains_or)
        >>= λ subs. each (yield_sub_record record_dict body) subs)
      >> h.post_process response

  -- The branch for an empty result.
  unfoldable pub no_results :
      Dict V → (Dict V → Action W (Failure E) (Unit {0})) → R → Action W (Failure E) (Unit {0})
  no_results record_dict body response =
      h.post_process response
      >> (if q.fail_no_result
          then throw no_result
          else if q.skip_no_result
          then pure tt
          else body record_dict >> yield_results record_dict body response [])

  unfoldable pub with_results :
      Dict V
      → (Dict V → Action W (Failure E) (Unit {0}))
      → R
      → Result (Failure E) (List V)
      → Action W (Failure E) (Unit {0})
  with_results record_dict body response (raise ex) = throw ex
  with_results record_dict body response (return []) = no_results record_dict body response
  with_results record_dict body response (return (v ∷ vs)) =
      yield_results record_dict body response (v ∷ vs)

  -- What follows the request: a failure that can be skipped ends the round.
  unfoldable pub after_request :
      Dict V
      → (Dict V → Action W (Failure E) (Unit {0}))
      → Result (Failure E) R
      → Action W (Failure E) (Unit {0})
  after_request record_dict body (return response) =
      with_results record_dict body response (h.found response)
  after_request record_dict body (raise ex) = if q.can_skip_failure ex then pure tt else throw ex

  -- One round of `while first_try or self._more_pages`.
  unfoldable pub page :
      Dict V → (Dict V → Action W (Failure E) (Unit {0})) → Action W (Failure E) (Unit {0})
  page record_dict body = h.preprocess_url record_dict >>= λ url w.
      let (r, v) = h.send_request url w in after_request record_dict body r v

  unfoldable pub pages :
      ℕ → Dict V → (Dict V → Action W (Failure E) (Unit {0})) → Action W (Failure E) (Unit {0})
  pages zero record_dict body w = (raise out_of_fuel, w)
  pages (suc fuel) record_dict body w =
      (page record_dict body >> λ v.
      let more = pages fuel record_dict body v in if h.more_pages v then more else (return tt, v))
        w

  -- `execute`, with at most `fuel` rounds for each record of the query to join.
  unfoldable pub execute : ℕ → Query W (Failure E) V → Query W (Failure E) V
  execute fuel query_to_join body =
      h.authenticate >> query_to_join (λ record_dict. pages fuel record_dict body)

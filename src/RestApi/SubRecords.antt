-- ===== src/RestApi/SubRecords.antt =====
-- `RestApiQuery._compute_sub_records` of rest_api/rest_api_query.py.
use amundsen_fork.Prelude.{
  ℕ, zero, suc, ◌+◌, ◌/◌, String, Bool, List, [], ◌∷◌, ◌++◌, length, ltb, if◌then◌else◌,
}
use amundsen_fork.Prelude.Effects.{Result, return, raise}

module _ {ℓ} {A : Type ℓ} where
  abbrev pub drop : ℕ → List A → List A
  drop zero xs = xs
  drop (suc i) [] = []
  drop (suc i) (x ∷ xs) = drop i xs

  abbrev pub take : ℕ → List A → List A
  take zero xs = []
  take (suc n) [] = []
  take (suc n) (x ∷ xs) = x ∷ take n xs

  -- What `f` gives for each of `range(i, stop, step)`, at most `fuel` of them.
  unfoldable pub for_range : ℕ → ℕ → ℕ → ℕ → (ℕ → List A) → List A
  for_range zero i stop step f = []
  for_range (suc fuel) i stop step f =
      let more = for_range fuel (i + step) stop step f in if ltb i stop then f i ++ more else []

module _ {A : Type 0} where
  -- `[result_list[i:i + len(field_names)] for i in range(0, len(result_list), len(field_names))]`
  unfoldable pub by_rows : ℕ → List A → List (List A)
  by_rows fields result_list =
      for_range (length result_list) 0 (length result_list) fields
        (λ i. take fields (drop i result_list) ∷ [])

  -- `[result_list[j] for j in range(i, len(result_list), num_subresult)]`; each `j` is in bounds.
  abbrev pub column_of : ℕ → List A → ℕ → List A
  column_of num_subresult result_list i =
      for_range (length result_list) i (length result_list) num_subresult
        (λ j. take 1 (drop j result_list))

  unfoldable pub by_columns : ℕ → List A → List (List A)
  by_columns fields result_list =
      let num_subresult = length result_list / fields in
      for_range num_subresult 0 num_subresult 1 (λ i. column_of num_subresult result_list i ∷ [])

  unfoldable pub compute_sub_records : List A → List String → Bool → Result String (List (List A))
  compute_sub_records result_list [] contains_or = raise "Field names should not be empty"
  compute_sub_records result_list (f ∷ fs) contains_or =
      if contains_or
      then return (by_columns (length (f ∷ fs)) result_list)
      else return (by_rows (length (f ∷ fs)) result_list)

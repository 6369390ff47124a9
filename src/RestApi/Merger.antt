-- ===== src/RestApi/Merger.antt =====
-- `QueryMerger` of rest_api/query_merger.py. `V` is the type of JSON values, with its `==`.
use amundsen_fork.Prelude.{
  String, str_eq, Bool, true, false, Option, none, some, List, [], ◌∷◌, ◌++◌, if◌then◌else◌,
  is_some, Eq,
}
use amundsen_fork.Prelude.Effects.{Result, return, raise}

-- A dict of Python, in the order of insertion.
abbrev pub Dict : Type 0 → Type 0
Dict V = List (String × V)

pub data Failure (E : Type 0) : Type 0 where
  key_error : String → Failure E
  not_unique : Failure E
  not_found : Failure E
  no_field_names : Failure E
  no_result : Failure E
  -- The model's own: a loop goes on past the rounds that are allowed.
  out_of_fuel : Failure E
  failed : E → Failure E

-- What a generator yields before it ends, and the exception it ends with, if any.
abbrev pub Stream : Type 0 → Type 0 → Type 0
Stream E A = List A × Option (Failure E)

module _ {V : Type 0} where
  -- `d.get(key)`
  unfoldable pub get : String → Dict V → Option V
  get key [] = none
  get key ((k, v) ∷ d) = if str_eq k key then some v else get key d

  -- `d[key] = value`
  unfoldable pub set : String → V → Dict V → Dict V
  set key value [] = (key, value) ∷ []
  set key value ((k, v) ∷ d) =
      let more = set key value d in if str_eq k key then (k, value) ∷ d else (k, v) ∷ more

  -- The keys of the second that the first does not have.
  unfoldable pub filtered : Dict V → Dict V → Dict V
  filtered record_dict [] = []
  filtered record_dict ((k, v) ∷ d) =
      let more = filtered record_dict d in
      if is_some (get k record_dict) then more else (k, v) ∷ more

  -- `d.update(e)`
  unfoldable pub update : Dict V → Dict V → Dict V
  update d [] = d
  update d ((k, v) ∷ e) = update (set k v d) e

  abbrev pub is_empty_dict : Dict V → Bool
  is_empty_dict [] = true
  is_empty_dict (_ ∷ _) = false

-- `_computed_query_result`: the records by the value of the merge key.
abbrev pub Computed : Type 0 → Type 0
Computed V = List (V × Dict V)

module _ {V : Type 0} ⦃e : Eq V⦄ where
  unfoldable pub lookup : V → Computed V → Option (Dict V)
  lookup value [] = none
  lookup value ((v, record_dict) ∷ rest) =
      if e.beq v value then some record_dict else lookup value rest

module _ {V E : Type 0} where
  unfoldable pub merge_found : Option (Dict V) → Dict V → Result (Failure E) (Dict V)
  merge_found none record_dict = raise not_found
  merge_found (some []) record_dict = raise not_found
  merge_found (some (kv ∷ d)) record_dict =
      return (update record_dict (filtered record_dict (kv ∷ d)))

module _ {V : Type 0} (null : V) (merge_key : String) where
  -- `record_dict.get(self._merge_key)`, `None` where it is missing.
  abbrev pub value_of_merge_key : Dict V → V
  value_of_merge_key record_dict = elim (get merge_key record_dict) [ none ↦ null | some v ↦ v ]

module _ {V E : Type 0} ⦃e : Eq V⦄ (merge_key : String) where
  unfoldable pub add_unique : Option V → Dict V → Computed V → Result (Failure E) (Computed V)
  add_unique none record_dict computed = raise (key_error merge_key)
  add_unique (some value) record_dict computed =
      if is_some (lookup value computed)
      then raise not_unique
      else return (computed ++ (value, record_dict) ∷ [])

  -- The loop of `_compute_query_result` over what the query yields.
  unfoldable pub compute_from : Computed V → Stream E (Dict V) → Result (Failure E) (Computed V)
  compute_from computed ([], none) = return computed
  compute_from computed ([], some ex) = raise ex
  compute_from computed (record_dict ∷ rest, end) =
      elim (add_unique (get merge_key record_dict) record_dict computed) [
        | return more ↦ compute_from more (rest, end)
        | raise ex ↦ raise ex
      ]

  -- `_compute_query_result`
  unfoldable pub compute_query_result : Stream E (Dict V) → Result (Failure E) (Computed V)
  compute_query_result records = compute_from [] records

module _ {V E : Type 0} ⦃e : Eq V⦄ (null : V) (merge_key : String) where
  -- The computed result is kept, and computed again as long as it is empty.
  unfoldable pub merge_into :
      Stream E (Dict V) → Dict V → Computed V → Result (Failure E) (Dict V) × Computed V
  merge_into records record_dict [] = elim (compute_query_result merge_key records) [
    | return computed ↦ (
      merge_found (lookup (value_of_merge_key null merge_key record_dict) computed) record_dict,
      computed,
    )
    | raise ex ↦ (raise ex, [])
  ]
  merge_into records record_dict (c ∷ computed) = (
    merge_found (lookup (value_of_merge_key null merge_key record_dict) (c ∷ computed)) record_dict,
    c ∷ computed,
  )

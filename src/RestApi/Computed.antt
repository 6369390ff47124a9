-- ===== src/RestApi/Computed.antt =====
-- The records of `QueryMerger`, by the value of the merge key.
use mathlib.Core.List.{append_assoc, append-nil}
use amundsen_fork.Prelude.{
  String, ◌≡◌, refl, ap, ◌∙◌, Bool, true, false, Bool-cases, inl, inr, ◌⊎◌, none, some, List, ◌&&◌,
  ◌||◌, not, [], ◌∷◌, ◌++◌, map, All, contains, if◌then◌else◌, is_some, Eq, beq_refl, beq-cases,
  arith,
}
use amundsen_fork.Prelude.Effects.{Result, return, raise}
use amundsen_fork.RestApi.Merger.{
  Dict, Failure, not_unique, get, filtered, update, Computed, lookup, add_unique, compute_from,
  compute_query_result, value_of_merge_key, merge_found, merge_into,
}
use amundsen_fork.RestApi.Merged.{or_else, IsDict, get-merged}

module _ {V : Type 0} ⦃e : Eq V⦄ where
  abbrev pub distinct : List V → Bool
  distinct [] = true
  distinct (v ∷ vs) = not (contains v vs) && distinct vs

  abbrev fresh : Computed V → List V → Bool
  fresh acc [] = true
  fresh acc (v ∷ vs) = not (is_some (lookup v acc)) && fresh acc vs

  abbrev pub values : Computed V → List V
  values rows = map (λ row. row.0) rows

  abbrev pub records_of : Computed V → List (Dict V)
  records_of rows = map (λ row. row.1) rows

  lookup-snoc :
      (x v : V) (r : Dict V) (acc : Computed V)
      → is_some (lookup x (acc ++ (v, r) ∷ [])) ≡ (is_some (lookup x acc) || e.beq v x)
  unfolding lookup
  lookup-snoc x v r [] = elim (Bool-cases (e.beq v x)) [ inl p ↦ rw p refl | inr p ↦ rw p refl ]
  lookup-snoc x v r ((w, s) ∷ acc) = elim (Bool-cases (e.beq w x)) [
    | inl p ↦ rw p refl
    | inr p ↦ rw p (lookup-snoc x v r acc)
  ]

  fresh-snoc :
      (v : V) (r : Dict V) (acc : Computed V) (vs : List V)
      → fresh (acc ++ (v, r) ∷ []) vs ≡ (fresh acc vs && not (contains v vs))
  unfolding contains
  fresh-snoc v r acc [] = refl
  fresh-snoc v r acc (x ∷ vs) = ground (arith, lookup-snoc x v r acc, fresh-snoc v r acc vs)

  contains_middle :
      (v : V) (r : Dict V) (before after : Computed V)
      → contains v (values (before ++ (v, r) ∷ after)) ≡ true
  unfolding contains
  contains_middle v r [] after = ground (arith, beq_refl v)
  contains_middle v r ((w, s) ∷ before) after = ground (arith, contains_middle v r before after)

  pub lookup_row :
      (v : V) (r : Dict V) (before after : Computed V)
      → distinct (values (before ++ (v, r) ∷ after)) ≡ true
      → lookup v (before ++ (v, r) ∷ after) ≡ some r
  unfolding lookup
  lookup_row v r [] after h = rw (beq_refl v) refl
  lookup_row v r ((w, s) ∷ before) after h = elim (beq-cases w v) [
    | inl (_, p) ↦ absurd (clash p)
    | inr p ↦ rw p (lookup_row v r before after (ground arith))
  ]
    where
      clash : w ≡ v → ⊥
      clash p =
          let m : contains w (values (before ++ (v, r) ∷ after)) ≡ true =
            rw p (contains_middle v r before after) in
          ground arith

module _ {V : Type 0} (merge_key : String) where
  -- Each record is by the value of its merge key.
  abbrev pub Keyed : Computed V → Type 0
  Keyed rows = All (λ row. get merge_key row.1 ≡ some row.0) rows

module _ {V E : Type 0} ⦃e : Eq V⦄ (merge_key : String) where
  abbrev outcome : Bool → Computed V → Result (Failure E) (Computed V)
  outcome b rows = if b then return rows else raise not_unique

  compute-from :
      (acc rows : Computed V)
      → Keyed merge_key rows
      → compute_from merge_key acc (records_of rows, none)
        ≡ outcome (fresh acc (values rows) && distinct (values rows)) (acc ++ rows)
  unfolding compute_from add_unique contains
  compute-from acc [] h = rw (append-nil acc) refl
  compute-from acc ((v, r) ∷ rows) h = elim (Bool-cases (is_some (lookup v acc))) [
    | inl p ↦
        ap continue (
          ap (λ o. add_unique merge_key o r acc) h.0
          ∙ ap (λ b. if b then raise not_unique else return (acc ++ (v, r) ∷ [])) p)
        ∙ rw p refl
    | inr p ↦
        ap continue (
          ap (λ o. add_unique merge_key o r acc) h.0
          ∙ ap (λ b. if b then raise not_unique else return (acc ++ (v, r) ∷ [])) p)
        ∙ compute-from (acc ++ (v, r) ∷ []) rows h.1
        ∙ rw (fresh-snoc v r acc (values rows), append_assoc acc ((v, r) ∷ []) rows, p)
            (ap (λ b. outcome b (acc ++ (v, r) ∷ rows))
              (regroup (fresh acc (values rows)) (not (contains v (values rows)))
                (distinct (values rows))))
  ]
    where
      regroup : (a b c : Bool) → (a && b && c) ≡ (a && (b && c))
      regroup true b c = refl
      regroup false b c = refl

      continue : Result (Failure E) (Computed V) → Result (Failure E) (Computed V)
      continue (return more) = compute_from merge_key more (records_of rows, none)
      continue (raise ex) = raise ex

  -- Where each record of the query has a value for the merge key, the computation is the records by that
  -- value if no two values are equal, and otherwise the exception that it is not unique.
  pub compute_query_result-distinct :
      (rows : Computed V)
      → Keyed merge_key rows
      → compute_query_result {E = E} merge_key (records_of rows, none)
        ≡ (if distinct (values rows) then return rows else raise not_unique)
  unfolding compute_query_result lookup
  compute_query_result-distinct rows h =
      compute-from [] rows h
      ∙ ap (λ b. outcome (b && distinct (values rows)) rows) (fresh_nil (values rows))
    where
      fresh_nil : (vs : List V) → fresh [] vs ≡ true
      fresh_nil [] = refl
      fresh_nil (v ∷ vs) = fresh_nil vs

module _ {V E : Type 0} ⦃e : Eq V⦄ (null : V) (merge_key : String) where
  merge_found-not_empty :
      (m d : Dict V)
      → ¬ (m ≡ [])
      → merge_found {E = E} (some m) d ≡ return (update d (filtered d m))
  unfolding merge_found
  merge_found-not_empty [] d n = absurd (n refl)
  merge_found-not_empty (kv ∷ m) d n = refl

  merge_rows :
      (rows computed : Computed V) (m d : Dict V)
      → Keyed merge_key rows
      → distinct (values rows) ≡ true
      → (computed ≡ []) ⊎ (computed ≡ rows)
      → lookup (value_of_merge_key null merge_key d) rows ≡ some m
      → ¬ (m ≡ [])
      → merge_into {E = E} null merge_key (records_of rows, none) d computed
        ≡ (return (update d (filtered d m)), rows)
  unfolding merge_into lookup
  merge_rows rows [] m d h k c l n =
      let computed_rows : compute_query_result {E = E} merge_key (records_of rows, none)
          ≡ return rows =
        compute_query_result-distinct merge_key rows h ∙ rw k refl in
      ap start computed_rows ∙ rw l (ap (λ o. (o, rows)) (merge_found-not_empty m d n))
    where
      start : Result (Failure E) (Computed V) → Result (Failure E) (Dict V) × Computed V
      start (return c) = (merge_found (lookup (value_of_merge_key null merge_key d) c) d, c)
      start (raise ex) = (raise ex, [])
  merge_rows rows (c ∷ cs) m d h k (inl p) l n = ground arith
  merge_rows rows (c ∷ cs) m d h k (inr p) l n =
      ap (λ cs'. (merge_found (lookup (value_of_merge_key null merge_key d) cs') d, cs')) p
      ∙ rw l (ap (λ o. (o, rows)) (merge_found-not_empty m d n))

  -- Where the query yields records of pairwise different values of the merge key, the one for the
  -- record's value not being empty, a merge, the first or a later one, returns and keeps the query's
  -- records, and its record has for every key the record's own value, or else that one's.
  pub merge_into-joins :
      (before after computed : Computed V) (v : V) (m record_dict : Dict V) (key : String)
      → Keyed merge_key (before ++ (v, m) ∷ after)
      → distinct (values (before ++ (v, m) ∷ after)) ≡ true
      → (computed ≡ []) ⊎ (computed ≡ before ++ (v, m) ∷ after)
      → value_of_merge_key null merge_key record_dict ≡ v
      → IsDict m
      → ¬ (m ≡ [])
      → (r : Dict V) × (merge_into {E = E} null merge_key
            (records_of (before ++ (v, m) ∷ after), none)
            record_dict
            computed
          ≡ (return r, before ++ (v, m) ∷ after))
        × (get key r ≡ or_else (get key record_dict) (get key m))
  merge_into-joins before after computed v m record_dict key h k c q d n = (
    update record_dict (filtered record_dict m),
    merge_rows (before ++ (v, m) ∷ after) computed m record_dict h k c
        (rw q (lookup_row v m before after k)) n,
    get-merged key record_dict m d,
  )

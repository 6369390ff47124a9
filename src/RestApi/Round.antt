-- ===== src/RestApi/Round.antt =====
-- One round of `RestApiQuery.execute` for a response of sub-records, without a merger.
use amundsen_fork.Prelude.{
  String, sym, ◌∙◌, ℕ, zero, suc, ◌≡◌, refl, ap, Bool, true, false, inl, inr, none, List, [], ◌∷◌,
  ◌++◌, map, length, ◌==◌, ◌≤◌, if◌then◌else◌, arith,
}
use amundsen_fork.Prelude.Effects.{Result, return, Action, ◌>>◌, and_then, Result-cases}
use amundsen_fork.RestApi.SubRecords.{compute_sub_records}
use amundsen_fork.RestApi.Rows.{Width, flat}
use amundsen_fork.RestApi.Columns.{columns, compute_sub_records-recovers}
use amundsen_fork.RestApi.Merger.{Dict, Failure}
use amundsen_fork.RestApi.Execution.{
  each, Hooks, RestApiQuery, set_fields, yield_sub_record, yield_results, with_results,
}

module _ {W F A : Type 0} (body : A → Action W F (Unit {0})) where
  pub each-append :
      (xs ys : List A) (w : W) → each body (xs ++ ys) w ≡ (each body xs >> each body ys) w
  unfolding each
  each-append [] ys w = refl
  each-append (x ∷ xs) ys w = elim (Result-cases (body x w).0) [
    | inl (_, p) ↦ rw p (each-append xs ys (body x w).1)
    | inr (ex, p) ↦ rw p refl
  ]

module _ {W F : Type 0} where
  -- A last statement that does nothing.
  pub last_unit :
      (a : Action W F (Unit {0})) (w : W) (g : Action W F (Unit {0}))
      → ((v : W) → g v ≡ (return tt, v))
      → (a >> g) w ≡ a w
  last_unit a w g h = elim (Result-cases (a w).0) [
    | inl (_, p) ↦ rw p (h (a w).1)
    | inr (ex, p) ↦ rw p refl
  ]

-- The values of a result in the order that its JSON path lists them.
abbrev pub listed : {V : Type 0} → Bool → ℕ → List (List V) → List V
listed contains_or n recs = if contains_or then columns n recs else flat recs

module _ {W E V R : Type 0} (h : Hooks W E V R) (q : RestApiQuery E) (merges : h.merge_into ≡ none)
    (named : 1 ≤ length q.field_names) (body : Dict V → Action W (Failure E) (Unit {0})) where
  yield_each :
      (d : Dict V) (recs : List (List V)) (w : W)
      → Width (length q.field_names) recs
      → each (yield_sub_record h q d body) recs w
        ≡ each body (map (λ sub_record. set_fields d q.field_names sub_record) recs) w
  unfolding each yield_sub_record
  yield_each d [] w k = refl
  yield_each d ([] ∷ recs) w k = absurd (none_empty k.0 named)
    where
      none_empty : {n : ℕ} → 0 ≡ n → 1 ≤ n → ⊥
      none_empty p l = omega arith
  yield_each d ((v ∷ vs) ∷ recs) w k =
      let new = set_fields d q.field_names (v ∷ vs) in
      let same : (length (v ∷ vs) == length q.field_names) ≡ true = equal k.0 in
      rw (merges, same)
        (elim (Result-cases (body new w).0) [
          | inl (_, p) ↦ rw p (yield_each d recs (body new w).1 k.1)
          | inr (ex, p) ↦ rw p refl
        ])
    where
      equal : {a b : ℕ} → a ≡ b → (a == b) ≡ true
      equal p = ground arith

  abbrev pub of_rows : List (List V) → List V
  of_rows recs = listed q.json_path_contains_or (length q.field_names) recs

  pub of_no_rows : of_rows [] ≡ []
  of_no_rows = go q.json_path_contains_or (length q.field_names)
    where
      no_columns : (n : ℕ) → columns {A = V} n [] ≡ []
      no_columns zero = refl
      no_columns (suc n) = no_columns n

      go : (b : Bool) (n : ℕ) → listed {V = V} b n [] ≡ []
      go true n = no_columns n
      go false n = refl

  pub subs_of :
      (recs : List (List V))
      → Width (length q.field_names) recs
      → compute_sub_records (of_rows recs) q.field_names q.json_path_contains_or ≡ return recs
  subs_of recs k =
      let both = compute_sub_records-recovers q.field_names recs named k in
      by_mode q.json_path_contains_or both.0 both.1
    where
      by_mode :
          (b : Bool)
          → compute_sub_records (flat recs) q.field_names false ≡ return recs
          → compute_sub_records (columns (length q.field_names) recs) q.field_names true
            ≡ return recs
          → compute_sub_records (listed b (length q.field_names) recs) q.field_names b ≡ return recs
      by_mode true x y = y
      by_mode false x y = x

  pub no_subs : compute_sub_records {A = V} [] q.field_names q.json_path_contains_or ≡ return []
  no_subs = rw (← of_no_rows) (subs_of [] tt)

  pub results_post :
      (d : Dict V) (r : R) (vs : List V) (recs : List (List V)) (w : W)
      → compute_sub_records vs q.field_names q.json_path_contains_or ≡ return recs
      → Width (length q.field_names) recs
      → yield_results h q d body r vs w
        ≡ (each body (map (λ sub_record. set_fields d q.field_names sub_record) recs)
              >> h.post_process r)
            w
  unfolding yield_results
  results_post d r vs recs w p k =
      rw p (ap (λ o. and_then o.0 (λ _. h.post_process r) o.1) (yield_each d recs w k))

  -- A response that has sub-records.
  pub with_results_post :
      (d : Dict V) (r : R) (recs : List (List V)) (w : W)
      → ¬ (recs ≡ [])
      → Width (length q.field_names) recs
      → with_results h q d body r (return (of_rows recs)) w
        ≡ (each body (map (λ sub_record. set_fields d q.field_names sub_record) recs)
              >> h.post_process r)
            w
  unfolding with_results
  with_results_post d r recs w n k = go (of_rows recs) (subs_of recs k)
    where
      same : ◌≡◌ {A = Result String (List (List V))} (return recs) (return []) → recs ≡ []
      same p = ground arith

      go :
          (vs : List V)
          → compute_sub_records vs q.field_names q.json_path_contains_or ≡ return recs
          → with_results h q d body r (return vs) w
            ≡ (each body (map (λ sub_record. set_fields d q.field_names sub_record) recs)
                  >> h.post_process r)
                w
      go [] p = absurd (n (same (sym p ∙ no_subs)))
      go (v ∷ vs) p = results_post d r (v ∷ vs) recs w p k

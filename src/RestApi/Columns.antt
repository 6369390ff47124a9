-- ===== src/RestApi/Columns.antt =====
-- The sub-records of a result that lists the values column by column.
use native.Mathlib.Nat.{mul_comm, mul-div_cancel, le-mul_of_pos_right}
use mathlib.Core.List.{append-nil, append_assoc, map-append}
use amundsen_fork.Prelude.{
  ℕ, zero, suc, ◌+◌, ◌*◌, ◌/◌, ◌≤◌, String, ◌≡◌, refl, sym, ap, ◌∙◌, true, false, List, [], ◌∷◌,
  ◌++◌, map, length, length-append, All-append_left, All-append_right, ltb, arith,
}
use amundsen_fork.Prelude.Effects.{return}
use amundsen_fork.RestApi.SubRecords.{drop, take, for_range, by_columns, compute_sub_records}
use amundsen_fork.RestApi.Rows.{drop-append, Width, flat, by_rows-flat}

module _ {A : Type 0} where
  abbrev heads : List (List A) → List A
  heads [] = []
  heads (r ∷ rs) = take 1 r ++ heads rs

  abbrev tails : List (List A) → List (List A)
  tails recs = map (λ r. drop 1 r) recs

  -- The first values of all of the records, then the second ones, and so on.
  abbrev pub columns : ℕ → List (List A) → List A
  columns zero recs = []
  columns (suc n) recs = heads recs ++ columns n (tails recs)

  heads-append : (a b : List (List A)) → heads (a ++ b) ≡ heads a ++ heads b
  heads-append [] b = refl
  heads-append (r ∷ a) b =
      ap (λ l. take 1 r ++ l) (heads-append a b) ∙ sym (append_assoc (take 1 r) (heads a) (heads b))

  length-take : (n : ℕ) (r : List A) → length r ≡ suc n → length (take 1 r) ≡ 1
  length-take n [] h = ground arith
  length-take n (x ∷ r) h = refl

  length-drop : (n : ℕ) (r : List A) → length r ≡ suc n → length (drop 1 r) ≡ n
  length-drop n [] h = ground arith
  length-drop n (x ∷ r) h = omega arith

  length-heads : (n : ℕ) (rs : List (List A)) → Width (suc n) rs → length (heads rs) ≡ length rs
  length-heads n [] h = refl
  length-heads n (r ∷ rs) h =
      omega (arith, length-append (take 1 r) (heads rs), length-take n r h.0, length-heads n rs h.1)

  length-tails : (rs : List (List A)) → length (tails rs) ≡ length rs
  length-tails [] = refl
  length-tails (r ∷ rs) = omega (arith, length-tails rs)

  tails-Width : (n : ℕ) (rs : List (List A)) → Width (suc n) rs → Width n (tails rs)
  tails-Width n [] h = tt
  tails-Width n (r ∷ rs) h = (length-drop n r h.0, tails-Width n rs h.1)

  length-columns : (n : ℕ) (rs : List (List A)) → Width n rs → length (columns n rs) ≡ n * length rs
  length-columns zero rs h = ground arith
  length-columns (suc n) rs h = omega (
    arith,
    length-append (heads rs) (columns n (tails rs)),
    length-heads n rs h,
    length-columns n (tails rs) (tails-Width n rs h) ∙ ap (λ l. n * l) (length-tails rs),
  )

  take-drop : (r : List A) → take 1 r ++ drop 1 r ≡ r
  take-drop [] = refl
  take-drop (x ∷ r) = refl

  first-append : (n : ℕ) (r xs : List A) → length r ≡ suc n → take 1 (take 1 r ++ xs) ≡ take 1 r
  first-append n [] xs h = ground arith
  first-append n (x ∷ r) xs h = refl

  abbrev value_at : List A → ℕ → List A
  value_at xs j = take 1 (drop j xs)

  -- The value of a record in the first of the columns that are left.
  here :
      (n : ℕ) (xs done : List A) (pre : List (List A)) (r : List A) (rest : List (List A))
      (more : List A)
      → Width (suc n) (pre ++ r ∷ rest)
      → xs ≡ done ++ (heads (pre ++ r ∷ rest) ++ more)
      → value_at xs (length done + length pre) ≡ take 1 r
  here n xs done pre r rest more h e =
      let hp = length-heads n pre (All-append_left _ pre (r ∷ rest) h) in
      let hr = (All-append_right _ pre (r ∷ rest) h).0 in
      let front = done ++ heads pre in
      let after = take 1 r ++ (heads rest ++ more) in
      let split : xs ≡ front ++ after =
        e
        ∙ ap (λ l. done ++ (l ++ more)) (heads-append pre (r ∷ rest))
        ∙ ap (λ l. done ++ l)
            (append_assoc (heads pre) (take 1 r ++ heads rest) more
              ∙ ap (λ l. heads pre ++ l) (append_assoc (take 1 r) (heads rest) more))
        ∙ sym (append_assoc done (heads pre) after) in
      let at : length done + length pre ≡ length front =
        omega (arith, length-append done (heads pre), hp) in
      rw (split, drop-append (length done + length pre) front after at)
        (first-append n r (heads rest ++ more) hr)

  over_end : (fuel i stop step : ℕ) (f : ℕ → List A) → stop ≤ i → for_range fuel i stop step f ≡ []
  unfolding for_range
  over_end zero i stop step f h = refl
  over_end (suc fuel) i stop step f h = ground arith

  column-from :
      (n fuel m : ℕ) (xs done : List A) (pre : List (List A)) (r : List A) (rest : List (List A))
      → Width n (pre ++ r ∷ rest)
      → xs ≡ done ++ columns n (pre ++ r ∷ rest)
      → n ≤ fuel
      → m ≡ length (pre ++ r ∷ rest)
      → for_range fuel (length done + length pre) (length xs) m (value_at xs) ≡ r
  unfolding for_range
  column-from zero fuel m xs done pre r rest h e l q =
      let none : r ≡ [] = empty r (All-append_right _ pre (r ∷ rest) h).0 in
      rw none (
        over_end fuel (length done + length pre) (length xs) m (value_at xs)
          (rw (e, append-nil done) (omega arith)))
    where
      empty : (r : List A) → length r ≡ 0 → r ≡ []
      empty [] p = refl
      empty (x ∷ r) p = ground arith
  column-from (suc n) zero m xs done pre r rest h e l q = absurd (omega arith)
  column-from (suc n) (suc fuel) m xs done pre r rest h e l q =
      let recs = pre ++ r ∷ rest in
      let same : tails recs ≡ tails pre ++ drop 1 r ∷ tails rest = map-append _ pre (r ∷ rest) in
      let hs = length-heads n recs h in
      let more =
        column-from n fuel m xs (done ++ heads recs) (tails pre) (drop 1 r) (tails rest)
          (rw (← same) (tails-Width n recs h))
          (rw (← same) (e ∙ sym (append_assoc done (heads recs) (columns n (tails recs)))))
          (omega arith) (rw (← same) (q ∙ sym (length-tails recs))) in
      let first = here n xs done pre r rest (columns n (tails recs)) h e in
      let next : length (done ++ heads recs) + length (tails pre) ≡ (length done + length pre) + m =
        omega (arith, length-append done (heads recs), length-tails pre, hs, q) in
      let room : ltb (length done + length pre) (length xs) ≡ true = rw e (
        ground (
          arith,
          length-append done (heads recs ++ columns n (tails recs)),
          length-append (heads recs) (columns n (tails recs)),
          hs,
          length-append pre (r ∷ rest),
        )) in
      rw (room, first, ← next, more) (take-drop r)

  -- One element for each of a list that a loop over its indices reaches.
  each_in_range :
      (f : ℕ → List (List A)) (recs pre rest : List (List A))
      → recs ≡ pre ++ rest
      → ((pre : List (List A)) (r : List A) (rest : List (List A))
          → recs ≡ pre ++ r ∷ rest
          → f (length pre) ≡ r ∷ [])
      → for_range (length rest) (length pre) (length recs) 1 f ≡ rest
  unfolding for_range
  each_in_range f recs pre [] e h = refl
  each_in_range f recs pre (r ∷ rest) e h =
      let more =
        each_in_range f recs (pre ++ r ∷ []) rest (e ∙ sym (append_assoc pre (r ∷ []) rest)) h in
      let next : length (pre ++ r ∷ []) ≡ length pre + 1 =
        omega (arith, length-append pre (r ∷ [])) in
      let room : ltb (length pre) (length recs) ≡ true =
        rw e (ground (arith, length-append pre (r ∷ rest))) in
      rw (room, h pre r rest e, ← next, more) refl

  by_columns-columns :
      (n : ℕ) (recs : List (List A)) → 1 ≤ n → Width n recs → by_columns n (columns n recs) ≡ recs
  unfolding by_columns
  by_columns-columns n recs o h =
      let size = length-columns n recs h in
      let num : length (columns n recs) / n ≡ length recs =
        rw (size, mul_comm n (length recs)) (mul-div_cancel (length recs) o) in
      rw num (
        each_in_range _ recs [] recs refl (λ pre r rest e.
          ap (λ l. l ∷ []) (start (length pre) (columns n recs) ∙ column pre r rest e)))
    where
      start :
          (i : ℕ) (xs : List A)
          → for_range (length xs) i (length xs) (length recs) (value_at xs)
            ≡ for_range (length xs) (0 + i) (length xs) (length recs) (value_at xs)
      start i xs =
          let zero_add : i ≡ 0 + i = omega arith in
          ap (λ j. for_range (length xs) j (length xs) (length recs) (value_at xs)) zero_add

      column :
          (pre : List (List A)) (r : List A) (rest : List (List A))
          → recs ≡ pre ++ r ∷ rest
          → for_range
              (length (columns n recs))
              (0 + length pre)
              (length (columns n recs))
              (length recs)
              (value_at (columns n recs))
            ≡ r
      column pre r rest e =
          column-from n (length (columns n recs)) (length recs) (columns n recs) [] pre r rest
            (rw (← e) h) (ap (columns n) e)
            (rw (length-columns n recs h)
              (le-mul_of_pos_right n (rw e (omega (arith, length-append pre (r ∷ rest))))))
            (ap length e)

-- For records of as many values as there are field names, at least one, the sub-records of the values
-- listed record by record (the JSON path has no "or"), and of the values listed column by column (it
-- has one), are both exactly the records.
pub compute_sub_records-recovers :
    {A : Type 0} (field_names : List String) (recs : List (List A))
    → 1 ≤ length field_names
    → Width (length field_names) recs
    → (compute_sub_records (flat recs) field_names false ≡ return recs)
      × (compute_sub_records (columns (length field_names) recs) field_names true ≡ return recs)
unfolding compute_sub_records
compute_sub_records-recovers [] recs o h = absurd (omega arith)
compute_sub_records-recovers (f ∷ fs) recs o h = (
  ap return (by_rows-flat (length (f ∷ fs)) recs o h),
  ap return (by_columns-columns (length (f ∷ fs)) recs o h),
)

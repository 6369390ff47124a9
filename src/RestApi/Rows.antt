-- ===== src/RestApi/Rows.antt =====
-- The sub-records of a result that lists the values row by row, or column by column.
use mathlib.Core.List.{append-nil, append_assoc}
use amundsen_fork.Prelude.{
  ℕ, zero, suc, ◌+◌, ◌≤◌, ◌≡◌, refl, sym, ap, ◌∙◌, true, List, [], ◌∷◌, ◌++◌, length, length-append,
  All, ltb, arith,
}
use amundsen_fork.RestApi.SubRecords.{drop, take, for_range, by_rows}

module _ {A : Type 0} where
  abbrev pub flat : List (List A) → List A
  flat [] = []
  flat (r ∷ rs) = r ++ flat rs

  pub drop-append : (n : ℕ) (pre xs : List A) → n ≡ length pre → drop n (pre ++ xs) ≡ xs
  drop-append n [] xs h = rw h refl
  drop-append zero (p ∷ pre) xs h = ground arith
  drop-append (suc n) (p ∷ pre) xs h = drop-append n pre xs (omega arith)

  take-append : (n : ℕ) (r xs : List A) → n ≡ length r → take n (r ++ xs) ≡ r
  take-append n [] xs h = rw h refl
  take-append zero (x ∷ r) xs h = ground arith
  take-append (suc n) (x ∷ r) xs h = ap (λ l. x ∷ l) (take-append n r xs (omega arith))

  -- Records of that many values.
  abbrev pub Width : ℕ → List (List A) → Type 0
  Width n recs = All (λ r. length r ≡ n) recs

  by_rows-from :
      (n fuel : ℕ) (xs pre : List A) (recs : List (List A))
      → 1 ≤ n
      → Width n recs
      → xs ≡ pre ++ flat recs
      → length (flat recs) ≤ fuel
      → for_range fuel (length pre) (length xs) n (λ i. take n (drop i xs) ∷ []) ≡ recs
  unfolding for_range
  by_rows-from n zero xs pre [] o h e l = refl
  by_rows-from n (suc fuel) xs pre [] o h e l = rw (e, append-nil pre) (ground arith)
  by_rows-from n zero xs pre (r ∷ recs) o h e l = ground (arith, length-append r (flat recs), h.0)
  by_rows-from n (suc fuel) xs pre (r ∷ recs) o h e l =
      let split = length-append r (flat recs) in
      let more =
        by_rows-from n fuel xs (pre ++ r) recs o h.1 (e ∙ sym (append_assoc pre r (flat recs)))
          (omega (arith, split, h.0)) in
      let here : take n (drop (length pre) xs) ≡ r =
        rw (e, drop-append (length pre) pre (r ++ flat recs) refl)
          (take-append n r (flat recs) (sym h.0)) in
      let next : length (pre ++ r) ≡ length pre + n = omega (arith, length-append pre r, h.0) in
      let room : ltb (length pre) (length xs) ≡ true =
        rw e (ground (arith, length-append pre (r ++ flat recs), split, h.0)) in
      rw (room, here, ← next, more) refl

  pub by_rows-flat :
      (n : ℕ) (recs : List (List A)) → 1 ≤ n → Width n recs → by_rows n (flat recs) ≡ recs
  unfolding by_rows
  by_rows-flat n recs o h =
      by_rows-from n (length (flat recs)) (flat recs) [] recs o h refl (omega arith)

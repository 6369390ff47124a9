-- ===== src/Search/Paging.antt =====
-- The pages of a search, as slices of all its hits.
use amundsen_fork.Prelude.{
  ℕ, zero, suc, ◌+◌, ◌*◌, ◌-◌, ◌≡◌, refl, ap, ◌∙◌, sym, List, [], ◌∷◌, ◌++◌, arith,
}
use native.Mathlib.Numerals.{unary_clauses}
use amundsen_fork.RestApi.{take, drop}
use amundsen_fork.Search.Resources.{Resource}
use amundsen_fork.Search.Hits.{IndexSearch}
use amundsen_fork.Search.Execution.{page_search}

module _ {A Q : Type 0} where
  -- The hits that Elasticsearch gives for a search, of all those of its query.
  abbrev pub slice : IndexSearch Q → List A → List A
  slice s hits = take (s.stop - s.start) (drop s.start hits)

module _ {A : Type 0} where
  take-add : (n m : ℕ) (xs : List A) → take (n + m) xs ≡ take n xs ++ take m (drop n xs)
  take-add zero m xs = ap (λ (k : ℕ). take k xs) (omega arith)
  take-add (suc n) zero [] = simp unary_clauses refl
  take-add (suc n) (suc m) [] = simp unary_clauses refl
  take-add (suc n) m (x ∷ xs) =
      let e : suc n + m ≡ suc (n + m) = omega arith in rw e (ap (λ t. x ∷ t) (take-add n m xs))

pub page_length : (k n : ℕ) → k * (n + 1) - n * k ≡ k
page_length k n = grind arith

module _ {A Q : Type 0} (results_per_page : ℕ) (resource : Resource) (query : Q) where
  -- The hits of the first pages, one after the other.
  abbrev pub pages : ℕ → List A → List A
  pages zero hits = []
  pages (suc n) hits = pages n hits ++ slice (page_search n results_per_page resource query) hits

  -- The first pages of a search together are the first hits, as many as the pages have places:
  -- no hit is left out between two pages or stands on both.
  pub pages-take : (n : ℕ) (hits : List A) → pages n hits ≡ take (n * results_per_page) hits
  unfolding page_search
  pages-take zero hits = let e : 0 * results_per_page ≡ 0 = omega arith in rw e refl
  pages-take (suc n) hits =
      rw (pages-take n hits, page_length results_per_page n)
        (sym (take-add (n * results_per_page) results_per_page hits)
          ∙ ap (λ (k : ℕ). take k hits) (grind arith))

-- ===== src/Loader/Routing.antt =====
-- Which rows the writers of `FsNeo4jCSVLoader` are given.
use amundsen_fork.Prelude.{
  ℕ, String, ◌≡◌, Bool, true, false, none, some, List, [], ◌∷◌, ◌++◌, if◌then◌else◌, string_eq,
  option_eq, triple_eq, Eq, arith, beq_refl,
}
use amundsen_fork.Publisher.{Record}
use amundsen_fork.Loader.Files.{names, index_of, Writer, same_key, Loader}

-- Every set that has a number keeps it.
abbrev pub Extends : List (List String) → List (List String) → Type 0
Extends keys more =
    (xs : List String) (n : ℕ) → index_of xs keys ≡ some n → index_of xs more ≡ some n

abbrev row_if : Bool → Record → List Record
row_if b dict = if b then dict ∷ [] else []

module _ {K : Type 0} ⦃e : Eq K⦄ where
  same_key_refl : (q : K × ℕ) → same_key q q ≡ true
  same_key_refl (a, n) = ground (arith, beq_refl a)

  -- The rows that the writer of a key was given, in order.
  unfoldable pub rows_of : K × ℕ → List ((K × ℕ) × Writer) → List Record
  rows_of q [] = []
  rows_of q ((k, f) ∷ mapping) =
      let rest = rows_of q mapping in if same_key q k then f.rows else rest

  -- Whether a row belongs to the writer of the key.
  unfoldable pub is_routed : K × ℕ → List (List String) → K → Record → Bool
  is_routed q keys label dict = elim (index_of (names dict) keys) [
    | none ↦ false
    | some n ↦ same_key q (label, n)
  ]

  pub select : K × ℕ → List (List String) → List (K × Record) → List Record
  select q keys [] = []
  select q keys ((label, dict) ∷ rest) =
      row_if (is_routed q keys label dict) dict ++ select q keys rest

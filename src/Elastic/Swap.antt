-- ===== src/Elastic/Swap.antt =====
-- The indices of the alias after the actions that `publish_impl` sends.
use mathlib.Core.List.{mem-cons_self, mem-cons_of_mem}
use amundsen_fork.Prelude.{
  String, str_eq, str_eq_refl, ◌≡◌, refl, ap, ◌∙◌, Bool, true, false, Bool-cases, inl, inr, List,
  [], ◌∷◌, ◌++◌, ◌||◌, map, All, Mem, contains, contains_of_mem, string_eq, arith,
}
use amundsen_fork.Elastic.Connection.{AliasAction, add, remove_index}
use amundsen_fork.Elastic.Contract.{without, applied, removed}

abbrev removals : List String → List AliasAction
removals old = map (λ i. remove_index i) old

-- Each of the indices is among the old ones.
abbrev Old : List String → List String → Type 0
Old old indices = All (λ i. contains i old ≡ true) indices

without-append :
    (i n : String) (xs : List String)
    → str_eq n i ≡ false
    → without i (xs ++ n ∷ []) ≡ without i xs ++ n ∷ []
unfolding without
without-append i n [] h = rw h refl
without-append i n (x ∷ xs) h = ground (arith, without-append i n xs h)

without-Old : (o : String) (old xs : List String) → Old (o ∷ old) xs → Old old (without o xs)
unfolding without contains
without-Old o old [] h = tt
without-Old o old (x ∷ xs) h = elim (Bool-cases (str_eq x o)) [
  | inl p ↦ rw p (without-Old o old xs h.1)
  | inr p ↦ rw p (later (str_eq x o) (contains x old) p h.0, without-Old o old xs h.1)
]
  where
    later : (a b : Bool) → a ≡ false → (a || b) ≡ true → b ≡ true
    later a b p q = ground arith

applied-removals :
    (alias n : String) (old xs : List String)
    → Old old xs
    → contains n old ≡ false
    → applied alias (removals old) (xs ++ n ∷ []) ≡ n ∷ []
unfolding applied contains
applied-removals alias n [] [] h k = refl
applied-removals alias n [] (x ∷ xs) h k = ground (arith, h.0)
applied-removals alias n (o ∷ old) xs h k =
    let (a, b) = or_false (str_eq n o) (contains n old) k in
    ap (applied alias (removals old)) (without-append o n xs a)
    ∙ applied-removals alias n old (without o xs) (without-Old o old xs h) b
  where
    or_false : (a b : Bool) → (a || b) ≡ false → (a ≡ false) × (b ≡ false)
    or_false a b p = (ground arith, ground arith)

Old-all : (old xs : List String) → ((i : String) → Mem i xs → Mem i old) → Old old xs
Old-all old [] h = tt
Old-all old (x ∷ xs) h =
    (contains_of_mem x old (h x mem-cons_self), Old-all old xs (λ i m. h i (mem-cons_of_mem x m)))

-- Adding a new index and removing the old ones leaves the new one alone.
pub applied-swap :
    (alias n : String) (old : List String)
    → contains n old ≡ false
    → applied alias (add n alias ∷ removals old) old ≡ n ∷ []
unfolding applied
applied-swap alias n old h =
    ground
      (arith, str_eq_refl alias, applied-removals alias n old old (Old-all old old (λ i m. m)) h)

pub removed-removals : (old : List String) → removed (removals old) ≡ old
unfolding removed
removed-removals [] = refl
removed-removals (o ∷ old) = ap (λ l. o ∷ l) (removed-removals old)

-- ===== src/Extractor/Runs.antt =====
-- The groups of rows.
use amundsen_fork.Prelude.{
  str_eq_iff, ◌≡◌, refl, ap, ◌∙◌, true, false, Bool-cases, inl, inr, List, [], ◌∷◌, ◌++◌, All,
  arith,
}
use amundsen_fork.Extractor.Groups.{Row, same_table, Run, push, groupby}

-- The rows of the groups.
abbrev pub rows_of : List Run → List Row
rows_of [] = []
rows_of ((first, rest) ∷ runs) = (first ∷ rest) ++ rows_of runs

-- The first group, if any, is of another table.
abbrev pub Apart : Row → List Run → Type 0
Apart row [] = Unit
Apart row ((first, rest) ∷ runs) = same_table row first ≡ false

-- Groups of rows of one table each, each group of another table than the one before.
abbrev pub Grouped : List Run → Type 0
Grouped [] = Unit
Grouped ((first, rest) ∷ runs) =
    All (λ row. same_table first row ≡ true) rest × Apart first runs × Grouped runs

same_table_both : (a b c : Row) → same_table a b ≡ true → (same_table b c ≡ same_table a c)
unfolding same_table
same_table_both a b c h =
    let p : a.schema ≡ b.schema = ground (arith, str_eq_iff a.schema b.schema) in
    let q : a.name ≡ b.name = ground (arith, str_eq_iff a.name b.name) in rw (p, q) refl

push-Apart : (row : Row) (runs : List Run) → Apart row runs → push row runs ≡ (row, []) ∷ runs
unfolding push
push-Apart row [] h = refl
push-Apart row ((first, rest) ∷ runs) h = rw h refl

Apart-same : (a b : Row) (runs : List Run) → same_table a b ≡ true → Apart a runs → Apart b runs
Apart-same a b [] h k = tt
Apart-same a b ((first, rest) ∷ runs) h k = same_table_both a b first h ∙ k

All-same :
    (a b : Row) (rest : List Row)
    → same_table a b ≡ true
    → All (λ row. same_table a row ≡ true) rest
    → All (λ row. same_table b row ≡ true) rest
All-same a b [] h k = tt
All-same a b (c ∷ rest) h k = (same_table_both a b c h ∙ k.0, All-same a b rest h k.1)

groupby-run :
    (first : Row) (rest : List Row) (runs : List Run)
    → All (λ row. same_table first row ≡ true) rest
    → Apart first runs
    → groupby (rows_of runs) ≡ runs
    → groupby ((first ∷ rest) ++ rows_of runs) ≡ (first, rest) ∷ runs
unfolding groupby push
groupby-run first [] runs h a g = ap (push first) g ∙ push-Apart first runs a
groupby-run first (row ∷ rest) runs h a g =
    ap (push first) (
      groupby-run row rest runs (All-same first row rest h.0 h.1) (Apart-same first row runs h.0 a)
        g)
    ∙ rw h.0 refl

pub groupby-rows_of : (runs : List Run) → Grouped runs → groupby (rows_of runs) ≡ runs
unfolding groupby
groupby-rows_of [] h = refl
groupby-rows_of ((first, rest) ∷ runs) h =
    groupby-run first rest runs h.0 h.1 (groupby-rows_of runs h.2)

rows_of-push : (row : Row) (runs : List Run) → rows_of (push row runs) ≡ row ∷ rows_of runs
unfolding push
rows_of-push row [] = refl
rows_of-push row ((first, rest) ∷ runs) = elim (Bool-cases (same_table row first)) [
  | inl h ↦ rw h refl
  | inr h ↦ rw h refl
]

-- No row is lost.
pub rows_of-groupby : (rows : List Row) → rows_of (groupby rows) ≡ rows
unfolding groupby
rows_of-groupby [] = refl
rows_of-groupby (row ∷ rows) =
    rows_of-push row (groupby rows) ∙ ap (λ l. row ∷ l) (rows_of-groupby rows)

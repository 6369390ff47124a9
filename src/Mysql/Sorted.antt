-- ===== src/Mysql/Sorted.antt =====
-- What sorting the files by their tables does to their rows.
use mathlib.Core.List.Perm
use mathlib.Core.List.{Perm, append_assoc, perm_append_comm}
use amundsen_fork.Prelude.{
  ℕ, ◌≤◌, leb, Bool-cases, inl, inr, ◌≡◌, List, [], ◌∷◌, ◌++◌, map, All, All-mono, All-append,
  arith,
}
use amundsen_fork.Mysql.Files.{RecordFile}
use amundsen_fork.Mysql.Publish.{insert_by, insertion_sort}

abbrev Keyed : Type 0 → Type 0
Keyed R = List (ℕ × RecordFile R)

module _ {R : Type 0} where
  -- The rows of some files, in order.
  abbrev pub rows_of : List (RecordFile R) → List R
  rows_of [] = []
  rows_of (f ∷ files) = f.rows ++ rows_of files

  abbrev pub unkeyed : List (ℕ × RecordFile R) → List (RecordFile R)
  unkeyed keyed = map (λ f. f.1) keyed

  insert_by-rows_of :
      (k : ℕ) (f : RecordFile R) (l : Keyed R)
      → Perm (rows_of (unkeyed (insert_by k f l))) (f.rows ++ rows_of (unkeyed l))
  unfolding insert_by
  insert_by-rows_of k f [] = Perm.refl (f.rows ++ [])
  insert_by-rows_of k f ((j, g) ∷ l) = elim (Bool-cases (leb k j)) [
    | inl e ↦ rw e (Perm.refl (f.rows ++ (g.rows ++ rows_of (unkeyed l))))
    | inr e ↦
        rw (e, ← append_assoc f.rows g.rows (rows_of (unkeyed l)))
          (Perm.trans (Perm.append_left g.rows (insert_by-rows_of k f l)) (
            rw (← append_assoc g.rows f.rows (rows_of (unkeyed l)))
              (Perm.append_right (rows_of (unkeyed l)) (perm_append_comm g.rows f.rows))))
  ]

  pub insertion_sort-rows_of :
      (l : List (ℕ × RecordFile R))
      → Perm (rows_of (unkeyed (insertion_sort l))) (rows_of (unkeyed l))
  unfolding insertion_sort
  insertion_sort-rows_of [] = Perm.refl []
  insertion_sort-rows_of ((k, f) ∷ l) =
      Perm.trans (insert_by-rows_of k f (insertion_sort l))
        (Perm.append_left f.rows (insertion_sort-rows_of l))

  insert_by-All :
      (P : ℕ × RecordFile R → Type 0) (k : ℕ) (f : RecordFile R) (l : Keyed R)
      → P (k, f)
      → All P l
      → All P (insert_by k f l)
  unfolding insert_by
  insert_by-All P k f [] h a = (h, tt)
  insert_by-All P k f ((j, g) ∷ l) h a = elim (Bool-cases (leb k j)) [
    | inl e ↦ rw e (h, (a.0, a.1))
    | inr e ↦ rw e (a.0, insert_by-All P k f l h a.1)
  ]

  pub insertion_sort-All :
      (P : ℕ × RecordFile R → Type 0) (l : List (ℕ × RecordFile R))
      → All P l
      → All P (insertion_sort l)
  unfolding insertion_sort
  insertion_sort-All P [] a = tt
  insertion_sort-All P ((k, f) ∷ l) a =
      insert_by-All P k f (insertion_sort l) a.0 (insertion_sort-All P l a.1)

  abbrev AtLeast : ℕ → ℕ × RecordFile R → Type 0
  AtLeast k x = k ≤ x.0

  abbrev pub Ascending : List (ℕ × RecordFile R) → Type 0
  Ascending [] = Unit
  Ascending (x ∷ l) = All (AtLeast x.0) l × Ascending l

  insert_by-Ascending :
      (k : ℕ) (f : RecordFile R) (l : Keyed R) → Ascending l → Ascending (insert_by k f l)
  unfolding insert_by
  insert_by-Ascending k f [] h = (tt, tt)
  insert_by-Ascending k f ((j, g) ∷ l) h = elim (Bool-cases (leb k j)) [
    | inl e ↦
        let le : k ≤ j = ground (arith, e) in
        rw e
          ((le, All-mono (AtLeast j) (AtLeast k) l (λ x m. omega (arith, le, m)) h.0), (h.0, h.1))
    | inr e ↦
        let ge : j ≤ k = ground (arith, e) in
        rw e (insert_by-All (AtLeast j) k f l ge h.0, insert_by-Ascending k f l h.1)
  ]

  pub insertion_sort-Ascending : (l : List (ℕ × RecordFile R)) → Ascending (insertion_sort l)
  unfolding insertion_sort
  insertion_sort-Ascending [] = tt
  insertion_sort-Ascending ((k, f) ∷ l) =
      insert_by-Ascending k f (insertion_sort l) (insertion_sort-Ascending l)

module _ {R : Type 0} (rank : R → ℕ) where
  abbrev pub From : ℕ → R → Type 0
  From n r = n ≤ rank r

  -- No row stands after one of a greater rank.
  abbrev pub Graded : List R → Type 0
  Graded [] = Unit
  Graded (r ∷ rs) = All (From (rank r)) rs × Graded rs

  -- The rows of the file are of its rank.
  abbrev pub IsRanked : ℕ × RecordFile R → Type 0
  IsRanked x = All (λ r. rank r ≡ x.0) x.1.rows

  Graded-append :
      (n : ℕ) (rs ss : List R)
      → All (λ r. rank r ≡ n) rs
      → All (From n) ss
      → Graded ss
      → Graded (rs ++ ss)
  Graded-append n [] ss h k g = g
  Graded-append n (r ∷ rs) ss h k g = (
    All-append (From (rank r)) rs ss
        (All-mono (λ s. rank s ≡ n) (From (rank r)) rs (λ s e. omega (arith, h.0, e)) h.1)
        (All-mono (From n) (From (rank r)) ss (λ s e. omega (arith, h.0, e)) k),
    Graded-append n rs ss h.1 k g,
  )

  rows_of-From :
      (n : ℕ) (l : Keyed R)
      → All (AtLeast n) l
      → All IsRanked l
      → All (From n) (rows_of (unkeyed l))
  rows_of-From n [] a h = tt
  rows_of-From n ((k, f) ∷ l) a h =
      All-append (From n) f.rows (rows_of (unkeyed l))
        (All-mono (λ r. rank r ≡ k) (From n) f.rows (λ r e. omega (arith, e, a.0)) h.0)
        (rows_of-From n l a.1 h.1)

  pub rows_of-Graded :
      (l : List (ℕ × RecordFile R)) → Ascending l → All IsRanked l → Graded (rows_of (unkeyed l))
  rows_of-Graded [] a h = tt
  rows_of-Graded ((k, f) ∷ l) a h =
      Graded-append k f.rows (rows_of (unkeyed l)) h.0 (rows_of-From k l a.0 h.1)
        (rows_of-Graded l a.1 h.1)

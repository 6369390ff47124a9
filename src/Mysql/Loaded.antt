-- ===== src/Mysql/Loaded.antt =====
-- The files of the loader hold the rows that were loaded, each under its table.
use mathlib.Core.List.Perm
use mathlib.Core.List.{Perm, perm_middle, append_assoc}
use amundsen_fork.Prelude.{
  ℕ, String, str_eq_iff, Bool-cases, inl, inr, ◌≡◌, refl, sym, List, [], ◌∷◌, ◌++◌, All, All-append,
  arith,
}
use amundsen_fork.Loader.{make_key}
use amundsen_fork.Mysql.Files.{Mapping, Loader, same_file, write_record, load}

module _ {R : Type 0} where
  -- The rows of all files.
  abbrev pub contents : Mapping R → List R
  contents [] = []
  contents ((k, rows) ∷ mapping) = rows ++ contents mapping

  write_record-contents :
      (key : String × ℕ) (r : R) (mapping : Mapping R)
      → Perm (contents (write_record key r mapping)) (r ∷ contents mapping)
  unfolding write_record
  write_record-contents key r [] = Perm.refl (r ∷ [])
  write_record-contents key r ((k, rows) ∷ mapping) = elim (Bool-cases (same_file k key)) [
    | inl e ↦
        rw (e, append_assoc rows (r ∷ []) (contents mapping)) (perm_middle rows (contents mapping))
    | inr n ↦ rw n (
        Perm.trans (Perm.append_left rows (write_record-contents key r mapping))
          (perm_middle rows (contents mapping)))
  ]

module _ {R : Type 0} (tablename : R → String) where
  -- A file is named after the table of its rows, which are some.
  pub record IsFile (f : (String × ℕ) × List R) : Type 0 where
    pub one : R
    pub named : f.0.0 ≡ tablename one
    pub rows_named : All (λ r. tablename r ≡ f.0.0) f.1

  write_record-IsFile :
      (n : ℕ) (r : R) (mapping : Mapping R)
      → All IsFile mapping
      → All IsFile (write_record (tablename r, n) r mapping)
  unfolding write_record
  write_record-IsFile n r [] h = (record { one = r; named = refl; rows_named = (refl, tt) }, tt)
  write_record-IsFile n r (((t, j), rows) ∷ mapping) h =
      elim (Bool-cases (same_file (t, j) (tablename r, n))) [
        | inl e ↦
            let same : t ≡ tablename r = (str_eq_iff t (tablename r)).0 (ground (arith, e)) in
            rw e (
              record {
                one = h.0.one;
                named = h.0.named;
                rows_named =
                    All-append (λ x. tablename x ≡ t) rows (r ∷ []) h.0.rows_named (sym same, tt);
              },
              h.1,
            )
        | inr e ↦ rw e (h.0, write_record-IsFile n r mapping h.1)
      ]

module _ {R : Type 0} (tablename : R → String) (columns : R → List String) where
  pub load-contents :
      (rs : List R) (l : Loader R)
      → Perm
          (contents (load tablename columns rs l).record_file_mapping)
          (rs ++ contents l.record_file_mapping)
  unfolding load
  load-contents [] l = Perm.refl (contents l.record_file_mapping)
  load-contents (r ∷ rs) l =
      let (number, keys) = make_key (columns r) l.keys in
      let mapping = write_record (tablename r, number) r l.record_file_mapping in
      Perm.trans (load-contents rs (record { keys = keys; record_file_mapping = mapping })) (
        Perm.trans
          (Perm.append_left rs
            (write_record-contents (tablename r, number) r l.record_file_mapping))
          (perm_middle rs (contents l.record_file_mapping)))

  pub load-IsFile :
      (rs : List R) (l : Loader R)
      → All (IsFile tablename) l.record_file_mapping
      → All (IsFile tablename) (load tablename columns rs l).record_file_mapping
  unfolding load
  load-IsFile [] l h = h
  load-IsFile (r ∷ rs) l h =
      let (number, keys) = make_key (columns r) l.keys in
      let mapping = write_record (tablename r, number) r l.record_file_mapping in
      load-IsFile rs (record { keys = keys; record_file_mapping = mapping })
        (write_record-IsFile tablename number r l.record_file_mapping h)

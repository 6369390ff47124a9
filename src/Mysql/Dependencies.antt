-- ===== src/Mysql/Dependencies.antt =====
-- Rows that are loaded and published: a row is merged after the rows that it refers to.
use mathlib.Core.List.Perm
use mathlib.Core.List.{Perm, Permᴰ, append-nil, append_assoc, perm_append_comm}
use mathlib.Core.Path.{subst}
use amundsen_fork.Prelude.{
  ℕ, ◌<◌, String, ◌≡◌, refl, sym, ap, ◌∙◌, List, [], ◌∷◌, ◌++◌, Mem, some, All, All-mono,
}
use amundsen_fork.Prelude.Effects.{Result, return, raise}
use amundsen_fork.Models.Rds.{RdsModel, Key, own, parents}
use amundsen_fork.Models.Rds.Order.{ParentsFirst}
use amundsen_fork.Mysql.Names.{file_suffix}
use amundsen_fork.Mysql.Files.{RecordFile, Mapping, Loader, record_files, load}
use amundsen_fork.Mysql.Publish.{
  Failure, index_of_name, index_or_error, index_of_result, sort_key, insertion_sort, add_key,
  with_keys, sorted_files, sort_record_files, Session, MySqlCsvPublisher, publish_impl,
}
use amundsen_fork.Mysql.Filed.{get_table_name_from_file-file_suffix}
use amundsen_fork.Mysql.Loaded.{contents, IsFile, load-contents, load-IsFile}
use amundsen_fork.Mysql.Sorted.{
  rows_of, unkeyed, insertion_sort-rows_of, insertion_sort-All, insertion_sort-Ascending, IsRanked,
  rows_of-Graded,
}
use amundsen_fork.Mysql.Ranked.{sorted-ParentsFirst}
use amundsen_fork.Mysql.Merged.{Log, Merged}
use amundsen_fork.Mysql.Published.{publish_impl-Merged}

All-Permᴰ : {A : Type 0} (P : A → Type 0) (xs ys : List A) → Permᴰ xs ys → All P xs → All P ys
All-Permᴰ P _ _ Permᴰ.nil h = h
All-Permᴰ P _ _ (Permᴰ.cons {a} {b} {l₁} {l₂} e q) h = (subst P e h.0, All-Permᴰ P l₁ l₂ q h.1)
All-Permᴰ P _ _ (Permᴰ.swap d e) h = (subst P e h.1.0, (subst P d h.0, h.1.1))
All-Permᴰ P _ _ (Permᴰ.trans {l₁} {l₂} {l₃} q r) h = All-Permᴰ P l₂ l₃ r (All-Permᴰ P l₁ l₂ q h)

module _ {R : Type 0} where
  swapped : (xs ys zs : List R) → Perm (xs ++ (ys ++ zs)) (ys ++ (xs ++ zs))
  swapped xs ys zs =
      rw (← append_assoc xs ys zs, ← append_assoc ys xs zs)
        (Perm.append_right zs (perm_append_comm xs ys))

  contents-Permᴰ : (xs ys : Mapping R) → Permᴰ xs ys → Perm (contents xs) (contents ys)
  contents-Permᴰ _ _ Permᴰ.nil = Perm.refl []
  contents-Permᴰ _ _ (Permᴰ.cons {a} {b} {l₁} {l₂} e q) =
      subst (λ (f : (String × ℕ) × List R). Perm (a.1 ++ contents l₁) (f.1 ++ contents l₂)) e
        (Perm.append_left a.1 (contents-Permᴰ l₁ l₂ q))
  contents-Permᴰ _ _ (Permᴰ.swap {a} {b} {a'} {b'} {l} d e) =
      rw (← d, ← e) (swapped a.1 b.1 (contents l))
  contents-Permᴰ _ _ (Permᴰ.trans {l₁} {l₂} {l₃} q r) =
      Perm.trans (contents-Permᴰ l₁ l₂ q) (contents-Permᴰ l₂ l₃ r)

ParentsFirst-prefix :
    (done left : List RdsModel) (seen : List Key)
    → ParentsFirst seen (done ++ left)
    → ParentsFirst seen done
ParentsFirst-prefix [] left seen h = tt
ParentsFirst-prefix (r ∷ done) left seen h =
    (h.0, ParentsFirst-prefix done left (own r ++ seen) h.1)

module _ {R : Type 0} (tablename : R → String) (sorted_table_names : List String) (rank : R → ℕ)
    (indexed : (r : R) → index_of_name (tablename r) sorted_table_names ≡ some (rank r)) where
  -- The files with the keys that they are sorted by.
  record Keyed (E : Type 0) (mapping : Mapping R) : Type 0 where
    keyed : List (ℕ × RecordFile R)
    sorts : with_keys {E = E} sorted_table_names (record_files mapping) ≡ return keyed
    ranked : All (IsRanked rank) keyed
    same_rows : rows_of (unkeyed keyed) ≡ contents mapping

  same_rank : (r one : R) (t : String) → t ≡ tablename one → tablename r ≡ t → rank r ≡ rank one
  same_rank r one t e h =
      let a = indexed r in let b = indexed one in let c : tablename r ≡ tablename one = h ∙ e in cc

  with_keys-Keyed :
      (E : Type 0) (mapping : Mapping R) → All (IsFile tablename) mapping → Keyed E mapping
  unfolding with_keys record_files sort_key index_of_result index_or_error add_key
  with_keys-Keyed E [] h = record { keyed = []; sorts = refl; ranked = tt; same_rows = refl }
  with_keys-Keyed E (((t, n), rows) ∷ mapping) h =
      let rest = with_keys-Keyed E mapping h.1 in
      let one = h.0.one in
      let at_one : index_of_name t sorted_table_names ≡ some (rank one) =
        rw (h.0.named) (indexed one) in
      record {
        keyed = (rank one, record { name = file_suffix (t, n); rows = rows }) ∷ rest.keyed;
        sorts = rw (get_table_name_from_file-file_suffix t n, at_one, rest.sorts) refl;
        ranked = (
          All-mono (λ r. tablename r ≡ t) (λ r. rank r ≡ rank one) rows
              (λ r e. same_rank r one t h.0.named e) h.0.rows_named,
          rest.ranked,
        );
        same_rows = ap (λ l. rows ++ l) rest.same_rows;
      }

module _ {W E : Type 0} (tablename : RdsModel → String) (columns : RdsModel → List String)
    (sorted_table_names : List String) (rank : RdsModel → ℕ) (s : Session W RdsModel E)
    (p : MySqlCsvPublisher) (log : Log s) where
  -- The merges are of all rows, where the publication returned.
  abbrev pub Finished : List RdsModel → Result (Failure E) ℕ × W → Type 0
  Finished rs (return n, w) = Perm (log.merged w) rs
  Finished rs (raise e, w) = Unit

  -- The files can be sorted, and whatever their publication raises, each merged row follows the
  -- rows that it refers to.
  abbrev pub PublishedInOrder :
      List RdsModel → W → Result (Failure E) (List (RecordFile RdsModel)) → Type 0
  PublishedInOrder rs w (raise e) = ⊥
  PublishedInOrder rs w (return files) =
      ParentsFirst [] (log.merged (publish_impl s p files w).1)
      × Finished rs (publish_impl s p files w)

  Merged-Finished :
      (rows rs : List RdsModel) (w : W) (out : Result (Failure E) ℕ × W)
      → log.merged w ≡ []
      → Perm rows rs
      → Merged s p log rows w out
      → Finished rs out
  Merged-Finished rows rs w (raise e, v) h perm m = tt
  Merged-Finished rows rs w (return n, v) h perm m =
      let all_done : m.done ≡ rows =
        sym (append-nil m.done) ∙ (ap (λ t. m.done ++ t) (sym (m.complete n refl)) ∙ m.parts) in
      subst (λ l. Perm l rs) (sym (m.in_log ∙ (ap (λ l. l ++ m.done) h ∙ all_done))) perm

  Merged-ParentsFirst :
      (rows : List RdsModel) (w : W) (out : Result (Failure E) ℕ × W)
      → log.merged w ≡ []
      → ParentsFirst [] rows
      → Merged s p log rows w out
      → ParentsFirst [] (log.merged out.1)
  Merged-ParentsFirst rows w out h first m =
      subst (ParentsFirst []) (sym (m.in_log ∙ ap (λ l. l ++ m.done) h))
        (ParentsFirst-prefix m.done m.left [] (subst (ParentsFirst []) (sym m.parts) first))

  -- Where the tables are sorted so that each row refers to rows of earlier tables only, and each
  -- row of a list follows the rows that it refers to: the files that the loader makes of the list,
  -- listed in any order, can be sorted, and in their publication, whichever calls raise, each row is merged after the
  -- rows that it refers to. After a return the merged rows are those of the list, up to order.
  pub load-PublishedInOrder :
      (rs : List RdsModel) (listed : Mapping RdsModel) (w : W)
      → Permᴰ
          (load tablename columns rs
            (record { keys = []; record_file_mapping = [] })).record_file_mapping
          listed
      → ((r : RdsModel) → index_of_name (tablename r) sorted_table_names ≡ some (rank r))
      → ((r parent : RdsModel) (k : Key)
          → Mem k (parents r)
          → Mem k (own parent)
          → rank parent < rank r)
      → ParentsFirst [] rs
      → log.merged w ≡ []
      → PublishedInOrder rs w (sort_record_files sorted_table_names (record_files listed))
  unfolding sort_record_files sorted_files
  load-PublishedInOrder rs listed w order indexed less first h =
      let start : Loader RdsModel = record { keys = []; record_file_mapping = [] } in
      let loaded = (load tablename columns rs start).record_file_mapping in
      let k = with_keys-Keyed tablename sorted_table_names rank indexed E listed (
        All-Permᴰ (IsFile tablename) loaded listed order
          (load-IsFile tablename columns rs start tt)) in
      let files = insertion_sort k.keyed in
      let rows = rows_of (unkeyed files) in
      let perm : Perm rows rs = Perm.trans (insertion_sort-rows_of k.keyed) (
        rw (k.same_rows) (
          Perm.trans (Perm.symm (contents-Permᴰ loaded listed order)) (
            subst (Perm (contents loaded)) (append-nil rs)
              (load-contents tablename columns rs start)))) in
      let in_order = sorted-ParentsFirst rank rs rows less first perm (
        rows_of-Graded rank files (insertion_sort-Ascending k.keyed)
          (insertion_sort-All (IsRanked rank) k.keyed k.ranked)) in
      let m = publish_impl-Merged s p log (unkeyed files) w in
      rw (k.sorts) (
        Merged-ParentsFirst rows w (publish_impl s p (unkeyed files) w) h in_order m,
        Merged-Finished rows rs w (publish_impl s p (unkeyed files) w) h perm m,
      )

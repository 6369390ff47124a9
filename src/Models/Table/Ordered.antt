-- ===== src/Models/Table/Ordered.antt =====
-- The rows of tables come in an order in which each row follows the rows that it refers to.
use mathlib.Core.Logic.Or
use mathlib.Core.List.{mem-cons, not-mem-nil, mem-cons_self, mem-cons_of_mem}
use amundsen_fork.Prelude.{
  String, ◌≡◌, refl, sym, ap, Option, none, some, List, [], ◌∷◌, ◌++◌, Mem, All, str_eq, Bool-cases,
  inl, inr, string_eq,
}
use amundsen_fork.Models.Description.{DescriptionMetadata, label, description_label}
use amundsen_fork.Models.Badge.{Badge, get_badge_key}
use amundsen_fork.Models.Serialized.{emit_new}
use amundsen_fork.Models.Rds
use amundsen_fork.Models.Rds.{RdsModel, Key, own, parents}
use amundsen_fork.Models.Rds.Order.{
  ParentsFirst, after, Known, IsProper, rows, emit-Emitted, ParentsFirst-append, after-Within,
  after-append,
}
use amundsen_fork.Models.Table.Defs.{
  TableMetadata, ColumnMetadata, get_database_key, get_cluster_key, get_schema_key, get_table_key,
  get_col_key, get_tag_key,
}
use amundsen_fork.Models.Table.Records.{
  tag_record, other_records, table_description_records, tag_records, column_description_records,
  column_badge_records, column_records, table_records, create_records, load_records,
}

module _ (t : TableMetadata) where
  abbrev table : Key
  table = (Rds.tables, get_table_key t)

  description-ParentsFirst :
      (d : Option DescriptionMetadata) (seen : List Key)
      → Mem table seen
      → ParentsFirst seen (table_description_records t d)
  unfolding parents
  description-ParentsFirst none seen m = tt
  description-ParentsFirst (some d) seen m =
      elim (Bool-cases (str_eq (label d) description_label)) [
        | inl h ↦ rw h ((m, tt), tt)
        | inr h ↦ rw h ((m, tt), tt)
      ]

  tags-ParentsFirst :
      (tags : List String) (seen : List Key)
      → Mem table seen
      → ParentsFirst seen (tag_records t tags)
  unfolding parents own tag_record tag_records
  tags-ParentsFirst [] seen m = tt
  tags-ParentsFirst (tag ∷ tags) seen m =
      let key : Key = (Rds.tags, get_tag_key tag) in
      let m' = mem-cons_of_mem key m in
      (tt, ((m', (mem-cons_self, tt)), tags-ParentsFirst tags (key ∷ seen) m'))

  column_badges-ParentsFirst :
      (rk : String) (badges : List Badge) (seen : List Key)
      → Mem (Rds.columns, rk) seen
      → ParentsFirst seen (column_badge_records t rk badges)
  unfolding parents own column_badge_records
  column_badges-ParentsFirst rk [] seen m = tt
  column_badges-ParentsFirst rk (b ∷ badges) seen m =
      let key : Key = (Rds.badges, get_badge_key b.name) in
      let m' = mem-cons_of_mem key m in
      (tt, ((m', (mem-cons_self, tt)), column_badges-ParentsFirst rk badges (key ∷ seen) m'))

  column_description-ParentsFirst :
      (col : ColumnMetadata) (d : Option DescriptionMetadata) (seen : List Key)
      → Mem (Rds.columns, get_col_key t col) seen
      → ParentsFirst seen (column_description_records t col d)
  unfolding parents
  column_description-ParentsFirst col none seen m = tt
  column_description-ParentsFirst col (some d) seen m = ((m, tt), tt)

  columns-ParentsFirst :
      (cols : List ColumnMetadata) (seen : List Key)
      → Mem table seen
      → ParentsFirst seen (column_records t cols)
  unfolding column_records parents own
  columns-ParentsFirst [] seen m = tt
  columns-ParentsFirst (col ∷ cols) seen m =
      let key : Key = (Rds.columns, get_col_key t col) in
      let descriptions = column_description_records t col col.description in
      let badges = column_badge_records t (get_col_key t col) col.badges in
      let described = after (key ∷ seen) descriptions in
      let w = after-Within descriptions (key ∷ seen) in
      (
        (m, tt),
        ParentsFirst-append descriptions _ (key ∷ seen)
            (column_description-ParentsFirst col col.description (key ∷ seen) mem-cons_self)
            (ParentsFirst-append badges _ described
              (column_badges-ParentsFirst (get_col_key t col) col.badges described
                (w key mem-cons_self))
              (columns-ParentsFirst cols (after described badges)
                (after-Within badges described table (w table (mem-cons_of_mem key m))))),
      )

  table-ParentsFirst :
      (seen : List Key)
      → Mem (Rds.schemas, get_schema_key t) seen
      → ParentsFirst seen (table_records t)
  unfolding table_records parents own
  table-ParentsFirst seen m =
      let start = table ∷ seen in
      let descriptions = table_description_records t t.description in
      let described = after start descriptions in
      let d = after-Within descriptions start table mem-cons_self in
      (
        (m, tt),
        ParentsFirst-append descriptions _ start
            (description-ParentsFirst t.description start mem-cons_self)
            (ParentsFirst-append (tag_records t t.tags) _ described
              (tags-ParentsFirst t.tags described d)
              (columns-ParentsFirst t.columns (after described (tag_records t t.tags))
                (after-Within (tag_records t t.tags) described table d))),
      )

-- The keys that tables give to the rows which they share.
data SharedKey (ts : List TableMetadata) : Key → Type 0 where
  of_database : (t : TableMetadata) → Mem t ts → SharedKey ts (Rds.databases, get_database_key t)
  of_cluster : (t : TableMetadata) → Mem t ts → SharedKey ts (Rds.clusters, get_cluster_key t)
  of_schema : (t : TableMetadata) → Mem t ts → SharedKey ts (Rds.schemas, get_schema_key t)

-- The tables do not give one text as the key of a database and of a cluster, of a database and of a
-- schema, or of a cluster and of a schema.
abbrev pub IsApart : TableMetadata → TableMetadata → Type 0
IsApart t u =
    (¬ (get_database_key t ≡ get_cluster_key u))
    × (¬ (get_database_key t ≡ get_schema_key u))
    × (¬ (get_cluster_key t ≡ get_schema_key u))

abbrev pub NoClash : List TableMetadata → Type 0
NoClash ts = All (λ t. All (λ u. IsApart t u) ts) ts

IsApart-at :
    (t u : TableMetadata) (us : List TableMetadata)
    → All (λ v. IsApart t v) us
    → Mem u us
    → IsApart t u
IsApart-at t u [] h m = absurd (not-mem-nil m)
IsApart-at t u (v ∷ us) h m =
    Or.elim (hlevel) (mem-cons.0 m) (λ p. rw p h.0) (λ q. IsApart-at t u us h.1 q)

NoClash-at :
    (ts us : List TableMetadata) (t u : TableMetadata)
    → All (λ v. All (λ w. IsApart v w) us) ts
    → Mem t ts
    → Mem u us
    → IsApart t u
NoClash-at [] us t u h m k = absurd (not-mem-nil m)
NoClash-at (v ∷ ts) us t u h m k =
    Or.elim (hlevel) (mem-cons.0 m) (λ p. rw p (IsApart-at v u us h.0 k))
      (λ q. NoClash-at ts us t u h.1 q k)

pair : (k : Rds.Referred) {x y : String} → x ≡ y → ◌≡◌ {A = Key} (k, x) (k, y)
pair k p = ap (λ (x : String). (k, x)) p

apart :
    (ts : List TableMetadata)
    → NoClash ts
    → (a b : Key) → SharedKey ts a
    → SharedKey ts b
    → a.1 ≡ b.1
    → a ≡ b
apart ts n _ _ (of_database t m) (of_database u k) p = pair Rds.databases p
apart ts n _ _ (of_cluster t m) (of_cluster u k) p = pair Rds.clusters p
apart ts n _ _ (of_schema t m) (of_schema u k) p = pair Rds.schemas p
apart ts n _ _ (of_database t m) (of_cluster u k) p = absurd ((NoClash-at ts ts t u n m k).0 p)
apart ts n _ _ (of_cluster t m) (of_database u k) p =
    absurd ((NoClash-at ts ts u t n k m).0 (sym p))
apart ts n _ _ (of_database t m) (of_schema u k) p = absurd ((NoClash-at ts ts t u n m k).1 p)
apart ts n _ _ (of_schema t m) (of_database u k) p = absurd ((NoClash-at ts ts u t n k m).1 (sym p))
apart ts n _ _ (of_cluster t m) (of_schema u k) p = absurd ((NoClash-at ts ts t u n m k).2 p)
apart ts n _ _ (of_schema t m) (of_cluster u k) p = absurd ((NoClash-at ts ts u t n k m).2 (sym p))

All-Mem :
    {all : List TableMetadata} (ts : List TableMetadata)
    → ((t : TableMetadata) → Mem t ts → Mem t all)
    → All (λ t. Mem t all) ts
All-Mem [] h = tt
All-Mem (t ∷ ts) h = (h t mem-cons_self, All-Mem ts (λ u m. h u (mem-cons_of_mem t m)))

module _ (all : List TableMetadata) (n : NoClash all) where
  abbrev Ok : Key → Type 0
  Ok = SharedKey all

  others-IsProper :
      (t : TableMetadata) → Mem t all → All (IsProper Ok (apart all n)) (other_records t)
  unfolding other_records own
  others-IsProper t m = (
    (Rds.databases, refl, of_database t m),
    ((Rds.clusters, refl, of_cluster t m), ((Rds.schemas, refl, of_schema t m), tt)),
  )

  others-ParentsFirst :
      (t : TableMetadata) (seen : List Key)
      → ParentsFirst seen (rows Ok (apart all n) (other_records t))
  unfolding other_records own parents
  others-ParentsFirst t seen = (tt, ((mem-cons_self, tt), ((mem-cons_self, tt), tt)))

  schema-Mem :
      (t : TableMetadata) (seen : List Key)
      → Mem (Rds.schemas, get_schema_key t) (after seen (rows Ok (apart all n) (other_records t)))
  unfolding other_records own
  schema-Mem t seen = mem-cons_self

  load-ParentsFirst :
      (ts : List TableMetadata) (keys : List String) (seen : List Key)
      → All (λ t. Mem t all) ts
      → Known Ok (apart all n) keys seen
      → ParentsFirst seen (load_records ts keys)
  unfolding load_records create_records
  load-ParentsFirst [] keys seen ms h = tt
  load-ParentsFirst (t ∷ ts) keys seen ms h =
      let x =
        emit-Emitted Ok (apart all n) (other_records t) keys seen (others-IsProper t ms.0) h
          (others-ParentsFirst t seen) in
      let (new, keys') = emit_new (λ r. r.0) (other_records t) keys in
      let out = rows Ok (apart all n) new in
      let mid = after seen out in
      ParentsFirst-append (out ++ table_records t) (load_records ts keys') seen
        (ParentsFirst-append out (table_records t) seen x.first
          (table-ParentsFirst t mid (x.all _ (schema-Mem t seen))))
        (rw (after-append out (table_records t) seen) (
          load-ParentsFirst ts keys' (after mid (table_records t)) ms.1
            (λ a o m. after-Within (table_records t) mid a (x.known a o m))))

  -- Where no two of the tables spell keys of different kinds alike, and no row was written before: in
  -- the rows of any run of tables, each row follows the rows of every key that it refers to.
  pub load_records-ParentsFirst : ParentsFirst [] (load_records all [])
  load_records-ParentsFirst =
      load-ParentsFirst all [] [] (All-Mem all (λ t m. m)) (λ a o m. absurd (not-mem-nil m))

-- ===== src/Elastic/Fill.antt =====
-- What the bulk requests of `publish_impl` change.
use mathlib.Core.List.{append-nil, append_assoc, map-append}
use amundsen_fork.Prelude.{
  ℕ, suc, String, ◌==◌, ◌≡◌, ◌≢◌, refl, sym, ap, ◌∙◌, Bool, true, false, Bool-cases, inl, inr, List,
  [], ◌∷◌, ◌++◌, map, string_eq,
}
use amundsen_fork.Prelude.Effects.{Result, return, ◌>>=◌, Result-cases, raise_return}
use amundsen_fork.Publisher.{Record}
use amundsen_fork.Elastic.Connection.{Client}
use amundsen_fork.Elastic.Bulk.{ElasticsearchPublisher, typed, row, final_bulk, bulk_all}
use amundsen_fork.Elastic.Contract.{Cluster}

module _ {W E : Type 0} (c : Client W E) (p : ElasticsearchPublisher)
    (k : Cluster c p.elasticsearch_alias) where
  -- Nothing of the alias, and no index but the new one, has changed.
  pub record Quiet (w v : W) : Type 0 where
    pub alias : k.indices v ≡ k.indices w
    pub others : (i : String) → i ≢ p.elasticsearch_new_index → k.docs i v ≡ k.docs i w

  pub Quiet-refl : (w : W) → Quiet w w
  Quiet-refl w = record { alias = refl; others = λ i n. refl }

  pub Quiet-trans : {w v u : W} → Quiet w v → Quiet v u → Quiet w u
  Quiet-trans a b = record {
    alias = b.alias ∙ a.alias;
    others = λ i n. b.others i n ∙ a.others i n;
  }

  abbrev pub new_rows : List Record → List (String × Record)
  new_rows ds = map (λ d. (p.elasticsearch_new_index, d)) ds

  abbrev pub new_docs : W → List Record
  new_docs w = k.docs p.elasticsearch_new_index w

  bulk-Quiet : (ds : List Record) (w : W) → Quiet w (c.bulk (new_rows ds) w).1
  bulk-Quiet ds w = record {
    alias = k.bulk_indices (new_rows ds) w;
    others = λ i n. k.bulk_docs p.elasticsearch_new_index i ds w n;
  }

  -- A request whose response reports no errors.
  abbrev pub NoErrors : Type 0
  NoErrors = (rows : List (String × Record)) (w : W) → ¬ ((c.bulk rows w).0 ≡ return true)

  -- An action leaves the alias alone, and returns only with the documents added to the new index.
  pub record Adds (ds : List Record) (w : W) (out : Result E (Unit {0}) × W) : Type 0 where
    pub quiet : Quiet w out.1
    pub added : NoErrors → out.0 ≡ return tt → new_docs out.1 ≡ new_docs w ++ ds

  added_both :
      (ds es : List Record) (w : W) (out : Result E (Unit {0}) × W)
      → NoErrors
      → (b : Bool) → (c.bulk (new_rows ds) w).0 ≡ return b
      → new_docs out.1 ≡ new_docs (c.bulk (new_rows ds) w).1 ++ es
      → new_docs out.1 ≡ new_docs w ++ (ds ++ es)
  added_both ds es w out n true h q = absurd (n (new_rows ds) w h)
  added_both ds es w out n false h q =
      q
      ∙ ap (λ l. l ++ es) (k.bulks p.elasticsearch_new_index ds w h)
      ∙ append_assoc (new_docs w) ds es

  -- A request, and then what adds more.
  bulk-Adds :
      (ds es : List Record) (g : W → Result E (Unit {0}) × W) (w : W)
      → ((v : W) → Adds es v (g v))
      → Adds (ds ++ es) w ((c.bulk (new_rows ds) >>= λ _. g) w)
  bulk-Adds ds es g w later =
      let v = (c.bulk (new_rows ds) w).1 in
      elim (Result-cases (c.bulk (new_rows ds) w).0) [
        | inl (b, h) ↦ rw h (record {
          quiet = Quiet-trans (bulk-Quiet ds w) (later v).quiet;
          added = λ n q. added_both ds es w (g v) n b h ((later v).added n q);
        })
        | inr (e, h) ↦
            rw h (record { quiet = bulk-Quiet ds w; added = λ n q. absurd (raise_return q) })
      ]

  final_bulk-Adds : (ds : List Record) (w : W) → Adds ds w (final_bulk c p (new_rows ds) w)
  unfolding final_bulk
  final_bulk-Adds [] w = record {
    quiet = Quiet-refl w;
    added = λ n h. sym (append-nil (new_docs w));
  }
  final_bulk-Adds (d ∷ ds) w = rw (sym (append-nil (d ∷ ds))) (
      bulk-Adds (d ∷ ds) [] (λ v. (return tt, v)) w
        (λ v. record { quiet = Quiet-refl v; added = λ n h. sym (append-nil (new_docs v)) }))

  pub bulk_all-Adds :
      (actions ds : List Record) (cnt : ℕ) (w : W)
      → Adds (ds ++ map (typed c p) actions) w (bulk_all c p actions (new_rows ds) cnt w)
  unfolding bulk_all
  bulk_all-Adds [] ds cnt w = rw (append-nil ds) (final_bulk-Adds ds w)
  bulk_all-Adds (action ∷ actions) ds cnt w =
      let ds' = ds ++ typed c p action ∷ [] in
      let rows : ◌≡◌ {A = List (String × Record)} (new_rows ds ++ row c p (typed c p action) ∷ [])
          (new_rows ds') =
        sym (map-append _ ds (typed c p action ∷ [])) in
      let whole : ds' ++ map (typed c p) actions
          ≡ ds ++ (typed c p action ∷ map (typed c p) actions) =
        append_assoc ds (typed c p action ∷ []) (map (typed c p) actions) in
      rw (rows, ← whole)
        (elim (Bool-cases (suc cnt == p.elasticsearch_batch_size)) [
          | inl h ↦ rw h (
              bulk-Adds ds' (map (typed c p) actions) (bulk_all c p actions [] 0) w
                (λ v. bulk_all-Adds actions [] 0 v))
          | inr h ↦ rw h (bulk_all-Adds actions ds' (suc cnt) w)
        ])

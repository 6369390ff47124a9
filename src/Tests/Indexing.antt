-- ===== src/Tests/Indexing.antt =====
-- The search publisher on a concrete cluster.
use mathlib.Core.List.{append-nil}
use amundsen_fork.Prelude.{
  String, str_eq, str_eq_iff, str_eq_refl, ◌≡◌, ◌≢◌, refl, ap, false, some, List, [], ◌∷◌, ◌++◌,
  map, contains, string_eq, if◌then◌else◌, arith, All,
}
use amundsen_fork.Prelude.Effects.{return, raise}
use amundsen_fork.Models.Graph.{str}
use amundsen_fork.Publisher.{Record}
use amundsen_fork.Elastic.{Client, ElasticsearchPublisher, publish_impl, Cluster, applied, removed}
use amundsen_fork.Elastic.Atomic.{served, new_served, publish_impl-served}
use amundsen_fork.Elastic.Batches.{
  recording, typed_rows, sent_by, InBatch, InOrder, publish_impl-InBatch,
}

-- The indices of the alias, and the documents of each index.
abbrev Indices : Type 0
Indices = List String × (String → List Record)

abbrev of_index : String → List (String × Record) → List Record
of_index j [] = []
of_index j ((i, d) ∷ rows) = if str_eq i j then d ∷ of_index j rows else of_index j rows

abbrev cluster_client : Client Indices String
cluster_client = record {
  create = λ i (is, docs). (return tt, (is, λ j. if str_eq i j then [] else docs j));
  bulk = λ rows (is, docs). (return false, (is, λ j. docs j ++ of_index j rows));
  get_alias = λ a (is, docs). (return (some is), (is, docs));
  update_aliases = λ acts (is, docs). (
    return tt,
    (applied "search" acts is, λ j. if contains j (removed acts) then [] else docs j),
  );
}

of_index_same : (i : String) (ds : List Record) → of_index i (map (λ d. (i, d)) ds) ≡ ds
of_index_same i [] = refl
of_index_same i (d ∷ ds) = rw (str_eq_refl i) (ap (λ l. d ∷ l) (of_index_same i ds))

of_index_other : (i j : String) (ds : List Record) → j ≢ i → of_index j (map (λ d. (i, d)) ds) ≡ []
of_index_other i j [] n = refl
of_index_other i j (d ∷ ds) n = ground (arith, of_index_other i j ds n, str_eq_iff i j)

abbrev sample_cluster : Cluster cluster_client "search"
sample_cluster = record {
  indices = λ w. w.0;
  docs = λ i w. w.1 i;
  create_indices = λ i w. refl;
  create_docs = λ i j w n. ground (arith, str_eq_iff i j);
  creates = λ i w h. rw (str_eq_refl i) refl;
  bulk_indices = λ rows w. refl;
  bulk_docs = λ i j ds w n. rw (of_index_other i j ds n) (append-nil (w.1 j));
  bulks = λ i ds w h. rw (of_index_same i ds) refl;
  get_alias_world = λ w. refl;
  get_alias_some = λ w found h. ground arith;
  get_alias_none = λ w h. ground arith;
  update_indices = λ acts w h. refl;
  update_docs = λ acts i w h. rw h refl;
  update_raises = λ acts e w h. ground arith;
}

abbrev sample_publisher : ElasticsearchPublisher
sample_publisher = record {
  elasticsearch_type = "table";
  elasticsearch_new_index = "search_2";
  elasticsearch_alias = "search";
  elasticsearch_batch_size = 2;
}

abbrev documents : List Record
documents =
    (("name", str "orders") ∷ [])
    ∷ (("name", str "clients") ∷ [])
    ∷ (("name", str "users") ∷ [])
    ∷ []

abbrev before : Indices
before = ("search_1" ∷ [], λ j. (("name", str "old") ∷ []) ∷ [])

publish_impl-served_example :
    served cluster_client sample_publisher sample_cluster
      (publish_impl cluster_client sample_publisher documents before).1
    ≡ elim (publish_impl cluster_client sample_publisher documents before).0 [
      | return _ ↦ new_served cluster_client sample_publisher sample_cluster documents before
      | raise _ ↦ served cluster_client sample_publisher sample_cluster before
    ]
unfolding contains
publish_impl-served_example =
    publish_impl-served cluster_client sample_publisher sample_cluster documents before refl
      (λ rows w h. ground arith)

publish_impl-InBatch_example :
    All
      (InBatch cluster_client sample_publisher)
      (sent_by cluster_client sample_publisher documents before)
    × InOrder cluster_client sample_publisher
        (publish_impl (recording cluster_client) sample_publisher documents (before, [])).0
        (typed_rows cluster_client sample_publisher documents)
        (sent_by cluster_client sample_publisher documents before)
publish_impl-InBatch_example =
    publish_impl-InBatch cluster_client sample_publisher documents before (omega arith)

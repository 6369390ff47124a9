-- ===== src/Elastic/Atomic.antt =====
-- Readers of the alias see the old documents until they see all of the new ones.
use mathlib.Core.List.{append-nil}
use amundsen_fork.Prelude.{
  String, str_eq, str_eq_iff, ◌≡◌, ◌≢◌, refl, sym, ap, ◌∙◌, Bool, false, inl, inr, Option, none,
  some, List, [], ◌∷◌, ◌++◌, ◌||◌, map, contains, string_eq, arith,
}
use amundsen_fork.Prelude.Effects.{Result, return, raise, ◌>>=◌, ◌>>◌, Result-cases, raise_return}
use amundsen_fork.Publisher.{Record}
use amundsen_fork.Elastic.Connection.{Client}
use amundsen_fork.Elastic.Bulk.{
  ElasticsearchPublisher, typed, bulk_all, or_empty, fetch_old_index, alias_actions, fill_and_swap,
  publish_impl,
}
use amundsen_fork.Elastic.Swap.{applied-swap, removed-removals}
use amundsen_fork.Elastic.Fill.{Quiet, new_docs, NoErrors, bulk_all-Adds}
use amundsen_fork.Elastic.Contract.{Cluster, applied, removed}

or_false : (a b : Bool) → (a || b) ≡ false → (a ≡ false) × (b ≡ false)
or_false a b p = (ground arith, ground arith)

differ : (a b : String) → str_eq a b ≡ false → ¬ (a ≡ b)
differ a b h p = ground (arith, (str_eq_iff a b).1 p)

abbrev pub all_docs : (String → List Record) → List String → List Record
all_docs docs [] = []
all_docs docs (i ∷ is) = docs i ++ all_docs docs is

all_docs-eq :
    (f g : String → List Record) (n : String) (is : List String)
    → contains n is ≡ false
    → ((i : String) → i ≢ n → f i ≡ g i)
    → all_docs f is ≡ all_docs g is
unfolding contains
all_docs-eq f g n [] h e = refl
all_docs-eq f g n (i ∷ is) h e =
    let (a, b) = or_false (str_eq n i) (contains n is) h in
    rw (e i (λ p. differ n i a (sym p)), all_docs-eq f g n is b e) refl

module _ {W E : Type 0} (c : Client W E) (p : ElasticsearchPublisher)
    (k : Cluster c p.elasticsearch_alias) where
  -- What a reader of the alias sees.
  abbrev pub served : W → List Record
  served w = all_docs (λ i. k.docs i w) (k.indices w)

  Quiet-served :
      (w v : W)
      → contains p.elasticsearch_new_index (k.indices w) ≡ false
      → Quiet c p k w v
      → served v ≡ served w
  Quiet-served w v n q =
      ap (λ is. all_docs (λ i. k.docs i v) is) q.alias
      ∙ all_docs-eq (λ i. k.docs i v) (λ i. k.docs i w) p.elasticsearch_new_index (k.indices w) n
          q.others

  -- The outcome of the last two calls: all of the new documents, or the old ones.
  record Swapped (v : W) (out : Result E (Unit {0}) × W) : Type 0 where
    swapped : out.0 ≡ return tt → served out.1 ≡ new_docs c p k v
    failed : (e : E) → out.0 ≡ raise e → served out.1 ≡ served v

  update-Swapped :
      (v : W) (old : List String)
      → contains p.elasticsearch_new_index (k.indices v) ≡ false
      → old ≡ k.indices v
      → Swapped v (c.update_aliases (alias_actions c p old) v)
  unfolding contains removed
  update-Swapped v old n q = record {
    swapped = λ h.
        let acts = alias_actions c p old in
        let u = (c.update_aliases acts v).1 in
        let n' : contains p.elasticsearch_new_index old ≡ false = rw q n in
        let now : k.indices u ≡ p.elasticsearch_new_index ∷ [] =
          k.update_indices acts v h
          ∙ ap (applied p.elasticsearch_alias acts) (sym q)
          ∙ applied-swap p.elasticsearch_alias p.elasticsearch_new_index old n' in
        ap (all_docs (λ i. k.docs i u)) now
        ∙ append-nil (new_docs c p k u)
        ∙ k.update_docs acts p.elasticsearch_new_index v (rw (removed-removals old) n');
    failed = λ e h. ap served (k.update_raises (alias_actions c p old) e v h);
  }

  found-eq :
      (v : W) (found : Option (List String))
      → (c.get_alias p.elasticsearch_alias v).0 ≡ return found
      → or_empty c p found ≡ k.indices v
  found-eq v none h = sym (k.get_alias_none v h)
  found-eq v (some is) h = k.get_alias_some v is h

  swap : W → Result E (Unit {0}) × W
  unfolding fetch_old_index
  swap = fetch_old_index c p >>= λ old. c.update_aliases (alias_actions c p old)

  swap-Swapped :
      (v : W) → contains p.elasticsearch_new_index (k.indices v) ≡ false → Swapped v (swap v)
  unfolding swap
  swap-Swapped v n = elim (Result-cases (c.get_alias p.elasticsearch_alias v).0) [
    | inl (found, h) ↦
        rw (h, k.get_alias_world v) (update-Swapped v (or_empty c p found) n (found-eq v found h))
    | inr (e, h) ↦
        rw (h, k.get_alias_world v)
          (record { swapped = λ q. absurd (raise_return q); failed = λ e q. refl })
  ]

  -- A reader of the alias sees what it saw, or all of the documents.
  record Published (ds : List Record) (w : W) (out : Result E (Unit {0}) × W) : Type 0 where
    returned : NoErrors c p k → out.0 ≡ return tt → served out.1 ≡ ds
    raised : (e : E) → out.0 ≡ raise e → served out.1 ≡ served w

  fill-Published :
      (actions : List Record) (w : W)
      → contains p.elasticsearch_new_index (k.indices w) ≡ false
      → new_docs c p k w ≡ []
      → Published (map (typed c p) actions) w (fill_and_swap c p actions w)
  unfolding fill_and_swap swap
  fill-Published actions w n empty =
      let filled = bulk_all-Adds c p k actions [] 0 w in
      let v = (bulk_all c p actions [] 0 w).1 in
      let still : contains p.elasticsearch_new_index (k.indices v) ≡ false =
        rw filled.quiet.alias n in
      let quiet = Quiet-served w v n filled.quiet in
      elim (Result-cases (bulk_all c p actions [] 0 w).0) [
        | inl (_, h) ↦
            let last = swap-Swapped v still in
            rw h (record {
              returned = λ m q.
                  last.swapped q ∙ filled.added m h ∙ ap (λ l. l ++ map (typed c p) actions) empty;
              raised = λ e q. last.failed e q ∙ quiet;
            })
        | inr (e, h) ↦
            rw h (record { returned = λ m q. absurd (raise_return q); raised = λ e q. quiet })
      ]

  abbrev pub new_served : List Record → W → List Record
  new_served [] w = served w
  new_served (action ∷ actions) w = map (typed c p) (action ∷ actions)

  created-Published :
      (actions : List Record) (w : W)
      → contains p.elasticsearch_new_index (k.indices w) ≡ false
      → Published
          (map (typed c p) actions)
          w
          ((c.create p.elasticsearch_new_index >> fill_and_swap c p actions) w)
  created-Published actions w n =
      let v = (c.create p.elasticsearch_new_index w).1 in
      let quiet : Quiet c p k w v = record {
        alias = k.create_indices p.elasticsearch_new_index w;
        others = λ i d. k.create_docs p.elasticsearch_new_index i w d;
      } in
      let same = Quiet-served w v n quiet in
      let still : contains p.elasticsearch_new_index (k.indices v) ≡ false = rw quiet.alias n in
      elim (Result-cases (c.create p.elasticsearch_new_index w).0) [
        | inl (_, h) ↦
            let filled = fill-Published actions v still (k.creates p.elasticsearch_new_index w h) in
            rw h (record { returned = filled.returned; raised = λ e q. filled.raised e q ∙ same })
        | inr (e, h) ↦
            rw h (record { returned = λ m q. absurd (raise_return q); raised = λ e q. same })
      ]

  publish_impl-Published :
      (actions : List Record) (w : W)
      → contains p.elasticsearch_new_index (k.indices w) ≡ false
      → Published (new_served actions w) w (publish_impl c p actions w)
  unfolding publish_impl
  publish_impl-Published [] w n = record { returned = λ m q. refl; raised = λ e q. refl }
  publish_impl-Published (action ∷ actions) w n = created-Published (action ∷ actions) w n

  by_result :
      (ds : List Record) (w : W) (out : Result E (Unit {0}) × W)
      → NoErrors c p k
      → Published ds w out
      → served out.1 ≡ elim out.0 [ return _ ↦ ds | raise _ ↦ served w ]
  by_result ds w (return tt', v) m h = h.returned m refl
  by_result ds w (raise e, v) m h = h.raised e refl

  -- Where the new index is not one of the alias, and no bulk response reports errors, whichever calls
  -- raise: if the publication returns, a reader of the alias sees exactly the documents, with their
  -- type, in order (what it saw before, if there are none); if it raises, what it saw before.
  pub publish_impl-served :
      (actions : List Record) (w : W)
      → contains p.elasticsearch_new_index (k.indices w) ≡ false
      → NoErrors c p k
      → served (publish_impl c p actions w).1 ≡ elim (publish_impl c p actions w).0 [
        | return _ ↦ new_served actions w
        | raise _ ↦ served w
      ]
  publish_impl-served actions w n m =
      by_result (new_served actions w) w (publish_impl c p actions w) m
        (publish_impl-Published actions w n)

-- ===== src/Elastic/Batches.antt =====
-- The bulk requests that `publish_impl` sends, by a client that records them.
use mathlib.Core.List.{append-nil, append_assoc}
use amundsen_fork.Prelude.{
  ℕ, suc, String, ◌==◌, ◌≡◌, refl, sym, ap, ◌∙◌, Bool-cases, inl, inr, List, [], ◌∷◌, ◌++◌, map,
  length, length-append, All, ◌≤◌, arith,
}
use amundsen_fork.Prelude.Effects.{Result, return, raise, ◌>>=◌, Result-cases, raise_return}
use amundsen_fork.Publisher.{Record}
use amundsen_fork.Elastic.Connection.{Client}
use amundsen_fork.Elastic.Bulk.{
  ElasticsearchPublisher, typed, row, final_bulk, bulk_all, fetch_old_index, alias_actions,
  fill_and_swap, publish_impl,
}

abbrev Rows : Type 0
Rows = List (String × Record)

abbrev Traced : Type 0 → Type 0
Traced W = W × List Rows

abbrev keep : {W E A : Type 0} → List Rows → Result E A × W → Result E A × Traced W
keep t (r, w) = (r, (w, t))

-- The client, and the bulk requests made of it so far.
abbrev pub recording : {W E : Type 0} → Client W E → Client (Traced W) E
recording c = record {
  create = λ i (w, t). keep t (c.create i w);
  bulk = λ rows (w, t). keep (t ++ rows ∷ []) (c.bulk rows w);
  get_alias = λ a (w, t). keep t (c.get_alias a w);
  update_aliases = λ acts (w, t). keep t (c.update_aliases acts w);
}

abbrev pub flat : List Rows → Rows
flat [] = []
flat (r ∷ rs) = r ++ flat rs

flat-append : (a b : List Rows) → flat (a ++ b) ≡ flat a ++ flat b
flat-append [] b = refl
flat-append (r ∷ a) b = ap (λ l. r ++ l) (flat-append a b) ∙ sym (append_assoc r (flat a) (flat b))

module _ {W E : Type 0} (c : Client W E) (p : ElasticsearchPublisher) where
  abbrev pub InBatch : Rows → Type 0
  InBatch r = (1 ≤ length r) × (length r ≤ p.elasticsearch_batch_size)

  -- Requests after those of before, all within the batch size, of all of the rows but the unsent ones.
  record Batched (rows : Rows) (before : List Rows) (out : Result E (Unit {0}) × Traced W)
      : Type 0 where
    requests : List Rows
    after : out.1.1 ≡ before ++ requests
    within : All InBatch requests
    unsent : Rows
    whole : flat requests ++ unsent ≡ rows
    done : out.0 ≡ return tt → unsent ≡ []

  send-Batched :
      (r rows : Rows) (t : List Rows) (g : Traced W → Result E (Unit {0}) × Traced W) (w : W)
      → InBatch r
      → ((v : Traced W) → Batched rows v.1 (g v))
      → Batched (r ++ rows) t (((recording c).bulk r >>= λ _. g) (w, t))
  send-Batched r rows t g w m later = elim (Result-cases (c.bulk r w).0) [
    | inl (b, h) ↦
        let next = later ((c.bulk r w).1, t ++ r ∷ []) in
        rw h (record {
          requests = r ∷ next.requests;
          after = next.after ∙ append_assoc t (r ∷ []) next.requests;
          within = (m, next.within);
          unsent = next.unsent;
          whole = append_assoc r (flat next.requests) next.unsent ∙ ap (λ l. r ++ l) next.whole;
          done = next.done;
        })
    | inr (e, h) ↦ rw h (record {
      requests = r ∷ [];
      after = refl;
      within = (m, tt);
      unsent = rows;
      whole = ap (λ l. l ++ rows) (append-nil r);
      done = λ q. absurd (raise_return q);
    })
  ]

  nothing-Batched : (t : List Rows) (w : W) → Batched [] t (return tt, (w, t))
  nothing-Batched t w = record {
    requests = [];
    after = sym (append-nil t);
    within = tt;
    unsent = [];
    whole = refl;
    done = λ q. refl;
  }

  final_bulk-Batched :
      (rows : Rows) (t : List Rows) (w : W)
      → length rows ≤ p.elasticsearch_batch_size
      → Batched rows t (final_bulk (recording c) p rows (w, t))
  unfolding final_bulk
  final_bulk-Batched [] t w h = nothing-Batched t w
  final_bulk-Batched (r ∷ rows) t w h =
      let sent =
        send-Batched (r ∷ rows) [] t (λ v. (return tt, v)) w (omega arith, h)
          (λ v. nothing-Batched v.1 v.0) in
      record {
        requests = sent.requests;
        after = sent.after;
        within = sent.within;
        unsent = sent.unsent;
        whole = sent.whole ∙ append-nil (r ∷ rows);
        done = sent.done;
      }

  abbrev pub typed_rows : List Record → Rows
  typed_rows actions = map (λ action. row (recording c) p (typed (recording c) p action)) actions

  bulk_all-Batched :
      (actions : List Record) (rows : Rows) (cnt : ℕ) (t : List Rows) (w : W)
      → cnt ≡ length rows
      → suc cnt ≤ p.elasticsearch_batch_size
      → Batched (rows ++ typed_rows actions) t (bulk_all (recording c) p actions rows cnt (w, t))
  unfolding bulk_all
  bulk_all-Batched [] rows cnt t w h k =
      rw (append-nil rows) (final_bulk-Batched rows t w (omega arith))
  bulk_all-Batched (action ∷ actions) rows cnt t w h k =
      let now = row (recording c) p (typed (recording c) p action) in
      let rows' = rows ++ now ∷ [] in
      let n : length rows' ≡ suc cnt = ground (arith, length-append rows (now ∷ [])) in
      let whole : rows' ++ typed_rows actions ≡ rows ++ (now ∷ typed_rows actions) =
        append_assoc rows (now ∷ []) (typed_rows actions) in
      rw (← whole) (elim (Bool-cases (suc cnt == p.elasticsearch_batch_size)) [
        | inl q ↦ rw q (
            send-Batched rows' (typed_rows actions) t (bulk_all (recording c) p actions [] 0) w
              (ground arith, ground arith)
              (λ v. bulk_all-Batched actions [] 0 v.1 v.0 refl (omega arith)))
        | inr q ↦ rw q (bulk_all-Batched actions rows' (suc cnt) t w (omega arith) (ground arith))
      ])

  -- The last two calls send no bulk request.
  swap_trace :
      (v : Traced W)
      → ((fetch_old_index (recording c) p >>= λ old.
            (recording c).update_aliases (alias_actions (recording c) p old))
          v).1.1
        ≡ v.1
  unfolding fetch_old_index
  swap_trace (w, t) = elim (Result-cases (c.get_alias p.elasticsearch_alias w).0) [
    | inl (found, h) ↦ rw h refl
    | inr (e, h) ↦ rw h refl
  ]

  fill-Batched :
      (actions : List Record) (t : List Rows) (w : W)
      → 1 ≤ p.elasticsearch_batch_size
      → Batched (typed_rows actions) t (fill_and_swap (recording c) p actions (w, t))
  unfolding fill_and_swap
  fill-Batched actions t w h =
      let filled = bulk_all-Batched actions [] 0 t w refl h in
      elim (Result-cases (bulk_all (recording c) p actions [] 0 (w, t)).0) [
        | inl (_, q) ↦ rw q (record {
          requests = filled.requests;
          after = swap_trace (bulk_all (recording c) p actions [] 0 (w, t)).1 ∙ filled.after;
          within = filled.within;
          unsent = filled.unsent;
          whole = filled.whole;
          done = λ z. filled.done q;
        })
        | inr (e, q) ↦ rw q (record {
          requests = filled.requests;
          after = filled.after;
          within = filled.within;
          unsent = filled.unsent;
          whole = filled.whole;
          done = λ z. absurd (raise_return z);
        })
      ]

  publish_impl-Batched :
      (actions : List Record) (t : List Rows) (w : W)
      → 1 ≤ p.elasticsearch_batch_size
      → Batched (typed_rows actions) t (publish_impl (recording c) p actions (w, t))
  unfolding publish_impl
  publish_impl-Batched [] t w h = nothing-Batched t w
  publish_impl-Batched (action ∷ actions) t w h =
      elim (Result-cases (c.create p.elasticsearch_new_index w).0) [
        | inl (_, q) ↦
            rw q (fill-Batched (action ∷ actions) t (c.create p.elasticsearch_new_index w).1 h)
        | inr (e, q) ↦ rw q (record {
          requests = [];
          after = sym (append-nil t);
          within = tt;
          unsent = typed_rows (action ∷ actions);
          whole = refl;
          done = λ z. absurd (raise_return z);
        })
      ]

  abbrev pub sent_by : List Record → W → List Rows
  sent_by actions w = (publish_impl (recording c) p actions (w, [])).1.1

  -- The requests together have the rows: all of them after a return, the first ones after an exception.
  abbrev pub InOrder : Result E (Unit {0}) → Rows → List Rows → Type 0
  InOrder (return _) rows t = flat t ≡ rows
  InOrder (raise _) rows t = (unsent : Rows) × (flat t ++ unsent ≡ rows)

  by_result :
      (rows : Rows) (t : List Rows) (out : Result E (Unit {0}) × Traced W)
      → t ≡ out.1.1
      → Batched rows [] out
      → InOrder out.0 rows t
  by_result rows t (return tt', v) h b =
      ap flat (h ∙ b.after)
      ∙ sym (append-nil (flat b.requests))
      ∙ ap (λ l. flat b.requests ++ l) (sym (b.done refl))
      ∙ b.whole
  by_result rows t (raise e, v) h b =
      (b.unsent, ap (λ l. flat l ++ b.unsent) (h ∙ b.after) ∙ b.whole)

  -- With a batch size of at least one, whichever calls raise, every bulk request has between one and
  -- batch size many documents, and the requests together have the documents, with their type and for
  -- the new index, in order: all of them where the publication returns, the first ones where it raises.
  pub publish_impl-InBatch :
      (actions : List Record) (w : W)
      → 1 ≤ p.elasticsearch_batch_size
      → All InBatch (sent_by actions w)
        × InOrder
            (publish_impl (recording c) p actions (w, [])).0
            (typed_rows actions)
            (sent_by actions w)
  publish_impl-InBatch actions w h =
      let all = publish_impl-Batched actions [] w h in
      (
        rw all.after all.within,
        by_result (typed_rows actions) (sent_by actions w)
            (publish_impl (recording c) p actions (w, [])) refl all,
      )

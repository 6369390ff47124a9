-- ===== src/Publisher/Committed.antt =====
-- What is in the database after a publication that the database accepts.
use mathlib.Core.List.{append-nil}
use amundsen_fork.Prelude.{
  ◌+◌, ◌≡◌, refl, ap, ◌∙◌, inl, inr, String, true, false, Bool-cases, List, [], ◌∷◌, ◌++◌, length,
  none, All, All-append, arith,
}
use amundsen_fork.Prelude.Effects.{return}
use amundsen_fork.Models.Graph.{Value}
use amundsen_fork.Publisher.Statements.{Record, value_of, rendered, missing, node_columns}
use amundsen_fork.Publisher.Transactions.{Session}
use amundsen_fork.Publisher.Publish.{
  value_in, value_or_null, Publisher, then_do, for_each, publish_node, publish_relation, begin,
  commit, publish_statements, try_create_index, create_indices, all_rows, publish_impl,
}
use amundsen_fork.Publisher.Files.{Open, IsNode, IsRelation, all_sent, files-Sends}
use amundsen_fork.Publisher.Sends.{Accepting, NonZero, sent_in}

module _ {W E : Type 0} (p : Publisher W E) (a : Accepting p.driver) (z : NonZero p.limits) where
  -- The transaction that the publication begins with, and its last commit.
  begun : Session W → Session W
  begun s = record { count = s.count; world = a.after_begin s.world }

  committed_at : Session W → Session W
  committed_at s = record { count = s.count; world = a.after_commit s.world }

  begin-eq : (s : Session W) → begin p s ≡ (return tt, begun s)
  unfolding begun
  begin-eq s = ground (arith, a.begins s.world)

  commit-eq : (s : Session W) → Open p a z s → commit p s ≡ (return tt, committed_at s)
  unfolding committed_at
  commit-eq s o = ground (arith, a.commits s.world o)

  begun-Open : (s : Session W) → Open p a z (begun s)
  unfolding begun
  begun-Open s = a.begins_open s.world

  begun-sent : (s : Session W) → sent_in p a (begun s).world ≡ a.committed s.world
  unfolding begun
  begun-sent s =
      ground (
        arith,
        a.begins_empty s.world,
        a.begins_committed s.world,
        append-nil (a.committed s.world),
      )

  begun-count : (s : Session W) → (begun s).count ≡ s.count
  unfolding begun
  begun-count s = refl

  committed_at-all : (s : Session W) → a.committed (committed_at s).world ≡ sent_in p a s.world
  unfolding committed_at
  committed_at-all s = a.commits_pending s.world

  committed_at-closed : (s : Session W) → p.driver.tx_closed (committed_at s).world ≡ true
  unfolding committed_at
  committed_at-closed s = a.commits_closed s.world

  committed_at-count : (s : Session W) → (committed_at s).count ≡ s.count
  unfolding committed_at
  committed_at-count s = refl

  statements-eq :
      (node_files relation_files : List (List Record)) (s u : Session W)
      → Open p a z u
      → then_do p
          (for_each p (publish_node p) node_files)
          (for_each p (publish_relation p) relation_files)
          (begun s)
        ≡ (return tt, u)
      → publish_statements p node_files relation_files s ≡ (return tt, committed_at u)
  unfolding publish_statements
  statements-eq node_files relation_files s u o h = ground (arith, begin-eq s, commit-eq u o, h)

  create_index-eq :
      (label : String) (s : Session W)
      → try_create_index p label s
        ≡ (return tt, record { count = s.count; world = a.after_constraint label s.world })
  unfolding try_create_index
  create_index-eq label s = ground (arith, a.constrains label s.world)

  -- The indices change neither the count nor what is committed.
  record Indexed (seen : List Value) (rows : List Record) (s : Session W) : Type 0 where
    end : Session W
    returns : create_indices p seen rows s ≡ (return tt, end)
    kept : a.committed end.world ≡ a.committed s.world
    counts : end.count ≡ s.count

  abbrev label_of : Record → Value
  label_of r = value_or_null (value_of "LABEL" r)

  indexed : Record → Session W → Session W
  indexed r s = record {
    count = s.count;
    world = a.after_constraint (rendered (label_of r)) s.world;
  }

  indices-eq_seen :
      (seen : List Value) (r : Record) (rows : List Record) (s : Session W)
      → missing node_columns r ≡ none
      → value_in (label_of r) seen ≡ true
      → create_indices p seen (r ∷ rows) s ≡ create_indices p seen rows s
  unfolding create_indices
  indices-eq_seen seen r rows s k h = ground arith

  indices-eq_new :
      (seen : List Value) (r : Record) (rows : List Record) (s : Session W)
      → missing node_columns r ≡ none
      → value_in (label_of r) seen ≡ false
      → create_indices p seen (r ∷ rows) s ≡ create_indices p (label_of r ∷ seen) rows (indexed r s)
  unfolding create_indices indexed
  indices-eq_new seen r rows s k h = ground (arith, create_index-eq (rendered (label_of r)) s)

  indices-eq_nil : (seen : List Value) (s : Session W) → create_indices p seen [] s ≡ (return tt, s)
  unfolding create_indices
  indices-eq_nil seen s = refl

  indexed-kept :
      (r : Record) (s : Session W) → a.committed (indexed r s).world ≡ a.committed s.world
  unfolding indexed
  indexed-kept r s = a.constrains_committed (rendered (label_of r)) s.world

  indexed-count : (r : Record) (s : Session W) → (indexed r s).count ≡ s.count
  unfolding indexed
  indexed-count r s = refl

  create_indices-Indexed :
      (seen : List Value) (rows : List Record) (s : Session W)
      → All (IsNode p a z) rows
      → Indexed seen rows s
  create_indices-Indexed seen [] s k = record {
    end = s;
    returns = indices-eq_nil seen s;
    kept = refl;
    counts = refl;
  }
  create_indices-Indexed seen (r ∷ rows) s k = elim (Bool-cases (value_in (label_of r) seen)) [
    | inl h ↦
        let rest = create_indices-Indexed seen rows s k.1 in
        record {
          end = rest.end;
          returns = indices-eq_seen seen r rows s k.0 h ∙ rest.returns;
          kept = rest.kept;
          counts = rest.counts;
        }
    | inr h ↦
        let rest = create_indices-Indexed (label_of r ∷ seen) rows (indexed r s) k.1 in
        record {
          end = rest.end;
          returns = indices-eq_new seen r rows s k.0 h ∙ rest.returns;
          kept = rest.kept ∙ indexed-kept r s;
          counts = rest.counts ∙ indexed-count r s;
        }
  ]

  all_rows-All :
      (files : List (List Record))
      → All (λ file. All (IsNode p a z) file) files
      → All (IsNode p a z) (all_rows p files)
  all_rows-All [] h = tt
  all_rows-All (file ∷ files) h =
      All-append (IsNode p a z) file (all_rows p files) h.0 (all_rows-All files h.1)

  impl-eq :
      (node_files relation_files : List (List Record)) (s u v : Session W)
      → create_indices p [] (all_rows p node_files) s ≡ (return tt, u)
      → publish_statements p node_files relation_files u ≡ (return tt, v)
      → publish_impl p node_files relation_files s ≡ (return tt, v)
  unfolding publish_impl
  impl-eq node_files relation_files s u v h k = ground arith

  -- With a transaction size and a progress report frequency other than 0, files whose rows have the
  -- columns that the code indexes, and a database that accepts every statement, the publication
  -- returns: all statements of the node files, then of the relation files, each preceded by its
  -- preprocessing, are committed in order after what was committed before, however the
  -- transactions are cut; no transaction stays open, and the count has grown by their number.
  pub publish_impl-commits :
      (node_files relation_files : List (List Record)) (s : Session W)
      → All (λ file. All (IsNode p a z) file) node_files
      → All (λ file. All (IsRelation p a z) file) relation_files
      → (end : Session W) × (publish_impl p node_files relation_files s ≡ (return tt, end))
        × (a.committed end.world ≡ a.committed s.world ++ all_sent p a z node_files relation_files)
        × (p.driver.tx_closed end.world ≡ true)
        × (end.count ≡ s.count + length (all_sent p a z node_files relation_files))
  publish_impl-commits node_files relation_files s n k =
      let indices =
        create_indices-Indexed [] (all_rows p node_files) s (all_rows-All node_files n) in
      let files =
        files-Sends p a z node_files relation_files (begun indices.end) n k
          (begun-Open indices.end) in
      (
        committed_at files.end,
        impl-eq node_files relation_files s indices.end (committed_at files.end) indices.returns (
            statements-eq node_files relation_files indices.end files.end files.is_open
              files.returns),
        committed_at-all files.end
            ∙ files.history
            ∙ ap (λ q. q ++ all_sent p a z node_files relation_files)
                (begun-sent indices.end ∙ indices.kept),
        committed_at-closed files.end,
        committed_at-count files.end
            ∙ files.counts
            ∙ ap (λ q. q + length (all_sent p a z node_files relation_files))
                (begun-count indices.end ∙ indices.counts),
      )

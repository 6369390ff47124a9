-- ===== src/Publisher/Files.antt =====
-- The statements of the node and relation files of a publication.
use mathlib.Core.List.{}
use amundsen_fork.Prelude.{
  ℕ, suc, All, ◌≡◌, refl, true, false, none, some, List, [], ◌∷◌, ◌++◌, string_eq, arith,
  if◌then◌else◌,
}
use amundsen_fork.Prelude.Effects.{Result, return}
use amundsen_fork.Publisher.Statements.{
  Record, missing, node_columns, relation_columns, preprocess_columns, create_props_param,
  create_node_merge_statement, create_relationship_merge_statement,
}
use amundsen_fork.Publisher.Transactions.{PublishError, Session, execute_statement}
use amundsen_fork.Publisher.Publish.{
  Publisher, then_do, for_each, publish_node_record, publish_node, preprocess_record,
  publish_relation_record, merge_relation_record, preprocess_file, publish_relation,
}
use amundsen_fork.Publisher.Sends.{
  Sent, Accepting, NonZero, Sends, one, flat_map, execute-Sends, then_do-Sends, nothing-Sends,
  same-Sends, for_each-Sends,
}

module _ {W E : Type 0} (p : Publisher W E) (a : Accepting p.driver) (z : NonZero p.limits) where
  abbrev pub Open : Session W → Type 0
  Open s = p.driver.tx_closed s.world ≡ false

  -- The record has the columns that the code indexes.
  abbrev pub IsNode : Record → Type 0
  IsNode r = missing node_columns r ≡ none

  abbrev pub IsRelation : Record → Type 0
  IsRelation r = (missing relation_columns r ≡ none) × (missing preprocess_columns r ≡ none)

  abbrev pub node_sent : Record → Sent
  node_sent r = one p a (create_node_merge_statement p.options r) (create_props_param r)

  abbrev pub relation_sent : Record → Sent
  relation_sent r = one p a (create_relationship_merge_statement p.options r) (create_props_param r)

  abbrev pub preprocess_sent : Record → Sent
  preprocess_sent r = elim (p.preprocess_cypher r) [ none ↦ [] | some q ↦ q ∷ [] ]

  abbrev pub relation_file_sent : List Record → Sent
  relation_file_sent file =
      (if p.is_perform_preprocess then flat_map preprocess_sent file else [])
      ++ flat_map relation_sent file

  -- The statements of the files, nodes first, each relation file after its preprocessing.
  abbrev pub all_sent : List (List Record) → List (List Record) → Sent
  all_sent node_files relation_files =
      flat_map (flat_map node_sent) node_files ++ flat_map relation_file_sent relation_files

  abbrev merge_node : Record → Session W → Result (PublishError E) (Unit {0}) × Session W
  merge_node r s =
      execute_statement p.driver p.limits (create_node_merge_statement p.options r)
        (create_props_param r) false s

  node-eq : (r : Record) (s : Session W) → IsNode r → publish_node_record p r s ≡ merge_node r s
  unfolding publish_node_record
  node-eq r s k = ground arith

  node-Sends :
      (r : Record) (s : Session W)
      → IsNode r
      → Open s
      → Sends p a (publish_node_record p r) (node_sent r) s
  node-Sends r s k o =
      same-Sends p a (publish_node_record p r) (merge_node r) (node_sent r) s (node-eq r s k) (
        execute-Sends p a (create_node_merge_statement p.options r) (create_props_param r) false s z
          o)

  relation-eq :
      (n : ℕ) (r : Record) (s v : Session W)
      → IsRelation r
      → execute_statement p.driver p.limits
          (create_relationship_merge_statement p.options r)
          (create_props_param r)
          p.confirm_rel_created
          s
        ≡ (return tt, v)
      → publish_relation_record p (suc n) r s ≡ (return tt, v)
  unfolding publish_relation_record merge_relation_record
  relation-eq n r s v k h = ground (arith, k.0, h)

  relation-Sends :
      (n : ℕ) (r : Record) (s : Session W)
      → IsRelation r
      → Open s
      → Sends p a (publish_relation_record p (suc n) r) (relation_sent r) s
  relation-Sends n r s k o =
      let h =
        execute-Sends p a (create_relationship_merge_statement p.options r) (create_props_param r)
          p.confirm_rel_created s z o in
      record {
        end = h.end;
        returns = relation-eq n r s h.end k h.returns;
        is_open = h.is_open;
        history = h.history;
        counts = h.counts;
      }

  abbrev executed : Record → Session W → Result (PublishError E) (Unit {0}) × Session W
  executed r u = elim (p.preprocess_cypher r) [
    | none ↦ (return tt, u)
    | some (stmt, params) ↦ execute_statement p.driver p.limits stmt params false u
  ]

  executed-Sends :
      (r : Record) (s : Session W) → Open s → Sends p a (executed r) (preprocess_sent r) s
  executed-Sends r s o =
      elim (p.preprocess_cypher r)
        as (λ q.
          Sends p a
            (λ u. elim q [
              | none ↦ (return tt, u)
              | some (stmt, params) ↦ execute_statement p.driver p.limits stmt params false u
            ])
            (elim q [ none ↦ [] | some x ↦ x ∷ [] ]) s) [
              | none ↦ nothing-Sends p a (λ u. (return tt, u)) s o refl
              | some (stmt, params) ↦ execute-Sends p a stmt params false s z o
            ]

  preprocess-eq :
      (r : Record) (s : Session W) → IsRelation r → preprocess_record p r s ≡ executed r s
  unfolding preprocess_record
  preprocess-eq r s k = ground (arith, k.1)

  preprocess-Sends :
      (r : Record) (s : Session W)
      → IsRelation r
      → Open s
      → Sends p a (preprocess_record p r) (preprocess_sent r) s
  preprocess-Sends r s k o =
      same-Sends p a (preprocess_record p r) (executed r) (preprocess_sent r) s
        (preprocess-eq r s k) (executed-Sends r s o)

  preprocess_file-Sends :
      (file : List Record) (s : Session W)
      → All IsRelation file
      → Open s
      → Sends p a
          (preprocess_file p file)
          (if p.is_perform_preprocess then flat_map preprocess_sent file else [])
          s
  unfolding preprocess_file
  preprocess_file-Sends file s k o =
      elim (p.is_perform_preprocess)
        as (λ q.
          Sends p a (λ u. if q then for_each p (preprocess_record p) file u else (return tt, u))
            (if q then flat_map preprocess_sent file else []) s) [
              | true ↦
                  for_each-Sends p a IsRelation (preprocess_record p) preprocess_sent file s k
                    (λ r u h l. preprocess-Sends r u h l) o
              | false ↦ nothing-Sends p a (λ u. (return tt, u)) s o refl
            ]

  file-Sends :
      (file : List Record) (s : Session W)
      → All IsRelation file
      → Open s
      → Sends p a (publish_relation p file) (relation_file_sent file) s
  file-Sends file s k o =
      let first = preprocess_file-Sends file s k o in
      then_do-Sends p a (preprocess_file p file) (for_each p (publish_relation_record p 5) file)
        (if p.is_perform_preprocess then flat_map preprocess_sent file else [])
        (flat_map relation_sent file) s first
        (for_each-Sends p a IsRelation (publish_relation_record p 5) relation_sent file first.end k
          (λ r u h l. relation-Sends 4 r u h l) first.is_open)

  pub files-Sends :
      (node_files relation_files : List (List Record)) (s : Session W)
      → All (λ file. All IsNode file) node_files
      → All (λ file. All IsRelation file) relation_files
      → Open s
      → Sends p a
          (then_do p
            (for_each p (publish_node p) node_files)
            (for_each p (publish_relation p) relation_files))
          (all_sent node_files relation_files)
          s
  files-Sends node_files relation_files s n k o =
      let nodes =
        for_each-Sends p a (λ file. All IsNode file) (publish_node p) (flat_map node_sent)
          node_files s n
          (λ file u h l.
            for_each-Sends p a IsNode (publish_node_record p) node_sent file u h
              (λ r v h' l'. node-Sends r v h' l') l)
          o in
      then_do-Sends p a (for_each p (publish_node p) node_files)
        (for_each p (publish_relation p) relation_files) (flat_map (flat_map node_sent) node_files)
        (flat_map relation_file_sent relation_files) s nodes
        (for_each-Sends p a (λ file. All IsRelation file) (publish_relation p) relation_file_sent
          relation_files nodes.end k (λ file u h l. file-Sends file u h l) nodes.is_open)

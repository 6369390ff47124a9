-- ===== src/Publisher/Publish.antt =====
-- `publish_impl` of `Neo4jCsvPublisher`. A file is the list of its rows.
use amundsen_fork.Prelude.{
  ℕ, zero, suc, ◌==◌, String, str_eq, Bool, true, false, not, ◌||◌, Option, none, some, List, [],
  ◌∷◌, ◌++◌, if◌then◌else◌,
}
use amundsen_fork.Prelude.Effects.{Result, return, raise, Action}
use amundsen_fork.Models.Graph.{Value, str, int, bool, null}
use amundsen_fork.Publisher.Statements.{
  Record, Statement, Options, missing, is_among, rendered, value_of, node_columns,
  preprocess_columns, relation_columns, create_props_param, create_node_merge_statement,
  create_relationship_merge_statement,
}
use amundsen_fork.Publisher.Transactions.{
  Driver, Limits, PublishError, database, key_error, unbound_tx, Session, lift, roll_back,
  execute_statement,
}

-- Python's `==` on values, where a truth value is a number too.
abbrev pub same_value : Value → Value → Bool
same_value (str a) (str b) = str_eq a b
same_value (int a) (int b) = a == b
same_value (int a) (bool b) = a == (if b then 1 else 0)
same_value (bool a) (int b) = (if a then 1 else 0) == b
same_value (bool true) (bool b) = b
same_value (bool false) (bool b) = not b
same_value null null = true
same_value _ _ = false

-- `label in self.labels`
unfoldable pub value_in : Value → List Value → Bool
value_in v [] = false
value_in v (x ∷ rest) = same_value v x || value_in v rest

abbrev pub value_or_null : Option Value → Value
value_or_null none = null
value_or_null (some v) = v

pub record Publisher (W E : Type 0) : Type 0 where
  pub driver : Driver W E
  pub options : Options
  pub limits : Limits
  pub confirm_rel_created : Bool
  pub deadlock_node_labels : List String
  -- `RelationPreprocessor`: whether it is used, and its statement for a row.
  pub is_perform_preprocess : Bool
  pub preprocess_cypher : Record → Option (Statement × Record)
  -- What the code asks of an exception: `TransientError`, and the text of an existing constraint.
  pub is_transient : E → Bool
  pub already_exists : E → Bool

module _ {W E : Type 0} (p : Publisher W E) where
  abbrev pub Publishing : Type 0
  Publishing = Action (Session W) (PublishError E) (Unit {0})

  abbrev pub then_do : Publishing → Publishing → Publishing
  then_do first second s =
      let (r, after) = first s in elim r [ raise e ↦ (raise e, after) | return _ ↦ second after ]

  abbrev pub for_each : {A : Type 0} → (A → Publishing) → List A → Publishing
  for_each f [] s = (return tt, s)
  for_each f (a ∷ rest) s = then_do (f a) (for_each f rest) s

  unfoldable pub publish_node_record : Record → Publishing
  publish_node_record node_record s = elim (missing node_columns node_record) [
    | some key ↦ (raise (key_error key), s)
    | none ↦
        execute_statement p.driver p.limits (create_node_merge_statement p.options node_record)
          (create_props_param node_record) false s
  ]

  abbrev pub publish_node : List Record → Publishing
  publish_node node_file = for_each publish_node_record node_file

  unfoldable pub preprocess_record : Record → Publishing
  preprocess_record rel_record s =
      let executed : Result (PublishError E) (Unit {0}) × Session W =
        elim (p.preprocess_cypher rel_record) [
          | none ↦ (return tt, s)
          | some (stmt, params) ↦ execute_statement p.driver p.limits stmt params false s
        ] in
      elim (missing preprocess_columns rel_record) [
        | some key ↦ (raise (key_error key), s)
        | none ↦ executed
      ]

  abbrev pub is_deadlock_row : Record → Bool
  is_deadlock_row rel_record =
      is_among "START_LABEL" rel_record p.deadlock_node_labels
      || is_among "END_LABEL" rel_record p.deadlock_node_labels

  -- Whether the `except TransientError` of the retry loop goes on.
  unfoldable pub is_retried : Record → PublishError E → Bool
  is_retried rel_record (database e) =
      if p.is_transient e then is_deadlock_row rel_record else false
  is_retried rel_record _ = false

  -- The `try` block of the retry loop.
  unfoldable pub merge_relation_record : Record → Publishing
  merge_relation_record rel_record s = elim (missing relation_columns rel_record) [
    | some key ↦ (raise (key_error key), s)
    | none ↦
        execute_statement p.driver p.limits
          (create_relationship_merge_statement p.options rel_record) (create_props_param rel_record)
          p.confirm_rel_created s
  ]

  -- The `while` loop, with the number of the retries left: it ends without an error when they are
  -- used up.
  unfoldable pub publish_relation_record : ℕ → Record → Publishing
  publish_relation_record zero rel_record s = (return tt, s)
  publish_relation_record (suc retries) rel_record s =
      let (r, after) = merge_relation_record rel_record s in
      elim r [
        | return _ ↦ (return tt, after)
        | raise e ↦
            let again = publish_relation_record retries rel_record after in
            if is_retried rel_record e then again else (raise e, after)
      ]

  abbrev pub retries_number : ℕ
  retries_number = 5

  unfoldable pub preprocess_file : List Record → Publishing
  preprocess_file relation_file s =
      if p.is_perform_preprocess then for_each preprocess_record relation_file s else (return tt, s)

  abbrev pub publish_relation : List Record → Publishing
  publish_relation relation_file =
      then_do (preprocess_file relation_file)
        (for_each (publish_relation_record retries_number) relation_file)

  abbrev pub begin : Publishing
  begin s = lift p.driver p.limits s.count (p.driver.begin_transaction s.world)

  abbrev pub commit : Publishing
  commit s = lift p.driver p.limits s.count (p.driver.tx_commit s.world)

  -- The `try` block after the transaction has begun.
  abbrev pub publish_files : List (List Record) → List (List Record) → Publishing
  publish_files node_files relation_files =
      then_do (for_each publish_node node_files)
        (then_do (for_each publish_relation relation_files) commit)

  -- If no transaction begins, the name `tx` of the handler is not bound.
  unfoldable pub publish_statements : List (List Record) → List (List Record) → Publishing
  publish_statements node_files relation_files s =
      let (b, begun) = begin s in
      elim b [
        | raise _ ↦ (raise unbound_tx, begun)
        | return _ ↦
            let (r, after) = publish_files node_files relation_files begun in
            elim r [ return _ ↦ (return tt, after) | raise e ↦ roll_back p.driver p.limits e after ]
      ]

  -- `_try_create_index`, in a session of its own.
  unfoldable pub try_create_index : String → Publishing
  try_create_index label s =
      let (r, w) = p.driver.create_constraint label s.world in
      let after : Session W = record { count = s.count; world = w } in
      elim r [
        | return _ ↦ (return tt, after)
        | raise e ↦ if p.already_exists e then (return tt, after) else (raise (database e), after)
      ]

  -- `_create_indices` over the rows of all node files, with the set `labels`.
  unfoldable pub create_indices : List Value → List Record → Publishing
  create_indices labels [] s = (return tt, s)
  create_indices labels (node_record ∷ rest) s =
      let label = value_or_null (value_of "LABEL" node_record) in
      let seen = create_indices labels rest s in
      let new =
        then_do (try_create_index (rendered label)) (create_indices (label ∷ labels) rest) s in
      let indexed : Result (PublishError E) (Unit {0}) × Session W =
        if value_in label labels then seen else new in
      elim (missing node_columns node_record) [
        | some key ↦ (raise (key_error key), s)
        | none ↦ indexed
      ]

  abbrev pub all_rows : List (List Record) → List Record
  all_rows [] = []
  all_rows (f ∷ rest) = f ++ all_rows rest

  unfoldable pub publish_impl : List (List Record) → List (List Record) → Publishing
  publish_impl node_files relation_files =
      then_do (create_indices [] (all_rows node_files))
        (publish_statements node_files relation_files)

-- ===== src/Publisher/Transactions.antt =====
-- `Neo4jCsvPublisher._execute_statement`: a statement in the current transaction, which is committed
-- and replaced after every so many statements.
use amundsen_fork.Prelude.{ℕ, suc, ◌%◌, String, ltb, ◌==◌, Bool, not, ◌&&◌, if◌then◌else◌}
use amundsen_fork.Prelude.Effects.{Result, return, raise, Action}
use amundsen_fork.Publisher.Statements.{Record, Statement}

-- The driver's session, whose world holds the transaction that the variable `tx` names. `run` gives
-- whether `result.single()` has a record.
pub record Driver (W E : Type 0) : Type 0 where
  pub begin_transaction : Action W E (Unit {0})
  pub tx_run : Statement → Record → Action W E Bool
  pub tx_commit : Action W E (Unit {0})
  pub tx_rollback : Action W E (Unit {0})
  pub tx_closed : W → Bool
  pub create_constraint : String → Action W E (Unit {0})

pub data PublishError (E : Type 0) : Type 0 where
  database : E → PublishError E
  no_result : Statement → PublishError E
  key_error : String → PublishError E
  unbound_tx zero_division : PublishError E

-- The publisher's `_count` and the database.
pub record Session (W : Type 0) : Type 0 where
  pub count : ℕ
  pub world : W

-- The configured numbers of statements after which to commit, and to log the progress.
pub record Limits : Type 0 where
  pub transaction_size : ℕ
  pub progress_report_frequency : ℕ

module _ {W E : Type 0} (d : Driver W E) (limits : Limits) where
  -- The driver's exceptions reach the publisher's code as they are.
  abbrev pub lift : {A : Type 0} → ℕ → Result E A × W → Result (PublishError E) A × Session W
  lift n (return a, w) = (return a, record { count = n; world = w })
  lift n (raise e, w) = (raise (database e), record { count = n; world = w })

  unfoldable pub commit_and_begin : Action (Session W) (PublishError E) (Unit {0})
  commit_and_begin s =
      let (r, w) = d.tx_commit s.world in
      elim r [
        | raise e ↦ lift s.count (raise e, w)
        | return _ ↦ lift s.count (d.begin_transaction w)
      ]

  -- The `try` block after the run: the count, the commit at a multiple of the transaction size, and
  -- otherwise the test for the report of the progress. Python's `%` raises on 0.
  unfoldable pub counted : Action (Session W) (PublishError E) (Unit {0})
  counted s =
      let next : Session W = record { count = suc s.count; world = s.world } in
      if ltb 1 next.count
      then if limits.transaction_size == 0
        then (raise zero_division, next)
        else if next.count % limits.transaction_size == 0
        then commit_and_begin next
        else if limits.progress_report_frequency == 0
        then (raise zero_division, next)
        else (return tt, next)
      else (return tt, next)

  unfoldable pub attempt :
      Statement → Record → Bool → Action (Session W) (PublishError E) (Unit {0})
  attempt stmt params expect_result s =
      let (r, w) = d.tx_run stmt params s.world in
      elim r [
        | raise e ↦ (raise (database e), record { count = s.count; world = w })
        | return found ↦
            if expect_result && not found
            then (raise (no_result stmt), record { count = s.count; world = w })
            else counted (record { count = s.count; world = w })
      ]

  -- `if not tx.closed(): tx.rollback()`, then `raise e`.
  unfoldable pub roll_back : PublishError E → Action (Session W) (PublishError E) (Unit {0})
  roll_back e s =
      if d.tx_closed s.world
      then (raise e, s)
      else let (r, w) = d.tx_rollback s.world in
        elim r [
          | raise e' ↦ (raise (database e'), record { count = s.count; world = w })
          | return _ ↦ (raise e, record { count = s.count; world = w })
        ]

  unfoldable pub execute_statement :
      Statement → Record → Bool → Action (Session W) (PublishError E) (Unit {0})
  execute_statement stmt params expect_result s =
      let (r, after) = attempt stmt params expect_result s in
      elim r [ return _ ↦ (return tt, after) | raise e ↦ roll_back e after ]

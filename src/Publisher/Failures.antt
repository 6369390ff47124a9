-- ===== src/Publisher/Failures.antt =====
-- The statements that the database refuses.
use amundsen_fork.Prelude.{
  ℕ, suc, ◌≡◌, ◌∙◌, refl, Bool, true, false, none, arith, Bool-cases, inl, inr,
}
use amundsen_fork.Prelude.Effects.{return, raise}
use amundsen_fork.Publisher.Statements.{
  Record, Statement, missing, relation_columns, create_props_param,
  create_relationship_merge_statement,
}
use amundsen_fork.Publisher.Transactions.{
  Driver, database, Session, attempt, roll_back, execute_statement,
}
use amundsen_fork.Publisher.Publish.{
  Publisher, is_deadlock_row, is_retried, merge_relation_record, publish_relation_record,
}

-- A rollback always succeeds and closes the transaction.
pub record RollsBack {W E : Type 0} (d : Driver W E) : Type 0 where
  pub rolled_back : W → W
  pub rolls_back : (w : W) → d.tx_rollback w ≡ (return tt, rolled_back w)
  pub closes : (w : W) → d.tx_closed (rolled_back w) ≡ true

module _ {W E : Type 0} (p : Publisher W E) (l : RollsBack p.driver) where
  abbrev at : Session W → W → Session W
  at s w = record { count = s.count; world = w }

  -- A statement whose run raises is not counted, its exception is raised again, and the transaction
  -- is closed afterwards.
  pub execute_statement-refused :
      (stmt : Statement) (params : Record) (expect_result : Bool) (e : E) (w : W) (s : Session W)
      → p.driver.tx_run stmt params s.world ≡ (raise e, w)
      → (end : Session W) × (execute_statement p.driver p.limits stmt params expect_result s
          ≡ (raise (database e), end))
        × (end.count ≡ s.count)
        × (p.driver.tx_closed end.world ≡ true)
  unfolding execute_statement attempt roll_back
  execute_statement-refused stmt params expect_result e w s h =
      elim (Bool-cases (p.driver.tx_closed w)) [
        | inl c ↦ (at s w, ground arith, refl, c)
        | inr o ↦ (at s (l.rolled_back w), ground (arith, l.rolls_back w), refl, l.closes w)
      ]

  again-eq :
      (n : ℕ) (r : Record) (e : E) (s v : Session W)
      → p.is_transient e ≡ true
      → is_deadlock_row p r ≡ true
      → merge_relation_record p r s ≡ (raise (database e), v)
      → publish_relation_record p (suc n) r s ≡ publish_relation_record p n r v
  unfolding publish_relation_record is_retried
  again-eq n r e s v t k h = ground arith

  raised-eq :
      (n : ℕ) (r : Record) (e : E) (s v : Session W)
      → p.is_transient e ≡ false
      → merge_relation_record p r s ≡ (raise (database e), v)
      → publish_relation_record p (suc n) r s ≡ (raise (database e), v)
  unfolding publish_relation_record is_retried
  raised-eq n r e s v t h = ground arith

  merge-eq :
      (r : Record) (s v : Session W) (e : E)
      → missing relation_columns r ≡ none
      → execute_statement p.driver p.limits
          (create_relationship_merge_statement p.options r)
          (create_props_param r)
          p.confirm_rel_created
          s
        ≡ (raise (database e), v)
      → merge_relation_record p r s ≡ (raise (database e), v)
  unfolding merge_relation_record
  merge-eq r s v e k h = ground arith

  -- Where a rollback succeeds and the driver refuses, by an exception that is not transient, to run
  -- a statement in a closed transaction: if the statement of a relation of a deadlock label meets a
  -- transient exception, the first retry, which runs in the transaction that was rolled back, ends
  -- the loop however many retries are left. The row is not counted, the exception of the closed
  -- transaction is raised, and the transaction is closed.
  pub publish_relation_record-retried :
      (retries : ℕ) (r : Record) (e refusal : E) (s : Session W)
      → missing relation_columns r ≡ none
      → is_deadlock_row p r ≡ true
      → p.is_transient e ≡ true
      → p.driver.tx_run
          (create_relationship_merge_statement p.options r)
          (create_props_param r)
          s.world
        ≡ (raise e, s.world)
      → p.is_transient refusal ≡ false
      → ((w : W)
          → p.driver.tx_closed w ≡ true
          → p.driver.tx_run
              (create_relationship_merge_statement p.options r)
              (create_props_param r)
              w
            ≡ (raise refusal, w))
      → (end : Session W) × (publish_relation_record p (suc (suc retries)) r s
          ≡ (raise (database refusal), end))
        × (end.count ≡ s.count)
        × (p.driver.tx_closed end.world ≡ true)
  publish_relation_record-retried n r e refusal s m k t h u closed =
      let stmt = create_relationship_merge_statement p.options r in
      let params = create_props_param r in
      let (v, first, same, shut) =
        execute_statement-refused stmt params p.confirm_rel_created e s.world s h in
      let (end, second, same', shut') =
        execute_statement-refused stmt params p.confirm_rel_created refusal v.world v
          (closed v.world shut) in
      (
        end,
        again-eq (suc n) r e s v t k (merge-eq r s v e m first)
            ∙ raised-eq n r refusal v end u (merge-eq r v end refusal m second),
        same' ∙ same,
        shut',
      )

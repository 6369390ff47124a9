-- ===== src/Tests/Publishing.antt =====
-- The publisher of databuilder/databuilder/publisher on a concrete database.
use amundsen_fork.Prelude.{
  ◌+◌, ◌≡◌, refl, String, str_eq, Bool, true, false, none, [], ◌∷◌, ◌++◌, length, arith, contains,
}
use amundsen_fork.Prelude.Effects.{Result, return, raise}
use amundsen_fork.Models.Graph.{str, int}
use amundsen_fork.Publisher.{
  Record, Statement, Options, create_node_merge_statement, create_relationship_merge_statement,
  create_props_param, Driver, database, Session, execute_statement, Publisher,
  publish_relation_record, publish_impl, is_among, missing, value_of, Accepting, NonZero, all_sent,
  Sent,
}
use amundsen_fork.Publisher.Committed.{publish_impl-commits}
use amundsen_fork.Publisher.Failures.{
  RollsBack, execute_statement-refused, publish_relation_record-retried,
}

-- The statements that are committed, those of the transaction, and whether it is closed.
abbrev Log : Type 0
Log = Sent × Sent × Bool

abbrev run_open : Statement → Record → Log → Result String Bool × Log
run_open stmt params (c, p, true) = (raise "closed", (c, p, true))
run_open stmt params (c, p, false) = (return true, (c, p ++ (stmt, params) ∷ [], false))

abbrev commit_open : Log → Result String (Unit {0}) × Log
commit_open (c, p, true) = (raise "closed", (c, p, true))
commit_open (c, p, false) = (return tt, (c ++ p, [], true))

abbrev accepting_driver : Driver Log String
accepting_driver = record {
  begin_transaction = λ w. (return tt, (w.0, [], false));
  tx_run = run_open;
  tx_commit = commit_open;
  tx_rollback = λ w. (return tt, (w.0, [], true));
  tx_closed = λ w. w.2;
  create_constraint = λ label w. (return tt, w);
}

abbrev sample_options : Options
sample_options = record {
  create_only_nodes = "User" ∷ [];
  publish_tag = "2020-01-01";
  add_publisher_metadata = true;
}

abbrev publisher_with : Driver Log String → Publisher Log String
publisher_with d = record {
  driver = d;
  options = sample_options;
  limits = record { transaction_size = 2; progress_report_frequency = 3 };
  confirm_rel_created = true;
  deadlock_node_labels = "Badge" ∷ [];
  is_perform_preprocess = false;
  preprocess_cypher = λ r. none;
  is_transient = λ e. str_eq e "deadlock";
  already_exists = λ e. false;
}

runs_lem :
    (stmt : Statement) (params : Record) (w : Log)
    → w.2 ≡ false
    → run_open stmt params w ≡ (return true, (w.0, w.1 ++ (stmt, params) ∷ [], w.2))
runs_lem stmt params (c, p, true) h = ground arith
runs_lem stmt params (c, p, false) h = refl

commits_lem : (w : Log) → w.2 ≡ false → commit_open w ≡ (return tt, (w.0 ++ w.1, [], true))
commits_lem (c, p, true) h = ground arith
commits_lem (c, p, false) h = refl

abbrev sample_laws : Accepting accepting_driver
sample_laws = record {
  committed = λ w. w.0;
  pending = λ w. w.1;
  after_begin = λ w. (w.0, [], false);
  begins = λ w. refl;
  begins_open = λ w. refl;
  begins_empty = λ w. refl;
  begins_committed = λ w. refl;
  after_run = λ stmt params w. (w.0, w.1 ++ (stmt, params) ∷ [], w.2);
  runs = λ stmt params w h. runs_lem stmt params w h;
  runs_open = λ stmt params w h. h;
  runs_pending = λ stmt params w. refl;
  runs_committed = λ stmt params w. refl;
  after_commit = λ w. (w.0 ++ w.1, [], true);
  commits = λ w h. commits_lem w h;
  commits_closed = λ w. refl;
  commits_pending = λ w. refl;
  after_constraint = λ label w. w;
  constrains = λ label w. refl;
  constrains_committed = λ label w. refl;
}

abbrev table_row : Record
table_row = ("LABEL", str "Table") ∷ ("KEY", str "t") ∷ ("is_view:UNQUOTED", int 0) ∷ []

abbrev badge_row : Record
badge_row = ("LABEL", str "Badge") ∷ ("KEY", str "b") ∷ []

abbrev relation_row : Record
relation_row =
    ("START_LABEL", str "Table")
    ∷ ("START_KEY", str "t")
    ∷ ("END_LABEL", str "Badge")
    ∷ ("END_KEY", str "b")
    ∷ ("TYPE", str "HAS_BADGE")
    ∷ ("REVERSE_TYPE", str "BADGE_FOR")
    ∷ []

abbrev fresh : Session Log
fresh = record { count = 0; world = ([], [], true) }

abbrev accepting : Publisher Log String
accepting = publisher_with accepting_driver

size_positive : NonZero accepting.limits
size_positive = ((λ h. omega arith), (λ h. omega arith))

abbrev sample_sent : Sent
sample_sent =
    all_sent accepting sample_laws size_positive ((table_row ∷ badge_row ∷ []) ∷ [])
      ((relation_row ∷ []) ∷ [])

publish_impl-commits_example :
    (end : Session Log) × (publish_impl accepting
        ((table_row ∷ badge_row ∷ []) ∷ [])
        ((relation_row ∷ []) ∷ [])
        fresh
      ≡ (return tt, end))
    × (end.world.0 ≡ [] ++ sample_sent)
    × (end.world.2 ≡ true)
    × (end.count ≡ 0 + length sample_sent)
unfolding missing value_of
publish_impl-commits_example =
    publish_impl-commits accepting sample_laws size_positive ((table_row ∷ badge_row ∷ []) ∷ [])
      ((relation_row ∷ []) ∷ []) fresh ((refl, (refl, tt)), tt) (((refl, refl), tt), tt)

-- Every statement in an open transaction meets a deadlock.
abbrev run_locked : Statement → Record → Log → Result String Bool × Log
run_locked stmt params (c, p, true) = (raise "closed", (c, p, true))
run_locked stmt params (c, p, false) = (raise "deadlock", (c, p, false))

closed_lem :
    (stmt : Statement) (params : Record) (w : Log)
    → w.2 ≡ true
    → run_locked stmt params w ≡ (raise "closed", w)
closed_lem stmt params (c, p, true) h = refl
closed_lem stmt params (c, p, false) h = ground arith

abbrev locked_driver : Driver Log String
locked_driver = record accepting_driver { tx_run = run_locked }

abbrev locked : Publisher Log String
locked = publisher_with locked_driver

abbrev locked_rollback : RollsBack locked_driver
locked_rollback = record {
  rolled_back = λ w. (w.0, [], true);
  rolls_back = λ w. refl;
  closes = λ w. refl;
}

abbrev started : Session Log
started = record { count = 4; world = ([], [], false) }

execute_statement-refused_example :
    (end : Session Log) × (execute_statement locked_driver locked.limits
        (create_node_merge_statement sample_options table_row)
        (create_props_param table_row)
        false
        started
      ≡ (raise (database "deadlock"), end))
    × (end.count ≡ 4)
    × (end.world.2 ≡ true)
execute_statement-refused_example =
    execute_statement-refused locked locked_rollback
      (create_node_merge_statement sample_options table_row) (create_props_param table_row) false
      "deadlock" ([], [], false) started refl

publish_relation_record-retried_example :
    (end : Session Log) × (publish_relation_record locked 5 relation_row started
      ≡ (raise (database "closed"), end))
    × (end.count ≡ 4)
    × (end.world.2 ≡ true)
unfolding contains is_among missing value_of
publish_relation_record-retried_example =
    publish_relation_record-retried locked locked_rollback 3 relation_row "deadlock" "closed"
      started refl refl refl refl refl
      λ w h.
        closed_lem (create_relationship_merge_statement sample_options relation_row)
          (create_props_param relation_row) w h

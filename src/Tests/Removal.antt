-- ===== src/Tests/Removal.antt =====
-- The removal of stale nodes of databuilder/databuilder/task on a concrete database.
use Prim.Native.Nat.{min}
use amundsen_fork.Prelude.{
  ℕ, ◌+◌, ◌-◌, ◌≤◌, ◌≡◌, ◌⊎◌, inl, inr, refl, String, str_eq, true, false, Option, none, some, [],
  ◌∷◌, arith, if◌then◌else◌,
}
use amundsen_fork.Prelude.Effects.{Result, return}
use amundsen_fork.Staleness.{
  Target, plain, with_condition, milliseconds, publish_tag, Config, Task, init, init_accepts, Kind,
  nodes, relations, Template, delete_stale, validate_staleness, staleness_condition, Params, Query,
  StalenessError, threshold, is_over, run, Store,
}
use amundsen_fork.Staleness.Safety.{AnyStopped, IsOverError, full_verdict, run_guard}
use amundsen_fork.Staleness.Cleans.{AllClean, run_cleans, run_dry}

abbrev sample_config : Config
sample_config = record {
  target_nodes = plain "Table" ∷ [];
  target_relations = with_condition "COLUMN" "target.x = 1" ∷ [];
  batch_size = 2;
  dry_run = false;
  staleness_max_pct = 50;
  staleness_pct_max_dict = [];
  retain_data_with_no_publisher_metadata = true;
  job_publish_tag = none;
  milliseconds_to_expire = some 90000000;
  minimum_milliseconds_to_expire = 86400000;
}

abbrev sample_task : Task
sample_task = record {
  target_nodes = plain "Table" ∷ [];
  target_relations = with_condition "COLUMN" "target.x = 1" ∷ [];
  batch_size = 2;
  dry_run = false;
  staleness_pct = 50;
  staleness_pct_dict = [];
  retain = true;
  ms_to_expire = some 90000000;
  marker = milliseconds 90000000;
}

sample_init : init sample_config ≡ return sample_task
unfolding init
sample_init = refl

init_accepts_example :
    ((ms : ℕ) × (sample_config.milliseconds_to_expire ≡ some ms)
      × (sample_config.job_publish_tag ≡ none)
      × (sample_config.minimum_milliseconds_to_expire ≤ ms)
      × (sample_task.marker ≡ milliseconds ms)
      × (sample_task.ms_to_expire ≡ some ms))
    ⊎ ((tag : String) × (sample_config.job_publish_tag ≡ some tag)
        × (sample_config.milliseconds_to_expire ≡ none)
        × (sample_task.marker ≡ publish_tag tag)
        × (sample_task.ms_to_expire ≡ none))
init_accepts_example = init_accepts sample_config sample_task sample_init

-- A database of fresh and of stale records.
abbrev Records : Type 0
Records = ℕ × ℕ

abbrev limit_of : Option ℕ → ℕ
limit_of none = 0
limit_of (some n) = n

abbrev answer : Template → String → Params → Records → Result String (Option ℕ) × Records
answer (validate_staleness _) condition params (fresh, stale) =
    (return (some (if str_eq condition "true" then fresh + stale else stale)), (fresh, stale))
answer (delete_stale _) condition params (fresh, stale) =
    let count = min (limit_of params.batch_size) stale in
    (return (some count), (fresh, stale - count))

abbrev query : Query Records String
query s params w = answer s.template s.staleness_condition params w

fits : (b s : ℕ) → s - min b s + min b s ≤ s
fits b s = ground arith

abbrev sample_store : Store query sample_task
unfolding staleness_condition
sample_store = record {
  total = λ k g w. w.0 + w.1;
  stale = λ k g w. w.1;
  reads_total = λ k g w. refl;
  reads_stale = λ k g w. refl;
  after_delete = λ k g w. (w.0, w.1 - min 2 w.1);
  deletes = λ k g w. refl;
  leaves = λ k g w. fits 2 w.1;
  others = λ k j g h w. omega arith;
}

abbrev dry_task : Task
dry_task = record sample_task { dry_run = true }

abbrev dry_store : Store query dry_task
unfolding staleness_condition
dry_store = record {
  total = λ k g w. w.0 + w.1;
  stale = λ k g w. w.1;
  reads_total = λ k g w. refl;
  reads_stale = λ k g w. refl;
  after_delete = λ k g w. (w.0, w.1 - min 2 w.1);
  deletes = λ k g w. refl;
  leaves = λ k g w. fits 2 w.1;
  others = λ k j g h w. omega arith;
}

-- Half of the records are stale.
run_guard_example :
    (r : Result (StalenessError String) (Unit {0})) × IsOverError query sample_task sample_store
      (10, 10)
      r
    × (run query sample_task 3 (10, 10) ≡ some (r, (10, 10)))
unfolding is_over threshold sample_store
run_guard_example = run_guard query sample_task sample_store 3 (10, 10) (inl (inl refl))

not_stopped :
    (k : Kind) (g : Target) → ¬ AnyStopped query sample_task sample_store k (10, 5) (g ∷ [])
unfolding is_over threshold sample_store
not_stopped k g h = elim h [ inl over ↦ ground arith | inr none_left ↦ none_left ]

run_cleans_example :
    (v : Records) × (run query sample_task 6 (10, 5) ≡ some (return tt, v))
    × AllClean query sample_task sample_store nodes v sample_task.target_nodes
    × AllClean query sample_task sample_store relations v sample_task.target_relations
unfolding sample_store
run_cleans_example =
    run_cleans query sample_task sample_store 6 (10, 5) refl (omega arith)
      (not_stopped nodes (plain "Table"))
      (not_stopped relations (with_condition "COLUMN" "target.x = 1")) (omega arith, tt)
      (omega arith, tt)

run_dry_example :
    run query dry_task 1 (10, 5) ≡ some (full_verdict query dry_task dry_store (10, 5), (10, 5))
run_dry_example = run_dry query dry_task dry_store 0 (10, 5) refl
